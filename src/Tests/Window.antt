-- ===== src/Tests/Window.antt =====
-- Calls of two addresses to a limiter of two calls in ten microseconds.
use markland.Prelude.{ℕ, String, true, false, [], ◌∷◌, ◌≡◌, arith, select}
use markland.Web.Device.{new_window}
use markland.Web.Device.Log.{Call, verdicts, times, logged}
use markland.Web.Device.Window.{verdicts-logged}

abbrev call : String → ℕ → Call
call key at = record { key = key; at = at }

-- The third call of the first address comes too soon, and the hit at 1 is in the window until 11.
verdicts-logged_example :
    verdicts
      (call "10.0.0.1" 1
        ∷ call "10.0.0.1" 4
        ∷ call "10.0.0.1" 6
        ∷ call "10.0.0.2" 6
        ∷ call "10.0.0.1" 11
        ∷ call "10.0.0.1" 12
        ∷ [])
      (new_window 2 10 3)
    ≡ true ∷ true ∷ false ∷ true ∷ false ∷ true ∷ []
unfolding logged times select
verdicts-logged_example =
    verdicts-logged 2 10 3
      (call "10.0.0.1" 1
        ∷ call "10.0.0.1" 4
        ∷ call "10.0.0.1" 6
        ∷ call "10.0.0.2" 6
        ∷ call "10.0.0.1" 11
        ∷ call "10.0.0.1" 12
        ∷ [])
      (omega arith) (omega arith)
