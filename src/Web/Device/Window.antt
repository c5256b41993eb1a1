-- ===== src/Web/Device/Window.antt =====
-- The verdicts of SlidingWindowRateLimiter.check (web/device_routes.py) over a sequence of calls.
use markland.Prelude.{
  ℕ, ◌≤◌, ◌+◌, ◌≡◌, refl, ◌∙◌, inl, inr, true, false, List, [], ◌∷◌, ◌++◌, arith, fetchone, select,
  delete_where, length, is_some, leb, Bool-cases,
}
use markland.Web.Device.{
  SlidingWindow, new_window, has_hits_key, recent, is_stale, queue_of, pruned, check, check_queue,
}
use markland.Web.Device.Queue.{within, Keeps, Keeps-recent, Keeps-hit, recent-select}
use markland.Web.Device.Log.{
  Call, verdicts, times, has_room, logged, IsOrdered, Shows, times_other, times_hit, fetchone-first,
  select-delete_where, Slot-queue, Slot-pruned, Shows-later, Shows-put,
}

-- The limiter has these settings, and its queues show the log.
abbrev Matches : (time limit window : ℕ) → List Call → SlidingWindow → Type 0
Matches time limit window log l =
    (l.limit ≡ limit) × ((l.window ≡ window) × Shows time window log l.hits)

module _ (limit window : ℕ) (log : List Call) where
  Matches-later :
      (time later : ℕ) (l : SlidingWindow)
      → time ≤ later
      → Matches time limit window log l
      → Matches later limit window log l
  Matches-later time later l m k = (k.0, (k.1.0, Shows-later time later window log l.hits m k.1.1))

  Matches-pruned :
      (now : ℕ) (l : SlidingWindow)
      → Matches now limit window log l
      → Matches now limit window log (pruned now l)
  Matches-pruned now l k = elim (Bool-cases (leb l.prune_every (l.calls_since_prune + 1))) [
    | inl e ↦
        let kept : Shows now window log (delete_where (is_stale now l.window) l.hits) =
          rw k.1.0 λ key. rw (select-delete_where (has_hits_key key) (is_stale now window) l.hits) (
            Slot-pruned now window (times key log) (select (has_hits_key key) l.hits)
              (k.1.1 key)) in
        rw e (k.0, (k.1.0, kept))
    | inr e ↦ rw e k
  ]

  module _ (c : Call) (l : SlidingWindow) (k : Matches c.at limit window log l) where
    abbrev kept : List ℕ
    kept = recent c.at l.window (queue_of (fetchone (has_hits_key c.key) l.hits))

    stored : Keeps c.at window (times c.key log) (queue_of (fetchone (has_hits_key c.key) l.hits))
    stored = rw (fetchone-first (has_hits_key c.key) l.hits) (
        Slot-queue c.at window (times c.key log) (select (has_hits_key c.key) l.hits) (k.1.1 c.key))

    kept-Keeps : Keeps c.at window (times c.key log) kept
    kept-Keeps = rw k.1.0 (
        Keeps-recent c.at window (times c.key log) (queue_of (fetchone (has_hits_key c.key) l.hits))
          stored)

    kept-select : kept ≡ select (within c.at window) (times c.key log)
    kept-select = rw k.1.0 (
        recent-select c.at window c.at (queue_of (fetchone (has_hits_key c.key) l.hits)) stored.0
        ∙ stored.1 c.at (omega arith))

    refused_step :
        has_room limit window log c ≡ false
        → (is_some (check_queue c.key c.at kept l).0 ≡ true)
          × Matches c.at limit window log (check_queue c.key c.at kept l).1
    refused_step h =
        let full : leb l.limit (length kept) ≡ true = rw (k.0, kept-select) (ground (arith, h)) in
        rw full (
          refl,
          (
            k.0,
            (k.1.0, Shows-put c.at window c.key kept l log log k.1.1 (λ other ne. refl) kept-Keeps),
          ),
        )

    allowed_step :
        has_room limit window log c ≡ true
        → (is_some (check_queue c.key c.at kept l).0 ≡ false)
          × Matches c.at limit window (log ++ c ∷ []) (check_queue c.key c.at kept l).1
    allowed_step h =
        let room : leb l.limit (length kept) ≡ false = rw (k.0, kept-select) (ground (arith, h)) in
        rw room (
          refl,
          (
            k.0,
            (
              k.1.0,
              Shows-put c.at window c.key (kept ++ c.at ∷ []) l log (log ++ c ∷ []) k.1.1
                  (times_other c log)
                  (rw (times_hit c log) (Keeps-hit c.at window (times c.key log) kept kept-Keeps)),
            ),
          ),
        )

  check-refused :
      (c : Call) (time : ℕ) (l : SlidingWindow)
      → time ≤ c.at
      → Matches time limit window log l
      → has_room limit window log c ≡ false
      → (is_some (check c.key c.at l).0 ≡ true)
        × Matches c.at limit window log (check c.key c.at l).1
  unfolding check
  check-refused c time l m k =
      refused_step c (pruned c.at l) (Matches-pruned c.at l (Matches-later time c.at l m k))

  check-allowed :
      (c : Call) (time : ℕ) (l : SlidingWindow)
      → time ≤ c.at
      → Matches time limit window log l
      → has_room limit window log c ≡ true
      → (is_some (check c.key c.at l).0 ≡ false)
        × Matches c.at limit window (log ++ c ∷ []) (check c.key c.at l).1
  unfolding check
  check-allowed c time l m k =
      allowed_step c (pruned c.at l) (Matches-pruned c.at l (Matches-later time c.at l m k))

verdicts-later :
    (limit window : ℕ) (calls : List Call) (time : ℕ) (log : List Call) (l : SlidingWindow)
    → IsOrdered time calls
    → Matches time limit window log l
    → verdicts calls l ≡ logged limit window log calls
unfolding logged
verdicts-later limit window [] time log l h k = refl
verdicts-later limit window (c ∷ calls) time log l h k =
    elim (Bool-cases (has_room limit window log c)) [
      | inl e ↦
          let step = check-allowed limit window log c time l h.0 k e in
          rw
            (
              e,
              step.0,
              verdicts-later limit window calls c.at (log ++ c ∷ []) (check c.key c.at l).1 h.1
                  step.1,
            )
            refl
      | inr e ↦
          let step = check-refused limit window log c time l h.0 k e in
          rw
            (
              e,
              step.0,
              verdicts-later limit window calls c.at log (check c.key c.at l).1 h.1 step.1,
            )
            refl
    ]

-- The limiter allows a call exactly when the log of all calls that it has allowed has fewer than
-- `limit` of the same key that are no older than the window: over any sequence of calls of a new limiter
-- whose limit is above 0 and whose times do not go back, the dropping of old hits and the collection of stale keys, however
-- often it runs, change no verdict.
pub verdicts-logged :
    (limit window prune_every : ℕ) (calls : List Call)
    → 1 ≤ limit
    → IsOrdered 0 calls
    → verdicts calls (new_window limit window prune_every) ≡ logged limit window [] calls
unfolding select times
verdicts-logged limit window prune_every calls positive h =
    verdicts-later limit window calls 0 [] (new_window limit window prune_every) h
      (refl, (refl, λ key. (tt, λ n m. refl)))
