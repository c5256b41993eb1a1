-- ===== src/Device/Race.antt =====
-- Two polls of one device code that overlap.
use Prim.Native.String.{◌++◌ as ◌+++◌}
use markland.Prelude.{◌++◌, String}
use markland.Model.{Fresh}
use markland.Effects.{Conn, Result}
use markland.External.{External}
use markland.Device.{get_device}
use markland.Device.Poll.{PollResult, answer_row}

module _ (x : External) (fresh fresh' : Fresh) (code : String) (c : Conn) where
  -- Both polls have read the row, and then the first one runs to its end before the second goes on.
  abbrev pub first_poll : Result PollResult × Conn
  first_poll = answer_row x fresh (get_device c.db code) c

  abbrev pub second_poll : Result PollResult × Conn
  second_poll = answer_row x fresh' (get_device c.db code) first_poll.1
