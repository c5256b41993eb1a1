-- ===== src/Mail.antt =====
-- service/email_dispatcher.py: the queue of mails and its retries. The event loop runs one of the steps
-- below at a time; how long a task sleeps, its jitter, the log lines and the cancelling of a send are
-- not modelled. `sends` counts the calls of the client, and no code reads it.
pub mod Retries
use package.text.Mathlib.Text.{starts_with}
use markland.Prelude.{
  ℕ, zero, suc, ◌+◌, String, Bool, true, false, Option, none, some, List, [], ◌∷◌, ◌++◌, ◌||◌,
  length, leb, take_chars, if◌then◌else◌,
}
use markland.External.{External}

pub record Item : Type 0 where
  pub to : String
  pub subject : String
  pub html : String
  pub text : Option String
  pub metadata : List (String × String)
  pub attempt : ℕ

-- DEFAULT_RETRY_DELAYS, in milliseconds
abbrev pub default_retry_delays : List ℕ
default_retry_delays = 1_000 ∷ 3_000 ∷ 10_000 ∷ []

-- `waiting` are the items whose _requeue_after sleeps.
pub record MailQueue : Type 0 where
  pub retry_delays : List ℕ
  pub queue : List Item
  pub waiting : List Item
  pub stopped : Bool
  pub sends : ℕ

-- `sig in s`
unfoldable pub contains : String → String → Bool
contains sig String.[] = starts_with "" sig
contains sig (String.◌∷◌ c s) = starts_with (String.◌∷◌ c s) sig || contains sig s

-- _PERMANENT_SIGNATURES
abbrev pub permanent_signatures : List String
permanent_signatures =
    "you can only send testing emails" ∷ "validation_error" ∷ "invalid `to` field" ∷ []

unfoldable pub has_signature : List String → String → Bool
has_signature [] s = false
has_signature (sig ∷ sigs) s = contains sig s || has_signature sigs s

-- `_classify(exc) == "permanent"`
unfoldable pub is_permanent : External → String → Bool
is_permanent x message = has_signature permanent_signatures (x.lower message)

-- what _recipient_hash keeps of an address
unfoldable pub recipient_hash : External → String → String
recipient_hash x addr = take_chars 12 (x.sha256_hex addr)

-- What a call of the client comes to: a return, an EmailSendError, or another exception.
pub data Sending : Type 0 where
  delivered broken : Sending
  refused : (message : String) → Sending

abbrev pub again : Item → Item
again item = record item { attempt = item.attempt + 1 }

-- _process, once the client has been called
unfoldable pub after_send : External → Sending → Item → MailQueue → MailQueue
after_send x delivered item d = d
after_send x broken item d = d
after_send x (refused message) item d =
    if is_permanent x message
    then d
    else if leb (length d.retry_delays) item.attempt
    then d
    else record d { waiting = d.waiting ++ again item ∷ [] }

abbrev pub process_next : External → Sending → List Item → MailQueue → MailQueue
process_next x outcome [] d = d
process_next x outcome (item ∷ rest) d =
    after_send x outcome item (record d { queue = rest; sends = d.sends + 1 })

-- a round of _run, whose loop ends when the dispatcher is stopped
unfoldable pub process : External → Sending → MailQueue → MailQueue
unfolding after_send
process x outcome d = if d.stopped then d else process_next x outcome d.queue d

-- The item at a place, and the others.
unfoldable pub pick : ℕ → List Item → Option (Item × List Item)
pick n [] = none
pick zero (item ∷ items) = some (item, items)
pick (suc n) (item ∷ items) = elim (pick n items) [
  | none ↦ none
  | some found ↦ some (found.0, item ∷ found.1)
]

-- the end of _requeue_after, of any of the items that wait
abbrev pub woken : Option (Item × List Item) → MailQueue → MailQueue
woken none d = d
woken (some found) d =
    if d.stopped
    then record d { waiting = found.1 }
    else record d { waiting = found.1; queue = d.queue ++ found.0 ∷ [] }

unfoldable pub requeue : ℕ → MailQueue → MailQueue
requeue n d = woken (pick n d.waiting) d

-- the attempt of a new item
abbrev pub new_item : Item → Item
new_item item = record item { attempt = 0 }

abbrev pub enqueue_item : Item → MailQueue → MailQueue
enqueue_item item d = record d { queue = d.queue ++ new_item item ∷ [] }

-- A step of the event loop.
pub data Event : Type 0 where
  enqueues : Item → Event
  processes : Sending → Event
  requeues : ℕ → Event
  starts stops : Event

abbrev pub event : External → Event → MailQueue → MailQueue
event x (enqueues item) d = enqueue_item item d
event x (processes outcome) d = process x outcome d
event x (requeues n) d = requeue n d
event x starts d = record d { stopped = false }
event x stops d = record d { stopped = true }

abbrev pub run_events : External → List Event → MailQueue → MailQueue
run_events x [] d = d
run_events x (e ∷ events) d = run_events x events (event x e d)
