-- ===== src/Mail/Retries.antt =====
-- How often a mail is sent.
use markland.Prelude.{
  ℕ, zero, suc, ◌+◌, ◌-◌, ◌≤◌, some, List, [], ◌∷◌, ◌++◌, ◌≡◌, refl, sym, subst, ◌<◌, ap, arith,
  length, All, All-append, leb, Bool-cases, Option-cases, inl, inr,
}
use markland.External.{External}
use markland.Mail.{
  Item, MailQueue, Sending, Event, after_send, again, enqueue_item, event, is_permanent, new_item,
  pick, process, process_next, requeue, run_events,
}

-- the calls of the client that an item may still cause
abbrev pub budget : ℕ → Item → ℕ
budget retries item = suc retries - item.attempt

abbrev pub budgets : ℕ → List Item → ℕ
budgets retries [] = 0
budgets retries (item ∷ items) = budget retries item + budgets retries items

-- the calls so far, and those that may follow
abbrev pub load : ℕ → MailQueue → ℕ
load retries d = d.sends + (budgets retries d.queue + budgets retries d.waiting)

-- one call for each retry delay and one more, for each mail that is enqueued
abbrev pub allowance : ℕ → List Event → ℕ
allowance retries [] = 0
allowance retries (Event.enqueues item ∷ events) = suc retries + allowance retries events
allowance retries (Event.processes outcome ∷ events) = allowance retries events
allowance retries (Event.requeues n ∷ events) = allowance retries events
allowance retries (Event.starts ∷ events) = allowance retries events
allowance retries (Event.stops ∷ events) = allowance retries events

budgets-append :
    (retries : ℕ) (items more : List Item)
    → budgets retries (items ++ more) ≡ budgets retries items + budgets retries more
budgets-append retries [] more = omega arith
budgets-append retries (item ∷ items) more = omega (arith, budgets-append retries items more)

-- the item has a call left, so that processing it costs one
abbrev HasCall : ℕ → Item → Type 0
HasCall retries item = item.attempt ≤ retries

-- every item that is queued or waits has a call left
abbrev pub IsFresh : ℕ → MailQueue → Type 0
IsFresh retries d =
    (length d.retry_delays ≡ retries)
    × All (λ item. item.attempt ≤ retries) d.queue
    × All (λ item. item.attempt ≤ retries) d.waiting

-- a step keeps the invariant and costs what it is allowed
abbrev Allowed : ℕ → ℕ → MailQueue → MailQueue → Type 0
Allowed retries extra d after =
    IsFresh retries after × (load retries after ≤ load retries d + extra)

enqueue-Allowed :
    (retries : ℕ) (item : Item) (d : MailQueue)
    → IsFresh retries d
    → Allowed retries (suc retries) d (enqueue_item item d)
enqueue-Allowed retries item d h = (
  (h.0, All-append (HasCall retries) d.queue (new_item item ∷ []) h.1 (omega arith, tt), h.2),
  omega (arith, budgets-append retries d.queue (new_item item ∷ [])),
)

after_send-Allowed :
    (x : External) (outcome : Sending) (retries : ℕ) (item : Item) (rest : List Item)
    (d : MailQueue)
    → IsFresh retries d
    → d.queue ≡ item ∷ rest
    → Allowed retries 0 d
        (after_send x outcome item (record d { queue = rest; sends = d.sends + 1 }))
unfolding after_send
after_send-Allowed x outcome retries item rest d h e =
    let queue : All (HasCall retries) (item ∷ rest) = subst (All (HasCall retries)) e h.1 in
    let cost = ap (budgets retries) e in
    let kept : Allowed retries 0 d (record d { queue = rest; sends = d.sends + 1 }) =
      ((h.0, queue.1, h.2), omega (arith, cost, queue.0)) in
    elim outcome
      as (λ k.
        Allowed retries 0 d
          (after_send x k item (record d { queue = rest; sends = d.sends + 1 }))) [
            | Sending.delivered ↦ kept
            | Sending.broken ↦ kept
            | Sending.refused message ↦ elim (Bool-cases (is_permanent x message)) [
              | inl permanent ↦ rw permanent kept
              | inr transient ↦ elim (Bool-cases (leb (length d.retry_delays) item.attempt)) [
                | inl spent ↦ rw (transient, spent) kept
                | inr more ↦
                    let left : item.attempt < retries = ground (arith, more, h.0) in
                    rw (transient, more)
                      (
                        (
                          h.0,
                          queue.1,
                          All-append (HasCall retries) d.waiting (again item ∷ []) h.2
                              (omega (arith, left), tt),
                        ),
                        omega
                            (arith, cost, left, budgets-append retries d.waiting (again item ∷ [])),
                      )
              ]
            ]
          ]

process_next-Allowed :
    (x : External) (outcome : Sending) (retries : ℕ) (items : List Item) (d : MailQueue)
    → IsFresh retries d
    → d.queue ≡ items
    → Allowed retries 0 d (process_next x outcome items d)
process_next-Allowed x outcome retries [] d h e = (h, omega arith)
process_next-Allowed x outcome retries (item ∷ rest) d h e =
    after_send-Allowed x outcome retries item rest d h e

process-Allowed :
    (x : External) (outcome : Sending) (retries : ℕ) (d : MailQueue)
    → IsFresh retries d
    → Allowed retries 0 d (process x outcome d)
unfolding process
process-Allowed x outcome retries d h = elim (Bool-cases d.stopped) [
  | inl stopped ↦ simp stopped (h, omega arith)
  | inr running ↦ simp running (process_next-Allowed x outcome retries d.queue d h refl)
]

pick_cases :
    (retries n : ℕ) (items others : List Item) (item : Item)
    → All (HasCall retries) items
    → pick n items ≡ some (item, others)
    → HasCall retries item
      × All (HasCall retries) others
      × (budgets retries items ≡ budget retries item + budgets retries others)
unfolding pick
pick_cases retries n [] others item h e = absurd (ground (arith, e))
pick_cases retries zero (first ∷ items) others item h e =
    let same : first ≡ item = ground (arith, e) in
    let same' : items ≡ others = ground (arith, e) in
    (
      subst (HasCall retries) same h.0,
      subst (All (HasCall retries)) same' h.1,
      omega (arith, ap (budget retries) same, ap (budgets retries) same'),
    )
pick_cases retries (suc n) (first ∷ items) others item h e = elim (Option-cases (pick n items)) [
  | inl missing ↦ absurd (ground (arith, missing, e))
  | inr ((found, left), hit) ↦
      let same : found ≡ item = ground (arith, hit, e) in
      let same' : first ∷ left ≡ others = ground (arith, hit, e) in
      let (call, calls, cost) = pick_cases retries n items left found h.1 hit in
      let cost' = ap (budgets retries) same' in
      let cost'' = ap (budget retries) same in
      (
        subst (HasCall retries) same call,
        subst (All (HasCall retries)) same' (h.0, calls),
        omega (arith, cost, cost', cost''),
      )
]

requeue-Allowed :
    (n retries : ℕ) (d : MailQueue) → IsFresh retries d → Allowed retries 0 d (requeue n d)
unfolding requeue
requeue-Allowed n retries d h = elim (Option-cases (pick n d.waiting)) [
  | inl missing ↦ rw missing (h, omega arith)
  | inr ((item, others), found) ↦
      let (call, calls, cost) = pick_cases retries n d.waiting others item h.2 found in
      elim (Bool-cases d.stopped) [
        | inl stopped ↦ simp (found, stopped) ((h.0, h.1, calls), omega (arith, cost))
        | inr running ↦
            simp (found, running)
              (
                (h.0, All-append (HasCall retries) d.queue (item ∷ []) h.1 (call, tt), calls),
                omega (arith, cost, budgets-append retries d.queue (item ∷ [])),
              )
      ]
]

event-Allowed :
    (x : External) (retries : ℕ) (e : Event) (d : MailQueue)
    → IsFresh retries d
    → Allowed retries (allowance retries (e ∷ [])) d (event x e d)
event-Allowed x retries (Event.enqueues item) d h =
    let step = enqueue-Allowed retries item d h in (step.0, omega (arith, step.1))
event-Allowed x retries (Event.processes outcome) d h = process-Allowed x outcome retries d h
event-Allowed x retries (Event.requeues n) d h = requeue-Allowed n retries d h
event-Allowed x retries Event.starts d h = (h, omega arith)
event-Allowed x retries Event.stops d h = (h, omega arith)

allowance-cons :
    (retries : ℕ) (e : Event) (events : List Event)
    → allowance retries (e ∷ events) ≡ allowance retries (e ∷ []) + allowance retries events
allowance-cons retries (Event.enqueues item) events = omega arith
allowance-cons retries (Event.processes outcome) events = omega arith
allowance-cons retries (Event.requeues n) events = omega arith
allowance-cons retries Event.starts events = omega arith
allowance-cons retries Event.stops events = omega arith

run_events-Allowed :
    (x : External) (retries : ℕ) (events : List Event) (d : MailQueue)
    → IsFresh retries d
    → Allowed retries (allowance retries events) d (run_events x events d)
run_events-Allowed x retries [] d h = (h, omega arith)
run_events-Allowed x retries (e ∷ events) d h =
    let step = event-Allowed x retries e d h in
    let rest = run_events-Allowed x retries events (event x e d) step.0 in
    (rest.0, omega (arith, step.1, rest.1, allowance-cons retries e events))

-- Whatever the client answers and in whichever order the event loop runs the steps, from a dispatcher
-- with nothing queued the client is called at most once for each retry delay and once more for each
-- mail that was enqueued.
pub run_events-sends :
    (x : External) (retries : ℕ) (events : List Event) (d : MailQueue)
    → length d.retry_delays ≡ retries
    → d.queue ≡ []
    → d.waiting ≡ []
    → (run_events x events d).sends ≤ d.sends + allowance retries events
run_events-sends x retries events d delays queue waiting =
    let fresh : IsFresh retries d = (
      delays,
      subst (All (HasCall retries)) (sym queue) tt,
      subst (All (HasCall retries)) (sym waiting) tt,
    ) in
    let all = run_events-Allowed x retries events d fresh in
    omega (arith, all.1, ap (budgets retries) queue, ap (budgets retries) waiting)
