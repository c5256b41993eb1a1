-- ===== src/Web/Device/Log.antt =====
-- A log of the calls that SlidingWindowRateLimiter.check (web/device_routes.py) allows, a limiter that keeps
-- it, and the entries of `_hits` that show it.
use markland.Prelude.{
  ℕ, ◌≤◌, ◌≡◌, refl, sym, ◌∙◌, ap, subst, inl, inr, String, Bool, true, false, List, [], ◌∷◌, ◌++◌,
  ◌==◌, arith, fetchone, select, select-append, delete_where, select-delete_where_same, first,
  length, is_some, not, ltb, Bool-cases, eq_iff, if◌then◌else◌,
}
use markland.Web.Device.{SlidingWindow, Hits, has_hits_key, is_stale, queue_of, put_hits, check}
use markland.Web.Device.Queue.{within, Keeps, Keeps-later, Keeps-stale}

pub record Call : Type 0 where
  pub key : String
  pub at : ℕ

-- which of the calls the limiter allows
abbrev pub verdicts : List Call → SlidingWindow → List Bool
verdicts [] l = []
verdicts (c ∷ calls) l =
    let answer = check c.key c.at l in not (is_some answer.0) ∷ verdicts calls answer.1

-- the times of a key's calls
unfoldable pub times : String → List Call → List ℕ
times key [] = []
times key (c ∷ log) = let rest = times key log in if c.key == key then c.at ∷ rest else rest

-- The log has fewer than `limit` calls of the key that are no older than the window.
abbrev pub has_room : (limit window : ℕ) → List Call → Call → Bool
has_room limit window log c = ltb (length (select (within c.at window) (times c.key log))) limit

-- The abstract limiter forgets nothing, and logs the calls that it allows.
unfoldable pub logged : (limit window : ℕ) → List Call → List Call → List Bool
logged limit window log [] = []
logged limit window log (c ∷ calls) =
    let allowed = logged limit window (log ++ c ∷ []) calls in
    let refused = logged limit window log calls in
    if has_room limit window log c then true ∷ allowed else false ∷ refused

-- Each call comes no earlier than the one before it.
abbrev pub IsOrdered : ℕ → List Call → Type 0
IsOrdered time [] = Unit {0}
IsOrdered time (c ∷ calls) = (time ≤ c.at) × IsOrdered c.at calls

-- A key has one entry at most, whose queue shows the log.
abbrev pub Slot : (time window : ℕ) → List ℕ → List Hits → Type 0
Slot time window log [] = Keeps time window log []
Slot time window log (h ∷ []) = Keeps time window log h.hits
Slot time window log (h ∷ g ∷ more) = false ≡ true

abbrev pub Shows : (time window : ℕ) → List Call → List Hits → Type 0
Shows time window log hits =
    (key : String) → Slot time window (times key log) (select (has_hits_key key) hits)

append_nil : {A : Type 0} (xs : List A) → xs ++ [] ≡ xs
append_nil [] = refl
append_nil (x ∷ xs) = ap (λ ys. x ∷ ys) (append_nil xs)

times-append :
    (key : String) (log more : List Call)
    → times key (log ++ more) ≡ times key log ++ times key more
unfolding times
times-append key [] more = refl
times-append key (c ∷ log) more = ground (arith, times-append key log more)

pub times_other :
    (c : Call) (log : List Call) (other : String)
    → (c.key == other) ≡ false
    → times other (log ++ c ∷ []) ≡ times other log
unfolding times
times_other c log other ne = times-append other log (c ∷ []) ∙ rw ne (append_nil (times other log))

pub times_hit :
    (c : Call) (log : List Call) → times c.key (log ++ c ∷ []) ≡ times c.key log ++ c.at ∷ []
unfolding times
times_hit c log = times-append c.key log (c ∷ []) ∙ rw ((eq_iff c.key c.key).1 refl) refl

module _ {A : Type 0} where
  pub fetchone-first : (p : A → Bool) (xs : List A) → fetchone p xs ≡ first (select p xs)
  unfolding fetchone select
  fetchone-first p [] = refl
  fetchone-first p (x ∷ xs) = ground (arith, fetchone-first p xs)

  pub select-delete_where :
      (p q : A → Bool) (xs : List A) → select p (delete_where q xs) ≡ delete_where q (select p xs)
  unfolding select delete_where
  select-delete_where p q [] = refl
  select-delete_where p q (x ∷ xs) =
      let ih = select-delete_where p q xs in
      elim (Bool-cases (p x)) [
        | inl e ↦ elim (Bool-cases (q x)) [
          | inl k ↦ rw (e, k) ih
          | inr k ↦ rw (e, k, e) (ap (λ ys. x ∷ ys) ih)
        ]
        | inr e ↦ elim (Bool-cases (q x)) [ inl k ↦ rw (e, k) ih | inr k ↦ rw (e, k, e) ih ]
      ]

  select-delete_where_other :
      (p q : A → Bool) (xs : List A)
      → ((x : A) → p x ≡ true → q x ≡ false)
      → select p (delete_where q xs) ≡ select p xs
  unfolding select delete_where
  select-delete_where_other p q [] h = refl
  select-delete_where_other p q (x ∷ xs) h = ground (arith, h x, select-delete_where_other p q xs h)

module _ (time window : ℕ) (log : List ℕ) where
  pub Slot-queue :
      (hits : List Hits) → Slot time window log hits → Keeps time window log (queue_of (first hits))
  Slot-queue [] h = h
  Slot-queue (h ∷ []) k = k
  Slot-queue (h ∷ g ∷ more) k = absurd (ground (arith, k))

  Slot-later :
      (later : ℕ) (hits : List Hits)
      → time ≤ later
      → Slot time window log hits
      → Slot later window log hits
  Slot-later later [] m k = Keeps-later time window log [] k later m
  Slot-later later (h ∷ []) m k = Keeps-later time window log h.hits k later m
  Slot-later later (h ∷ g ∷ more) m k = k

  pub Slot-pruned :
      (hits : List Hits)
      → Slot time window log hits
      → Slot time window log (delete_where (is_stale time window) hits)
  unfolding delete_where
  Slot-pruned [] k = k
  Slot-pruned (h ∷ []) k = elim (Bool-cases (is_stale time window h)) [
    | inl e ↦ rw e (Keeps-stale time window log h.hits k e)
    | inr e ↦ rw e k
  ]
  Slot-pruned (h ∷ g ∷ more) k = absurd (ground (arith, k))

pub Shows-later :
    (time later window : ℕ) (log : List Call) (hits : List Hits)
    → time ≤ later
    → Shows time window log hits
    → Shows later window log hits
Shows-later time later window log hits m k key =
    Slot-later time window (times key log) later (select (has_hits_key key) hits) m (k key)

entry_self :
    (key : String) (q : List ℕ)
    → select (has_hits_key key) (record { key = key; hits = q } ∷ [])
      ≡ record { key = key; hits = q } ∷ []
unfolding select
entry_self key q = rw ((eq_iff key key).1 refl) refl

entry_other :
    (key other : String) (q : List ℕ)
    → (key == other) ≡ false
    → select (has_hits_key other) (record { key = key; hits = q } ∷ []) ≡ []
unfolding select
entry_other key other q h = rw h refl

other_entry :
    (key other : String) (h : Hits)
    → (key == other) ≡ false
    → has_hits_key other h ≡ true
    → has_hits_key key h ≡ false
other_entry key other h ne e = elim (Bool-cases (h.key == key)) [
  | inl k ↦
      let same : key ≡ other = sym ((eq_iff h.key key).0 k) ∙ (eq_iff h.key other).0 e in
      absurd (ground (arith, ne, (eq_iff key other).1 same))
  | inr k ↦ k
]

-- the key's new queue beside the entries of the others
select-put_hits_self :
    (key : String) (q : List ℕ) (l : SlidingWindow)
    → select (has_hits_key key) (put_hits key q l).hits ≡ record { key = key; hits = q } ∷ []
select-put_hits_self key q l =
    select-append (has_hits_key key) (delete_where (has_hits_key key) l.hits)
      (record { key = key; hits = q } ∷ [])
    ∙ rw (select-delete_where_same (has_hits_key key) l.hits) (entry_self key q)

select-put_hits_other :
    (key other : String) (q : List ℕ) (l : SlidingWindow)
    → (key == other) ≡ false
    → select (has_hits_key other) (put_hits key q l).hits ≡ select (has_hits_key other) l.hits
select-put_hits_other key other q l ne =
    select-append (has_hits_key other) (delete_where (has_hits_key key) l.hits)
      (record { key = key; hits = q } ∷ [])
    ∙ rw
        (
          entry_other key other q ne,
          select-delete_where_other (has_hits_key other) (has_hits_key key) l.hits
              (λ h. other_entry key other h ne),
        )
        (append_nil (select (has_hits_key other) l.hits))

pub Shows-put :
    (now window : ℕ) (key : String) (q : List ℕ) (l : SlidingWindow) (log after : List Call)
    → Shows now window log l.hits
    → ((other : String) → (key == other) ≡ false → times other after ≡ times other log)
    → Keeps now window (times key after) q
    → Shows now window after (put_hits key q l).hits
Shows-put now window key q l log after k others own other = elim (Bool-cases (key == other)) [
  | inl e ↦
      subst (λ o. Slot now window (times o after) (select (has_hits_key o) (put_hits key q l).hits))
        ((eq_iff key other).0 e) (rw (select-put_hits_self key q l) own)
  | inr ne ↦ rw (select-put_hits_other key other q l ne, others other ne) (k other)
]
