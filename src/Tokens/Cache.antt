-- ===== src/Tokens/Cache.antt =====
-- service/auth.py: _ResolvedTokenCache and resolve_token. Each method runs under the cache's lock, so
-- that threads interleave between calls only. Times are those of time.monotonic, as numbers.
pub mod Outcomes
pub mod Bound
pub mod Eviction
use markland.Prelude.{
  ℕ, ◌+◌, ◌-◌, String, Bool, true, false, Option, none, some, List, [], ◌∷◌, ◌++◌, ◌==◌, fetchone,
  delete_where, is_empty, length, drop, ltb, leb, if◌then◌else◌,
}
use markland.Model.{Principal, Fresh}
use markland.Effects.{Action, Conn, Result, ok, err}
use markland.External.{External}
use markland.Tokens.Resolve.{resolve_uncached}

pub record Entry : Type 0 where
  pub key : String
  pub expires_at : ℕ
  pub principal : Principal

-- The entries stand in the order of their last use, the oldest first; of two evictions of one
-- principal the later one stands first.
pub record Cache : Type 0 where
  pub ttl : ℕ
  pub max_entries : ℕ
  pub entries : List Entry
  pub seq : ℕ
  pub cleared_at : ℕ
  pub evicted_at : List (String × ℕ)

abbrev pub has_key : String → Entry → Bool
has_key key e = e.key == key

-- `del self._entries[key]`
abbrev pub without : String → Cache → Cache
without key c = record c { entries = delete_where (has_key key) c.entries }

-- the entry last, whether its key was there before or not
abbrev pub at_end : String → Entry → Cache → Cache
at_end key e c = record c { entries = delete_where (has_key key) c.entries ++ e ∷ [] }

abbrev pub begin : ℕ → Cache → ℕ × ℕ
begin now c = (c.seq, now)

unfoldable pub get : ℕ → String → Cache → Option Principal × Cache
get now key c = elim (fetchone (has_key key) c.entries) [
  | none ↦ (none, c)
  | some e ↦
      if leb e.expires_at now then (none, without key c) else (some e.principal, at_end key e c)
]

-- `self._evicted_at.get(principal_id)`
unfoldable pub last_eviction : String → List (String × ℕ) → Option ℕ
last_eviction principal_id [] = none
last_eviction principal_id (e ∷ evictions) =
    let rest = last_eviction principal_id evictions in
    if e.0 == principal_id then some e.1 else rest

-- `self._evicted_at.get(principal_id, -1) > generation`
abbrev pub after_generation : Option ℕ → ℕ → Bool
after_generation none generation = false
after_generation (some n) generation = ltb generation n

-- `while len(self._entries) > self._max_entries: popitem(last=False)`
abbrev pub trim : Cache → Cache
trim c = record c { entries = drop (length c.entries - c.max_entries) c.entries }

unfoldable pub put : String → Principal → ℕ → ℕ → Cache → Cache
put key principal generation read_at c =
    if ltb generation c.cleared_at
    then c
    else if after_generation (last_eviction principal.principal_id c.evicted_at) generation
    then c
    else trim
        (at_end key (record { key = key; expires_at = read_at + c.ttl; principal = principal }) c)

abbrev pub is_principal : String → Entry → Bool
is_principal principal_id e = e.principal.principal_id == principal_id

unfoldable pub evict_principal : String → Cache → Cache
evict_principal principal_id c = record c {
  seq = c.seq + 1;
  evicted_at = (principal_id, c.seq + 1) ∷ c.evicted_at;
  entries = delete_where (is_principal principal_id) c.entries;
}

unfoldable pub clear : Cache → Cache
clear c = record c { entries = []; seq = c.seq + 1; cleared_at = c.seq + 1 }

-- what is left to do when the resolve has read the tables
abbrev pub put_resolved : String → ℕ × ℕ → Result (Option Principal) → Cache → Cache
put_resolved key begun (ok (some p)) c = put key p begun.0 begun.1 c
put_resolved key begun (ok none) c = c
put_resolved key begun (err e) c = c

abbrev pub resolve_missed :
    External → Fresh → String → Cache → Conn → (Result (Option Principal) × Cache) × Conn
resolve_missed x fresh plaintext cache c =
    let r = resolve_uncached x fresh plaintext c in
    ((r.0, put_resolved (x.sha256_hex plaintext) (begin fresh.now cache) r.0 cache), r.1)

-- resolve_token with no other thread between its steps; the digest in hexadecimal stands for the key.
unfoldable pub resolve_token :
    External → Fresh → String → Cache → Conn → (Result (Option Principal) × Cache) × Conn
resolve_token x fresh plaintext cache c =
    let hit = get fresh.now (x.sha256_hex plaintext) cache in
    let missed = resolve_missed x fresh plaintext hit.1 c in
    if is_empty plaintext
    then ((ok none, cache), c)
    else elim hit.0 [ none ↦ missed | some p ↦ ((ok (some p), hit.1), c) ]

-- a call of one of the methods that change the cache
pub data Call : Type 0 where
  gets : (now : ℕ) → (key : String) → Call
  puts : (key : String) → Principal → (generation read_at : ℕ) → Call
  evicts : (principal_id : String) → Call
  clears : Call

abbrev pub call : Call → Cache → Cache
call (Call.gets now key) c = (get now key c).1
call (Call.puts key principal generation read_at) c = put key principal generation read_at c
call (Call.evicts principal_id) c = evict_principal principal_id c
call Call.clears c = clear c

abbrev pub run : List Call → Cache → Cache
run [] c = c
run (s ∷ calls) c = run calls (call s c)
