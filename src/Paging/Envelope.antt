-- ===== src/Paging/Envelope.antt =====
-- _mcp_envelopes.py: encode_cursor and decode_cursor. JSON and base64 are parameters.
use Prim.Native.String.{◌++◌ as ◌+++◌}
use text.Mathlib.TextLemmas.{cons-append, nil-append}
use markland.Paging.{Cursor, Codec, CodecLaws}
use markland.Prelude.{
  ℕ, zero, suc, ◌+◌, ◌-◌, ◌%◌, ◌<◌, String, false, Option, none, some, ◌≡◌, refl, arith, is_empty,
  has_char, rstrip_char, len,
}

-- json.dumps of the payload, json.loads with the two keys read from it, and base64 on UTF-8 texts
pub record Transport : Type 0 where
  pub dumps : Cursor → String
  pub loads : String → Option Cursor
  pub urlsafe_b64encode : String → String
  pub urlsafe_b64decode : String → Option String

-- `"=" * n`
unfoldable pub pads : ℕ → String
pads zero = ""
pads (suc n) = "=" +++ pads n

rstrip_char-pads : (n : ℕ) → rstrip_char b'=' (pads n) ≡ ""
unfolding pads rstrip_char
rstrip_char-pads zero = refl
rstrip_char-pads (suc n) = rw (cons-append, nil-append (pads n), rstrip_char-pads n) refl

rstrip_char-append :
    (s : String) (n : ℕ) → has_char b'=' s ≡ false → rstrip_char b'=' (s +++ pads n) ≡ s
unfolding rstrip_char has_char
rstrip_char-append String.[] n h = rw (nil-append (pads n)) (rstrip_char-pads n)
rstrip_char-append (String.◌∷◌ c s) n h =
    rw (cons-append, rstrip_char-append s n (ground (arith, h))) (ground (arith, h))

module _ (t : Transport) where
  unfoldable pub encode_cursor : Cursor → String
  encode_cursor c = rstrip_char b'=' (t.urlsafe_b64encode (t.dumps c))

  abbrev pub load_payload : Option String → Option Cursor
  load_payload none = none
  load_payload (some payload) = t.loads payload

  -- where no ValueError is raised; `-len(cursor) % 4` is never negative
  unfoldable pub decode_cursor : String → Option Cursor
  decode_cursor cursor =
      load_payload (t.urlsafe_b64decode (cursor +++ pads ((4 - len cursor % 4) % 4)))

  abbrev pub cursor_codec : Codec
  cursor_codec = record { encode = encode_cursor; decode = decode_cursor }

  -- JSON gives the payload back; base64 writes whole quanta of four characters, of which at most the
  -- last two are `=`, and reads its own output.
  pub record TransportLaws : Type 0 where
    pub body : Cursor → String
    pub padding : Cursor → ℕ
    pub encoded : (c : Cursor) → t.urlsafe_b64encode (t.dumps c) ≡ body c +++ pads (padding c)
    pub quanta : (c : Cursor) → (len (body c) + padding c) % 4 ≡ 0
    pub few : (c : Cursor) → padding c < 3
    pub plain : (c : Cursor) → has_char b'=' (body c) ≡ false
    pub nonempty : (c : Cursor) → is_empty (body c) ≡ false
    pub decoded :
        (c : Cursor) → t.urlsafe_b64decode (t.urlsafe_b64encode (t.dumps c)) ≡ some (t.dumps c)
    pub loaded : (c : Cursor) → t.loads (t.dumps c) ≡ some c

  pub cursor_codec-laws : TransportLaws → CodecLaws cursor_codec
  unfolding encode_cursor decode_cursor
  cursor_codec-laws laws c =
      let body = laws.body c in
      let stripped : encode_cursor c ≡ body =
        rw (laws.encoded c) (rstrip_char-append body (laws.padding c) (laws.plain c)) in
      let missing : (4 - len body % 4) % 4 ≡ laws.padding c =
        omega (arith, laws.quanta c, laws.few c) in
      (
        rw (stripped, missing) (rw⁻¹ (laws.encoded c) (rw (laws.decoded c) (laws.loaded c))),
        rw stripped (laws.nonempty c),
      )
