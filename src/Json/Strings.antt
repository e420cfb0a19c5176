-- ===== src/Json/Strings.antt =====
-- src/json.cpp: `utf8`, `hex4`, `string_` and `escape`.
pub mod RoundTrip
use haiku_mgmt_agent.Prelude.{
  ℕ, zero, suc, ◌+◌, ◌-◌, ◌*◌, ◌/◌, ◌%◌, ◌^◌, Bool, true, false, not, ◌&&◌, Option, none, some,
  List, [], ◌∷◌, ◌++◌, ltb, leb, ◌==◌, if◌then◌else◌, length, get_or,
}
use haiku_mgmt_agent.Prelude.Text.{Bytes, codes}
use haiku_mgmt_agent.Util.Codec.{hex_digits}
use haiku_mgmt_agent.Mgs.Uuid.{hex_nibble}

-- What `fail` is told. `stuck` is no message: a loop of the model ran out of fuel.
pub data Problem : Type 0 where
  unexpected_end : Problem
  expected_string : Problem
  unterminated_string : Problem
  unterminated_escape : Problem
  unknown_escape : Problem
  truncated_escape : Problem
  bad_hex_digit : Problem
  expected_colon : Problem
  expected_comma_or_brace : Problem
  expected_comma_or_bracket : Problem
  invalid_value : Problem
  stuck : Problem

-- A result and the input behind it, or a message and the input at the place where `fail` was called.
pub data Parsed {ℓ} (A : Type ℓ) : Type ℓ where
  ok : A → Bytes → Parsed A
  fail : Problem → Bytes → Parsed A

-- One code point in UTF-8; each disjunct has its own bits, so that `|` is a sum.
unfoldable pub utf8 : ℕ → Bytes
utf8 cp =
    if ltb cp 0x80
    then cp ∷ []
    else if ltb cp 0x800
    then (0xC0 + cp / 2 ^ 6) ∷ (0x80 + cp % 64) ∷ []
    else if ltb cp 0x10000
    then (0xE0 + cp / 2 ^ 12) ∷ (0x80 + cp / 2 ^ 6 % 64) ∷ (0x80 + cp % 64) ∷ []
    else (0xF0 + cp / 2 ^ 18)
      ∷ (0x80 + cp / 2 ^ 12 % 64)
      ∷ (0x80 + cp / 2 ^ 6 % 64)
      ∷ (0x80 + cp % 64)
      ∷ []

-- The loop of `hex4` with `n` digits to go.
unfoldable pub hex_loop : ℕ → ℕ → Bytes → Parsed ℕ
hex_loop zero out s = ok out s
hex_loop (suc n) out [] = fail truncated_escape []
hex_loop (suc n) out (c ∷ s) = elim (hex_nibble c) [
  | none ↦ fail bad_hex_digit s
  | some d ↦ hex_loop n (out * 16 + d) s
]

unfoldable pub hex4 : Bytes → Parsed ℕ
hex4 s = if ltb (length s) 4 then fail truncated_escape s else hex_loop 4 0 s

abbrev pub is_high : ℕ → Bool
is_high cp = leb 0xD800 cp && leb cp 0xDBFF

abbrev pub is_low : ℕ → Bool
is_low cp = leb 0xDC00 cp && leb cp 0xDFFF

-- What follows a high surrogate: the second escape, if one stands there.
unfoldable pub surrogate : ℕ → Bytes → Parsed Bytes
surrogate cp (a ∷ b ∷ s) =
    if a == b'\\' && b == b'u'
    then elim (hex4 s) [
      | fail p at ↦ fail p at
      | ok lo rest ↦
          if is_low lo
          then ok (utf8 (0x10000 + (cp - 0xD800) * 2 ^ 10 + (lo - 0xDC00))) rest
          else ok (utf8 lo ++ utf8 cp) rest
    ]
    else ok (utf8 cp) (a ∷ b ∷ s)
surrogate cp s = ok (utf8 cp) s

-- `case 'u'`: the bytes that the escape stands for.
unfoldable pub unicode_escape : Bytes → Parsed Bytes
unicode_escape s = elim (hex4 s) [
  | fail p at ↦ fail p at
  | ok cp rest ↦ if is_high cp then surrogate cp rest else ok (utf8 cp) rest
]

-- The byte behind a backslash, where it is one of the eight plain ones.
unfoldable pub plain_escape : ℕ → Option ℕ
plain_escape e =
    if e == b'"'
    then some b'"'
    else if e == b'\\'
    then some b'\\'
    else if e == b'/'
    then some b'/'
    else if e == b'b'
    then some 8
    else if e == b'f'
    then some 12
    else if e == b'n'
    then some 10
    else if e == b'r'
    then some 13
    else if e == b't'
    then some 9
    else none

-- One round of the loop of `string_`: the string is closed, some bytes are read, or it fails.
pub data Round : Type 0 where
  closed : Bytes → Round
  read : Bytes → Bytes → Round
  broken : Problem → Bytes → Round

abbrev pub as_round : Parsed Bytes → Round
as_round (ok bytes s) = read bytes s
as_round (fail p at) = broken p at

unfoldable pub escape_round : Bytes → Round
escape_round [] = broken unterminated_escape []
escape_round (e ∷ s) = elim (plain_escape e) [
  | some b ↦ read (b ∷ []) s
  | none ↦ if e == b'u' then as_round (unicode_escape s) else broken unknown_escape s
]

unfoldable pub string_round : Bytes → Round
string_round [] = broken unterminated_string []
string_round (c ∷ s) =
    if c == b'"' then closed s else if not (c == b'\\') then read (c ∷ []) s else escape_round s

-- Each round takes a byte at least, so the length of the input is enough fuel.
unfoldable pub string_loop : ℕ → Bytes → Bytes → Parsed Bytes
string_loop zero out s = fail stuck s
string_loop (suc fuel) out s = elim (string_round s) [
  | closed rest ↦ ok out rest
  | read bytes rest ↦ string_loop fuel (out ++ bytes) rest
  | broken p at ↦ fail p at
]

unfoldable pub string_ : Bytes → Parsed Bytes
string_ [] = fail expected_string []
string_ (c ∷ s) =
    if c == b'"' then string_loop (suc (length s)) [] s else fail expected_string (c ∷ s)

-- What `escape` writes for one byte; `%04x` of a byte below 0x20.
unfoldable pub escape_byte : ℕ → Bytes
escape_byte c =
    if c == b'"'
    then codes "\\\""
    else if c == b'\\'
    then codes "\\\\"
    else if c == 8
    then codes "\\b"
    else if c == 12
    then codes "\\f"
    else if c == 10
    then codes "\\n"
    else if c == 13
    then codes "\\r"
    else if c == 9
    then codes "\\t"
    else if ltb c 0x20
    then codes "\\u00" ++ (get_or hex_digits (c / 16) 0 ∷ get_or hex_digits (c % 16) 0 ∷ [])
    else c ∷ []

unfoldable pub escape_bytes : Bytes → Bytes
escape_bytes [] = []
escape_bytes (c ∷ s) = escape_byte c ++ escape_bytes s

unfoldable pub escape : Bytes → Bytes
unfolding escape_bytes
escape s = b'"' ∷ (escape_bytes s ++ (b'"' ∷ []))
