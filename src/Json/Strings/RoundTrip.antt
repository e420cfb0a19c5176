-- ===== src/Json/Strings/RoundTrip.antt =====
-- src/json.cpp: `string_` reads back what `escape` wrote.
use haiku_mgmt_agent.Prelude.{
  ℕ, zero, suc, ◌+◌, ◌*◌, ◌/◌, ◌%◌, ◌≤◌, ◌<◌, ◌≡◌, refl, ap, ◌∙◌, false, [], ◌∷◌, ◌++◌, ltb, ◌==◌,
  length, get_or, arith, append_assoc, append-nil, le→ltb, length-append,
}
use haiku_mgmt_agent.Prelude.Text.{Bytes, codes}
use haiku_mgmt_agent.Util.Codec.{hex_digits}
use haiku_mgmt_agent.Json.Strings.{
  closed, read, ok, string_round, string_loop, string_, escape_byte, escape_bytes, escape, utf8,
  as_round, is_high, escape_round, plain_escape, unicode_escape, hex4, hex_loop,
}
use haiku_mgmt_agent.Mgs.Uuid.{hex_nibble-digit}

hex_loop_digit :
    (n out d : ℕ) (s : Bytes)
    → d < 16
    → hex_loop (suc n) out (get_or hex_digits d 0 ∷ s) ≡ hex_loop n (out * 16 + d) s
unfolding hex_loop
hex_loop_digit n out d s h = rw (hex_nibble-digit d h, hex_loop)

hex_loop_zeros : (s : Bytes) → hex_loop 4 0 (b'0' ∷ b'0' ∷ s) ≡ hex_loop 2 0 s
hex_loop_zeros s =
    hex_loop_digit 3 0 0 (b'0' ∷ s) (omega arith) ∙ hex_loop_digit 2 0 0 s (omega arith)

hex4_open : (s : Bytes) → ltb (length s) 4 ≡ false → hex4 s ≡ hex_loop 4 0 s
unfolding hex4
hex4_open s h = rw h

hex_loop_end : (c : ℕ) (s : Bytes) → hex_loop 0 c s ≡ ok c s
unfolding hex_loop
hex_loop_end c s = refl

-- `hex4` reads the four digits that `%04x` prints for a control byte.
hex4_control :
    (c : ℕ) (s : Bytes)
    → c < 0x20
    → hex4 (b'0' ∷ b'0' ∷ get_or hex_digits (c / 16) 0 ∷ get_or hex_digits (c % 16) 0 ∷ s) ≡ ok c s
hex4_control c s h =
    let hi = get_or hex_digits (c / 16) 0 in
    let lo = get_or hex_digits (c % 16) 0 in
    let long : ltb (length (b'0' ∷ b'0' ∷ hi ∷ lo ∷ s)) 4 ≡ false =
      le→ltb (length (b'0' ∷ b'0' ∷ hi ∷ lo ∷ s)) 4 (omega arith) in
    let digits : hex_loop 2 0 (hi ∷ lo ∷ s) ≡ hex_loop 0 ((0 * 16 + c / 16) * 16 + c % 16) s =
      hex_loop_digit 1 0 (c / 16) (lo ∷ s) (omega arith)
      ∙ hex_loop_digit 0 (0 * 16 + c / 16) (c % 16) s (omega arith) in
    let value : (0 * 16 + c / 16) * 16 + c % 16 ≡ c = omega arith in
    hex4_open _ long ∙ hex_loop_zeros (hi ∷ lo ∷ s) ∙ digits ∙ rw value (hex_loop_end c s)

unicode_escape_low :
    (c : ℕ) (s : Bytes)
    → c < 0x20
    → unicode_escape (b'0' ∷ b'0' ∷ get_or hex_digits (c / 16) 0 ∷ get_or hex_digits (c % 16) 0 ∷ s)
      ≡ ok (c ∷ []) s
unicode_escape_low c s h =
    let e = hex4_control c s h in
    let small : is_high c ≡ false = ground arith in
    let one : utf8 c ≡ c ∷ [] = unfold utf8 in ground arith in
    unfold unicode_escape in rw (e, unicode_escape, small, one)

string_round_unicode : (s : Bytes) → string_round (b'\\' ∷ b'u' ∷ s) ≡ as_round (unicode_escape s)
unfolding string_round escape_round plain_escape
string_round_unicode s = refl

unicode_control :
    (c : ℕ) (s : Bytes)
    → c < 0x20
    → string_round
        (codes "\\u00" ++ (get_or hex_digits (c / 16) 0 ∷ get_or hex_digits (c % 16) 0 ∷ s))
      ≡ read (c ∷ []) s
unicode_control c s h = string_round_unicode _ ∙ ap as_round (unicode_escape_low c s h)

plain_round :
    (c : ℕ) (s : Bytes)
    → (c == b'"') ≡ false
    → (c == b'\\') ≡ false
    → string_round (c ∷ s) ≡ read (c ∷ []) s
unfolding string_round
plain_round c s p q = rw (p, q)

-- The short escapes.
short_rounds :
    (s : Bytes)
    → (string_round (codes "\\\"" ++ s) ≡ read (b'"' ∷ []) s)
      × (string_round (codes "\\\\" ++ s) ≡ read (b'\\' ∷ []) s)
      × (string_round (codes "\\b" ++ s) ≡ read (8 ∷ []) s)
      × (string_round (codes "\\f" ++ s) ≡ read (12 ∷ []) s)
      × (string_round (codes "\\n" ++ s) ≡ read (10 ∷ []) s)
      × (string_round (codes "\\r" ++ s) ≡ read (13 ∷ []) s)
      × (string_round (codes "\\t" ++ s) ≡ read (9 ∷ []) s)
unfolding string_round escape_round plain_escape
short_rounds s = (refl, refl, refl, refl, refl, refl, refl)

-- One round reads one escaped byte.
round-escape_byte : (c : ℕ) (s : Bytes) → string_round (escape_byte c ++ s) ≡ read (c ∷ []) s
unfolding escape_byte
round-escape_byte c s = ground (arith, short_rounds s, unicode_control c s, plain_round c s)

closing_round : (s : Bytes) → string_round (b'"' ∷ s) ≡ closed s
unfolding string_round
closing_round s = refl

loop_read :
    (f : ℕ) (out s bytes rest : Bytes)
    → string_round s ≡ read bytes rest
    → string_loop (suc f) out s ≡ string_loop f (out ++ bytes) rest
loop_read f out s bytes rest e = unfold string_loop in rw (e, string_loop)

loop_closed :
    (f : ℕ) (out s rest : Bytes)
    → string_round s ≡ closed rest
    → string_loop (suc f) out s ≡ ok out rest
loop_closed f out s rest e = unfold string_loop in rw (e, string_loop)

escape_bytes_cons :
    (f c : ℕ) (s out tail : Bytes)
    → string_loop (suc f) out (escape_bytes (c ∷ s) ++ tail)
      ≡ string_loop f (out ++ (c ∷ [])) (escape_bytes s ++ tail)
unfolding escape_bytes
escape_bytes_cons f c s out tail =
    rw (append_assoc (escape_byte c) (escape_bytes s) tail)
      (loop_read f out _ (c ∷ []) _ (round-escape_byte c (escape_bytes s ++ tail)))

string_loop-escape_bytes :
    (fuel : ℕ) (s out rest : Bytes)
    → length s < fuel
    → string_loop fuel out (escape_bytes s ++ (b'"' ∷ rest)) ≡ ok (out ++ s) rest
string_loop-escape_bytes zero s out rest h = absurd (omega arith)
string_loop-escape_bytes (suc f) [] out rest h =
    unfold escape_bytes in rw append-nil (loop_closed f out (b'"' ∷ rest) rest (closing_round rest))
string_loop-escape_bytes (suc f) (c ∷ s) out rest h =
    escape_bytes_cons f c s out (b'"' ∷ rest)
    ∙ string_loop-escape_bytes f s (out ++ (c ∷ [])) rest (omega arith)
    ∙ ap (λ t. ok t rest) (append_assoc out (c ∷ []) s)

escape_byte_long : (c : ℕ) → 1 ≤ length (escape_byte c)
unfolding escape_byte
escape_byte_long c = ground arith

length-escape_bytes : (s : Bytes) → length s ≤ length (escape_bytes s)
unfolding escape_bytes
length-escape_bytes [] = omega arith
length-escape_bytes (c ∷ s) = omega (
  arith,
  length-append (escape_byte c) (escape_bytes s),
  escape_byte_long c,
  length-escape_bytes s,
)

-- `string_` reads every byte string back from what `escape` wrote, whatever its bytes are, and stops at
-- the closing quote.
pub string_-escape : (s rest : Bytes) → string_ (escape s ++ rest) ≡ ok s rest
unfolding string_ escape
string_-escape s rest = rw append_assoc (
    string_loop-escape_bytes (suc (length (escape_bytes s ++ (b'"' ∷ rest)))) s [] rest
      (omega (arith, length-escape_bytes s, length-append (escape_bytes s) (b'"' ∷ rest))))
