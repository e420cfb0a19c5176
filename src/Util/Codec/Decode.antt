-- ===== src/Util/Codec/Decode.antt =====
-- Decoders for `to_hex` and `base64_encode` of src/util.cpp, which the program does not have, and the
-- proof that each encoding can be read back.
use haiku_mgmt_agent.Prelude.{
  ℕ, suc, ◌+◌, ◌*◌, ◌/◌, ◌%◌, ◌^◌, ◌<◌, ◌≡◌, refl, false, [], ◌∷◌, arith, ◌==◌, if◌then◌else◌,
  length, get_or, All,
}
use haiku_mgmt_agent.Prelude.Bits.{holds_below, agree_below}
use haiku_mgmt_agent.Prelude.Text.{Bytes, IsByte}
use haiku_mgmt_agent.Util.Codec.{hex_digits, alphabet, to_hex, sextet, base64_encode}

-- The position of a digit, as far as the digits go.
abbrev pub position : Bytes → ℕ → ℕ
position [] c = 0
position (d ∷ ds) c = if d == c then 0 else suc (position ds c)

-- The values of digits, kept shut: they are used through the tables below.
unfoldable pub hex_value : ℕ → ℕ
hex_value c = position hex_digits c

unfoldable pub alphabet_value : ℕ → ℕ
alphabet_value c = position alphabet c

hex_position : (n : ℕ) → n < 16 → hex_value (get_or hex_digits n 0) ≡ n
unfolding holds_below hex_value
hex_position = agree_below _ _ 16 refl

alphabet_position : (n : ℕ) → n < 64 → alphabet_value (get_or alphabet n 0) ≡ n
unfolding holds_below alphabet_value
alphabet_position = agree_below _ _ 64 refl

-- No digit of the alphabet is the padding `=`.
alphabet_pad : ℕ → ℕ
alphabet_pad n = if get_or alphabet n 0 == b'=' then 1 else 0

alphabet_ne_pad : (n : ℕ) → n < 64 → (get_or alphabet n 0 == b'=') ≡ false
unfolding holds_below alphabet_pad
alphabet_ne_pad n h =
    let e : alphabet_pad n ≡ 0 = agree_below alphabet_pad (λ n. 0) 64 refl n h in ground arith

unfoldable pub of_hex : Bytes → Bytes
of_hex (h ∷ l ∷ s) = (hex_value h * 16 + hex_value l) ∷ of_hex s
of_hex _ = []

-- Every byte string is read back from its hexadecimal form, two digits to a byte.
pub of_hex-to_hex :
    (raw : Bytes)
    → All IsByte raw
    → (of_hex (to_hex raw) ≡ raw) × (length (to_hex raw) ≡ 2 * length raw)
unfolding of_hex to_hex
of_hex-to_hex [] h = (refl, omega arith)
of_hex-to_hex (c ∷ raw) h = ground (
  arith,
  hex_position (c / 16) (omega arith),
  hex_position (c % 16) (omega arith),
  of_hex-to_hex raw h.1,
)

alphabet_value_A : alphabet_value b'A' ≡ 0
unfolding alphabet_value
alphabet_value_A = refl

-- The value of four digits.
abbrev quad : ℕ → ℕ → ℕ → ℕ → ℕ
quad a b c d =
    alphabet_value a * 2 ^ 18
    + alphabet_value b * 2 ^ 12
    + alphabet_value c * 2 ^ 6
    + alphabet_value d

unfoldable pub base64_decode : Bytes → Bytes
base64_decode (a ∷ b ∷ c ∷ d ∷ s) =
    let v = quad a b c d in
    let one : Bytes = (v / 2 ^ 16) ∷ [] in
    let two : Bytes = (v / 2 ^ 16) ∷ (v / 2 ^ 8 % 256) ∷ [] in
    let three : Bytes = (v / 2 ^ 16) ∷ (v / 2 ^ 8 % 256) ∷ (v % 256) ∷ base64_decode s in
    if c == b'='
    then (quad a b b'A' b'A' / 2 ^ 16) ∷ []
    else if d == b'='
    then (quad a b c b'A' / 2 ^ 16) ∷ (quad a b c b'A' / 2 ^ 8 % 256) ∷ []
    else three
base64_decode _ = []

digit_value :
    (v shift : ℕ)
    → (alphabet_value (sextet v shift) ≡ v / 2 ^ shift % 64) × ((sextet v shift == b'=') ≡ false)
unfolding sextet
digit_value v shift = (
  alphabet_position (v / 2 ^ shift % 64) (omega arith),
  alphabet_ne_pad (v / 2 ^ shift % 64) (omega arith),
)

-- Every byte string is read back from its base64 form, padding included, and the form takes four
-- digits for every three bytes or part of three.
pub base64_decode-base64_encode :
    (raw : Bytes)
    → All IsByte raw
    → (base64_decode (base64_encode raw) ≡ raw)
      × (length (base64_encode raw) ≡ (length raw + 2) / 3 * 4)
unfolding base64_decode base64_encode
base64_decode-base64_encode [] h = (refl, omega arith)
base64_decode-base64_encode (a ∷ []) h =
    let v = a * 2 ^ 16 in ground (arith, digit_value v 18, digit_value v 12, alphabet_value_A)
base64_decode-base64_encode (a ∷ b ∷ []) h =
    let v = a * 2 ^ 16 + b * 2 ^ 8 in
    ground (arith, digit_value v 18, digit_value v 12, digit_value v 6, alphabet_value_A)
base64_decode-base64_encode (a ∷ b ∷ c ∷ raw) h =
    let v = a * 2 ^ 16 + b * 2 ^ 8 + c in
    ground (
      arith,
      digit_value v 18,
      digit_value v 12,
      digit_value v 6,
      digit_value v 0,
      base64_decode-base64_encode raw h.1.1.1,
    )
