-- ===== src/Util/Number.antt =====
-- The C library's `strtoul` and `atoi`, as the agent uses them on 64 bits.
use haiku_mgmt_agent.Prelude.{
  ℕ, ◌+◌, ◌-◌, ◌*◌, ◌%◌, ◌^◌, Bool, true, false, ◌&&◌, ◌||◌, Option, none, some, [], ◌∷◌, ltb, leb,
  ◌==◌, if◌then◌else◌,
}
use haiku_mgmt_agent.Prelude.Int.{ℤ, pos, sub_ℕ}
use haiku_mgmt_agent.Prelude.Text.{Bytes}

-- `isspace` in the C locale.
unfoldable pub is_space : ℕ → Bool
is_space c = c == 32 || (leb 9 c && leb c 13)

unfoldable pub skip_spaces : Bytes → Bytes
skip_spaces [] = []
skip_spaces (c ∷ s) = let rest = skip_spaces s in if is_space c then rest else c ∷ s

unfoldable pub digit_value : ℕ → Option ℕ
digit_value c =
    if leb b'0' c && leb c b'9'
    then some (c - b'0')
    else if leb b'a' c && leb c b'z'
    then some (c - b'a' + 10)
    else if leb b'A' c && leb c b'Z'
    then some (c - b'A' + 10)
    else none

-- The digits below `base` at the front of the text.
unfoldable pub digits_at : ℕ → ℕ → Bytes → ℕ
digits_at base n [] = n
digits_at base n (c ∷ s) = elim (digit_value c) [
  | none ↦ n
  | some d ↦ let more = digits_at base (n * base + d) s in if ltb d base then more else n
]

-- An optional sign: whether it is a minus, and what follows.
unfoldable pub take_sign : Bytes → Bool × Bytes
take_sign [] = (false, [])
take_sign (c ∷ s) =
    if c == b'-' then (true, s) else if c == b'+' then (false, s) else (false, c ∷ s)

unfoldable pub is_hex_digit : Bytes → Bool
is_hex_digit [] = false
is_hex_digit (c ∷ s) = elim (digit_value c) [ none ↦ false | some d ↦ ltb d 16 ]

-- `0x` before a hexadecimal digit.
unfoldable pub skip_prefix : ℕ → Bytes → Bytes
skip_prefix base (z ∷ x ∷ s) =
    if base == 16 && (z == b'0' && ((x == b'x' || x == b'X') && is_hex_digit s))
    then s
    else z ∷ x ∷ s
skip_prefix base s = s

-- `std::strtoul(s, nullptr, base)`: a value that does not fit becomes `ULONG_MAX`.
unfoldable pub strtoul : Bytes → ℕ → ℕ
strtoul s base =
    let (minus, text) = take_sign (skip_spaces s) in
    let value = digits_at base 0 (skip_prefix base text) in
    if ltb (2 ^ 64 - 1) value
    then 2 ^ 64 - 1
    else if minus
    then (2 ^ 64 - value) % 2 ^ 64
    else value

-- `std::atoi(s)` for a value that fits an `int`.
unfoldable pub atoi : Bytes → ℤ
atoi s =
    let (minus, text) = take_sign (skip_spaces s) in
    let value = digits_at 10 0 text in if minus then sub_ℕ 0 value else pos value
