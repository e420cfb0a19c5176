-- ===== src/Mgs/Uuid.antt =====
-- src/mgs.cpp: `uuid_to_wire` and `uuid_from_wire`.
use haiku_mgmt_agent.Prelude.{
  ℕ, zero, suc, ◌+◌, ◌-◌, ◌*◌, ◌/◌, ◌%◌, ◌≤◌, ◌<◌, ◌≡◌, refl, ap, ◌∙◌, true, false, ◌&&◌, ◌||◌,
  Option, none, some, [], ◌∷◌, ◌++◌, arith, leb, ◌==◌, if◌then◌else◌, length, get_or, take, drop,
  All, length-append, take-append-drop, take-append, drop-append, length-take, length-drop,
  All-append, All-take, All-drop,
}
use haiku_mgmt_agent.Prelude.Bits.{holds_below, agree_below}
use haiku_mgmt_agent.Prelude.Text.{Bytes, IsByte}
use haiku_mgmt_agent.Util.Codec.{hex_digits}
use mathlib.Core.Option

-- `none` is -1.
unfoldable pub hex_nibble : ℕ → Option ℕ
hex_nibble c =
    if leb b'0' c && leb c b'9'
    then some (c - b'0')
    else if leb b'a' c && leb c b'f'
    then some (c - b'a' + 10)
    else if leb b'A' c && leb c b'F'
    then some (c - b'A' + 10)
    else none

-- The loop over the text with `n` places of the sixteen left; `none` is `return false`.
unfoldable pub uuid_loop : ℕ → Bytes → Option Bytes
uuid_loop zero text = some []
uuid_loop (suc n) [] = some []
uuid_loop (suc n) (c ∷ []) = some []
uuid_loop (suc n) (c ∷ d ∷ text) = elim (c == b'-') [
  | true ↦ uuid_loop (suc n) (d ∷ text)
  | false ↦ elim (hex_nibble c) [
    | none ↦ none
    | some hi ↦ elim (hex_nibble d) [
      | none ↦ none
      | some lo ↦ Option.map (λ bs. (hi * 16 + lo) ∷ bs) (uuid_loop n text)
    ]
  ]
]

-- The least significant eight bytes first.
abbrev pub swap_halves : Bytes → Bytes
swap_halves bytes = drop 8 bytes ++ take 8 bytes

abbrev complete : Option Bytes → Option Bytes
complete none = none
complete (some bytes) = if length bytes == 16 then some (swap_halves bytes) else none

unfoldable pub uuid_to_wire : Bytes → Option Bytes
unfolding uuid_loop
uuid_to_wire text = complete (uuid_loop 16 text)

-- The loop of `uuid_from_wire` from place `i` on.
unfoldable pub uuid_digits : ℕ → Bytes → Bytes
uuid_digits i [] = []
uuid_digits i (b ∷ bs) =
    let digits =
      get_or hex_digits (b / 16) 0 ∷ get_or hex_digits (b % 16) 0 ∷ uuid_digits (i + 1) bs in
    if i == 4 || i == 6 || i == 8 || i == 10 then b'-' ∷ digits else digits

unfoldable pub uuid_from_wire : Bytes → Bytes
unfolding uuid_digits
uuid_from_wire wire = uuid_digits 0 (swap_halves wire)

-- The value and the test of a digit, in one number: 0 for a dash or no digit.
digit_code : ℕ → ℕ
digit_code c = if c == b'-' then 0 else elim (hex_nibble c) [ none ↦ 0 | some n ↦ suc n ]

digit_code_table : (n : ℕ) → n < 16 → digit_code (get_or hex_digits n 0) ≡ suc n
unfolding holds_below digit_code hex_nibble
digit_code_table = agree_below _ suc 16 refl

nibble_of_code : (c n : ℕ) → digit_code c ≡ suc n → ((c == b'-') ≡ false) × (hex_nibble c ≡ some n)
unfolding digit_code
nibble_of_code c n h = ground arith

pub hex_nibble-digit : (n : ℕ) → n < 16 → hex_nibble (get_or hex_digits n 0) ≡ some n
hex_nibble-digit n h = (nibble_of_code _ n (digit_code_table n h)).1

uuid_loop_pair :
    (n c d hi lo : ℕ) (text : Bytes)
    → (c == b'-') ≡ false
    → hex_nibble c ≡ some hi
    → hex_nibble d ≡ some lo
    → uuid_loop (suc n) (c ∷ d ∷ text) ≡ Option.map (λ bs. (hi * 16 + lo) ∷ bs) (uuid_loop n text)
uuid_loop_pair n c d hi lo text dash p q = unfold uuid_loop in rw (dash, p, q, uuid_loop)

uuid_loop_digits :
    (n b : ℕ) (text : Bytes)
    → b < 256
    → uuid_loop (suc n) (get_or hex_digits (b / 16) 0 ∷ get_or hex_digits (b % 16) 0 ∷ text)
      ≡ Option.map (λ bs. b ∷ bs) (uuid_loop n text)
uuid_loop_digits n b text h =
    let (d1, h1) = nibble_of_code _ _ (digit_code_table (b / 16) (omega arith)) in
    let (d2, h2) = nibble_of_code _ _ (digit_code_table (b % 16) (omega arith)) in
    let e : b / 16 * 16 + b % 16 ≡ b = omega arith in
    let pair = uuid_loop_pair n _ _ (b / 16) (b % 16) text d1 h1 h2 in rw e at pair

uuid_loop_dash :
    (n c : ℕ) (text : Bytes) → uuid_loop (suc n) (b'-' ∷ c ∷ text) ≡ uuid_loop (suc n) (c ∷ text)
unfolding uuid_loop
uuid_loop_dash n c text = refl

uuid_loop-uuid_digits :
    (n i : ℕ) (bs : Bytes)
    → length bs ≤ n
    → All IsByte bs
    → uuid_loop n (uuid_digits i bs) ≡ some bs
unfolding uuid_digits
uuid_loop-uuid_digits zero i [] h k = unfold uuid_loop in refl
uuid_loop-uuid_digits zero i (b ∷ bs) h k = absurd (omega arith)
uuid_loop-uuid_digits (suc n) i [] h k = unfold uuid_loop in refl
uuid_loop-uuid_digits (suc n) i (b ∷ bs) h k =
    let hi = get_or hex_digits (b / 16) 0 in
    let tail = get_or hex_digits (b % 16) 0 ∷ uuid_digits (i + 1) bs in
    ground (
      arith,
      uuid_loop_dash n hi tail,
      uuid_loop_digits n b (uuid_digits (i + 1) bs) k.0,
      uuid_loop-uuid_digits n (i + 1) bs,
    )

swap_halves_twice : (w : Bytes) → length w ≡ 16 → swap_halves (swap_halves w) ≡ w
swap_halves_twice w h =
    let d : length (drop 8 w) ≡ 8 = length-drop 8 w ∙ omega arith in
    rw (drop-append 8 (drop 8 w) (take 8 w) d, take-append 8 (drop 8 w) (take 8 w) d)
      (take-append-drop 8 w)

length-swap_halves : (w : Bytes) → length w ≡ 16 → length (swap_halves w) ≡ 16
length-swap_halves w h =
    omega (arith, length-append (drop 8 w) (take 8 w), length-drop 8 w, length-take 8 w)

-- Every sixteen bytes on the wire are read back from the text that `uuid_from_wire` prints for them,
-- with the halves in the same order.
pub uuid_to_wire-uuid_from_wire :
    (w : Bytes) → length w ≡ 16 → All IsByte w → uuid_to_wire (uuid_from_wire w) ≡ some w
unfolding uuid_to_wire uuid_from_wire
uuid_to_wire-uuid_from_wire w h k =
    rw
      (uuid_loop-uuid_digits 16 0 (swap_halves w) (omega (arith, length-swap_halves w h))
        (All-append IsByte (drop 8 w) (take 8 w) (All-drop IsByte 8 w k) (All-take IsByte 8 w k)))
      (rw (length-swap_halves w h) (ap some (swap_halves_twice w h)))
