-- ===== src/Json/Value.antt =====
-- src/json.h, src/json.cpp: values and the accessors that never throw.
use haiku_mgmt_agent.Prelude.{
  ℕ, Bool, true, false, Option, none, some, [], ◌∷◌, ◌==◌, ltb, if◌then◌else◌,
}
use haiku_mgmt_agent.Prelude.Int.{ℤ}
use haiku_mgmt_agent.Prelude.Text.{Bytes, bytes_eq, codes}

-- `num` holds the bit pattern of the double and the flag `integral`. `Fields` is the `std::map`, in the
-- order of its keys.
mutual
  pub data Value : Type 0 where
    null : Value
    boolean : Bool → Value
    num : ℕ → Bool → Value
    str : Bytes → Value
    arr : Items → Value
    obj : Fields → Value

  pub data Items : Type 0 where
    nil : Items
    cons : Value → Items → Items

  pub data Fields : Type 0 where
    end : Fields
    field : Bytes → Value → Fields → Fields

-- The C library on doubles, which are bit patterns here: `strtod`, the two `snprintf` formats of
-- `dump_to`, and the conversions that the callers make.
pub record Doubles : Type 0 where
  pub strtod : Bytes → ℕ
  -- `end && *end == '\0'` after `strtod`
  pub strtod_whole : Bytes → Bool
  pub print : ℕ → Bool → Bytes
  pub of_int : ℤ → ℕ
  pub to_int : ℕ → ℤ

-- `std::map::find`
unfoldable pub lookup : Bytes → Fields → Option Value
lookup key end = none
lookup key (field k v fs) = if bytes_eq k key then some v else lookup key fs

-- The order of the map: `std::string` compares unsigned bytes.
unfoldable pub bytes_lt : Bytes → Bytes → Bool
bytes_lt [] [] = false
bytes_lt [] (b ∷ t) = true
bytes_lt (a ∷ s) [] = false
bytes_lt (a ∷ s) (b ∷ t) =
    let later = bytes_lt s t in if ltb a b then true else if a == b then later else false

-- `object[key] = v`
unfoldable pub insert : Bytes → Value → Fields → Fields
unfolding bytes_lt
insert key v end = field key v end
insert key v (field k w fs) =
    if bytes_eq k key
    then field key v fs
    else if bytes_lt key k
    then field key v (field k w fs)
    else field k w (insert key v fs)

unfoldable pub is_obj : Value → Bool
is_obj (obj fs) = true
is_obj _ = false

unfoldable pub is_arr : Value → Bool
is_arr (arr xs) = true
is_arr _ = false

unfoldable pub is_str : Value → Bool
is_str (str s) = true
is_str _ = false

-- `Value::find`; `none` is the null pointer.
unfoldable pub find : Value → Bytes → Option Value
unfolding lookup
find (obj fs) key = lookup key fs
find _ key = none

unfoldable pub str_or : Value → Bytes → Bytes
str_or (str s) fallback = s
str_or _ fallback = fallback

unfoldable pub bl : Value → Bool → Bool
bl (boolean b) fallback = b
bl (str s) fallback =
    if bytes_eq s (codes "true")
    then true
    else if bytes_eq s (codes "false")
    then false
    else fallback
bl _ fallback = fallback

unfoldable pub str_at_or : Value → Bytes → Bytes → Bytes
unfolding find str_or
str_at_or v key fallback = elim (find v key) [ none ↦ fallback | some w ↦ str_or w fallback ]

unfoldable pub str_at : Value → Bytes → Bytes
unfolding str_at_or
str_at v key = str_at_or v key []

unfoldable pub items : Value → Items
items (arr xs) = xs
items _ = nil

module _ (fp : Doubles) where
  unfoldable pub num_or : Value → ℕ → ℕ
  num_or (num d integral) fallback = d
  num_or (str []) fallback = fallback
  num_or (str (c ∷ s)) fallback = if fp.strtod_whole (c ∷ s) then fp.strtod (c ∷ s) else fallback
  num_or _ fallback = fallback

  unfoldable pub num_at : Value → Bytes → ℕ → ℕ
  unfolding find num_or
  num_at v key fallback = elim (find v key) [ none ↦ fallback | some w ↦ num_or w fallback ]
