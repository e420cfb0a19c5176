-- ===== src/Util/Text.antt =====
-- src/util.cpp: `trim`, `split`, `join`, `lower`, `clip`.
use haiku_mgmt_agent.Prelude.{
  ℕ, zero, suc, ◌+◌, ◌-◌, Bool, ◌&&◌, ◌||◌, Option, none, some, List, [], ◌∷◌, ◌++◌, leb, ◌==◌,
  if◌then◌else◌, length, take, drop, map,
}
use haiku_mgmt_agent.Prelude.Text.{Bytes, find_byte}
use mathlib.Core.Option

-- Membership in `" \t\r\n"`.
unfoldable pub is_blank : ℕ → Bool
is_blank c = c == b' ' || c == b'\t' || c == b'\r' || c == b'\n'

-- `s.find_first_not_of(" \t\r\n")`
unfoldable pub find_first_not_blank : Bytes → Option ℕ
find_first_not_blank [] = none
find_first_not_blank (c ∷ s) =
    let later = Option.map suc (find_first_not_blank s) in if is_blank c then later else some 0

-- `s.find_last_not_of(" \t\r\n")`
unfoldable pub find_last_not_blank : Bytes → Option ℕ
find_last_not_blank [] = none
find_last_not_blank (c ∷ s) = elim (find_last_not_blank s) [
  | some i ↦ some (suc i)
  | none ↦ if is_blank c then none else some 0
]

-- `s.substr(a, b - a + 1)` between the two positions.
unfoldable pub trim : Bytes → Bytes
unfolding find_first_not_blank find_last_not_blank is_blank
trim s = elim (find_first_not_blank s) [
  | none ↦ []
  | some a ↦ elim (find_last_not_blank s) [ none ↦ [] | some b ↦ take (b - a + 1) (drop a s) ]
]

-- The loop of `split` on what is left of the string.
unfoldable pub split_loop : ℕ → ℕ → Bytes → List Bytes
split_loop zero sep s = []
split_loop (suc fuel) sep s = elim (find_byte sep s) [
  | none ↦ s ∷ []
  | some p ↦ take p s ∷ split_loop fuel sep (drop (p + 1) s)
]

-- Each round takes a byte at least, so `length s + 1` rounds are enough.
unfoldable pub split : Bytes → ℕ → List Bytes
unfolding split_loop
split s sep = split_loop (length s + 1) sep s

-- The pieces behind the first, each behind the separator.
unfoldable pub join_more : Bytes → List Bytes → Bytes
join_more sep [] = []
join_more sep (p ∷ ps) = sep ++ (p ++ join_more sep ps)

unfoldable pub join : List Bytes → Bytes → Bytes
unfolding join_more
join [] sep = []
join (p ∷ ps) sep = p ++ join_more sep ps

unfoldable pub lower_byte : ℕ → ℕ
lower_byte c = if leb b'A' c && leb c b'Z' then c - b'A' + b'a' else c

unfoldable pub lower : Bytes → Bytes
unfolding lower_byte
lower s = map lower_byte s

unfoldable pub clip : Bytes → ℕ → Bytes → Bytes
clip s max suffix =
    if leb (length s) max
    then s
    else if leb max (length suffix)
    then take max s
    else take (max - length suffix) s ++ suffix
