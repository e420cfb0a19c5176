-- ===== src/Prelude/Text.antt =====
-- Byte strings: literals, comparison and search, as `std::string` has them.
use Prim.Native.Char.{code}
use Prim.Native.String.{String}
use Prim.Native.Nat.{ℕ, zero, suc, ◌+◌, ◌/◌, ◌%◌, ◌≤◌, ◌<◌}
use mathlib.Core.Path.{◌≡◌, refl}
use mathlib.Core.Logic.{◌↔◌}
use mathlib.Core.Bool.{Bool, true, false, ◌&&◌, ◌||◌}
use mathlib.Core.List.{List, [], ◌∷◌, ◌++◌}
use mathlib.Core.Option
use mathlib.Core.Option.{Option, none, some}
use native.Mathlib.Omega.{arith}
use haiku_mgmt_agent.Prelude.Tests.{◌==◌, if◌then◌else◌}
use haiku_mgmt_agent.Prelude.Lists.{length}

-- `std::string`: bytes below 256, which `IsByte` states where a theorem needs it.
abbrev pub Bytes : Type 0
Bytes = List ℕ

abbrev pub IsByte : ℕ → Type 0
IsByte b = b < 256

abbrev pub is_empty : Bytes → Bool
is_empty [] = true
is_empty (c ∷ s) = false

-- The bytes of an ASCII literal.
abbrev pub codes : String → Bytes
codes String.[] = []
codes (String.◌∷◌ c s) = code c ∷ codes s

-- `s.compare(0, p.size(), p) == 0` with `s.size() >= p.size()`
unfoldable pub starts_with : Bytes → Bytes → Bool
starts_with s [] = true
starts_with [] (p ∷ ps) = false
starts_with (c ∷ s) (p ∷ ps) = c == p && starts_with s ps

unfoldable pub bytes_eq : Bytes → Bytes → Bool
bytes_eq [] [] = true
bytes_eq (a ∷ s) (b ∷ t) = a == b && bytes_eq s t
bytes_eq _ _ = false

pub bytes_eq_iff : (s t : Bytes) → (bytes_eq s t ≡ true) ↔ (s ≡ t)
unfolding bytes_eq
bytes_eq_iff (x ∷ a) (y ∷ b) = ground (arith, bytes_eq_iff a b)
bytes_eq_iff _ _ = ground arith

pub bytes_eq_refl : (s : Bytes) → bytes_eq s s ≡ true
bytes_eq_refl s = (bytes_eq_iff s s).1 refl

-- `set.count(id) > 0`, the set as the list of its elements.
unfoldable pub contains : List Bytes → Bytes → Bool
contains [] id = false
contains (x ∷ xs) id = bytes_eq x id || contains xs id

-- The decimal digits of a number: `std::to_string` and `%zu`.
unfoldable pub decimal_loop : ℕ → ℕ → Bytes → Bytes
decimal_loop zero n done = done
decimal_loop (suc fuel) n done =
    let digit = 48 + n % 10 in
    let more = decimal_loop fuel (n / 10) (digit ∷ done) in
    if n / 10 == 0 then digit ∷ done else more

unfoldable pub decimal : ℕ → Bytes
unfolding decimal_loop
decimal n = decimal_loop (suc n) n []

-- `s.find(sub)`: the first position where `sub` stands; `none` is `npos`.
unfoldable pub find : Bytes → Bytes → Option ℕ
unfolding starts_with
find sub [] = if starts_with [] sub then some 0 else none
find sub (c ∷ s) =
    let later = Option.map suc (find sub s) in if starts_with (c ∷ s) sub then some 0 else later

-- `s.find(sub) != npos`
unfoldable pub contains_text : Bytes → Bytes → Bool
unfolding find
contains_text s sub = elim (find sub s) [ none ↦ false | some i ↦ true ]

-- `s.find(c)` for one byte.
unfoldable pub find_byte : ℕ → Bytes → Option ℕ
find_byte b [] = none
find_byte b (c ∷ s) = let later = Option.map suc (find_byte b s) in if c == b then some 0 else later

pub find_byte-lt : (b : ℕ) (s : Bytes) (i : ℕ) → find_byte b s ≡ some i → i < length s
unfolding find_byte
find_byte-lt b [] i h = cc
find_byte-lt b (c ∷ s) zero h = omega arith
find_byte-lt b (c ∷ s) (suc i) h = ground (arith, find_byte-lt b s i)

starts_with-append :
    (s t p : Bytes) → length p ≤ length s → starts_with (s ++ t) p ≡ starts_with s p
unfolding starts_with
starts_with-append s t [] h = refl
starts_with-append [] t (p ∷ ps) h = absurd (omega arith)
starts_with-append (c ∷ s) t (p ∷ ps) h = ground (arith, starts_with-append s t ps)

starts_with-le : (s p : Bytes) → starts_with s p ≡ true → length p ≤ length s
unfolding starts_with
starts_with-le s [] h = omega arith
starts_with-le [] (p ∷ ps) h = cc
starts_with-le (c ∷ s) (p ∷ ps) h = ground (arith, starts_with-le s ps)

-- A match ends inside the text, and more text behind it does not move it.
pub find-le : (p s : Bytes) (i : ℕ) → find p s ≡ some i → i + length p ≤ length s
unfolding find
find-le p [] i h = ground (arith, starts_with-le [] p)
find-le p (c ∷ s) zero h = ground (arith, starts_with-le (c ∷ s) p)
find-le p (c ∷ s) (suc i) h = ground (arith, find-le p s i)

find-nil : (t : Bytes) → find [] t ≡ some 0
unfolding find starts_with
find-nil [] = refl
find-nil (c ∷ t) = refl

pub find-append : (p s t : Bytes) (i : ℕ) → find p s ≡ some i → find p (s ++ t) ≡ some i
unfolding find
find-append [] [] t i h = ground (arith, find-nil t, find-nil [])
find-append (q ∷ p) [] t i h = absurd (ground (arith, find-le (q ∷ p) [] i))
find-append p (c ∷ s) t zero h =
    ground (arith, starts_with-append (c ∷ s) t p, starts_with-le (c ∷ s) p)
find-append p (c ∷ s) t (suc i) h =
    ground (arith, find-append p s t i, find-le p s i, starts_with-append (c ∷ s) t p)
