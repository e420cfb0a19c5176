-- ===== src/Util/Codec/Uri.antt =====
-- A decoder for `uri_encode` of src/util.cpp, which the program does not have, and the proof that the
-- encoding can be read back and holds what a URI may hold.
use haiku_mgmt_agent.Prelude.{
  ℕ, zero, suc, ◌+◌, ◌*◌, ◌/◌, ◌%◌, ◌<◌, ◌≡◌, refl, ap, ◌∙◌, Bool, true, false, [], ◌∷◌, ◌++◌,
  arith, ◌==◌, if◌then◌else◌, length, get_or, All, All-append, length-append, ◌⊎◌, inl, inr, not,
  ◌&&◌, ◌||◌, Bool-cases,
}
use haiku_mgmt_agent.Prelude.Bits.{holds_below, agree_below}
use haiku_mgmt_agent.Prelude.Text.{Bytes, IsByte, codes}
use haiku_mgmt_agent.Util.Codec.{upper_digits, is_unreserved, uri_byte, uri_encode}
use haiku_mgmt_agent.Util.Codec.Decode.{position}

unfoldable pub upper_value : ℕ → ℕ
upper_value c = position upper_digits c

upper_position : (n : ℕ) → n < 16 → upper_value (get_or upper_digits n 0) ≡ n
unfolding holds_below upper_value
upper_position = agree_below _ _ 16 refl

-- Percent-decoding on fuel: a `%` stands for the byte of the two digits behind it.
unfoldable pub uri_decode : ℕ → Bytes → Bytes
uri_decode zero s = []
uri_decode (suc fuel) [] = []
uri_decode (suc fuel) (c ∷ []) = c ∷ uri_decode fuel []
uri_decode (suc fuel) (c ∷ h ∷ []) = c ∷ uri_decode fuel (h ∷ [])
uri_decode (suc fuel) (c ∷ h ∷ l ∷ s) = elim (c == b'%') [
  | true ↦ (upper_value h * 16 + upper_value l) ∷ uri_decode fuel s
  | false ↦ c ∷ uri_decode fuel (h ∷ l ∷ s)
]

-- The bytes that a URI may hold as they are.
abbrev pub unreserved : Bytes
unreserved = codes "ABCDEFGHIJKLMNOPQRSTUVWXYZabcdefghijklmnopqrstuvwxyz0123456789-_.~"

abbrev pub stands_in : Bytes → ℕ → Bool
stands_in [] c = false
stands_in (d ∷ ds) c = if d == c then true else stands_in ds c

-- Kept shut: it is used through its tables.
unfoldable pub is_kept : ℕ → Bool
is_kept c = stands_in unreserved c

-- A byte that stays as it is: an unreserved one, or a slash where slashes are kept.
abbrev pub stays : Bool → ℕ → Bool
stays encode_slash c = if is_kept c then true else c == b'/' && not encode_slash

-- What may stand in an encoded URI.
abbrev pub IsUriByte : Bool → ℕ → Type 0
IsUriByte encode_slash c = (stays encode_slash c ≡ true) ⊎ (c ≡ b'%')

-- One byte for each that stays, three for each other.
abbrev pub uri_length : Bool → Bytes → ℕ
uri_length encode_slash [] = 0
uri_length encode_slash (c ∷ s) =
    (if stays encode_slash c then 1 else 3) + uri_length encode_slash s

abbrev as_number : Bool → ℕ
as_number b = if b then 1 else 0

as_number_injective : (b c : Bool) → as_number b ≡ as_number c → b ≡ c
as_number_injective b c h = ground (arith, h)

is_unreserved-is_kept : (c : ℕ) → c < 256 → is_unreserved c ≡ is_kept c
is_unreserved-is_kept c h = as_number_injective _ _ (tabled c h)
  where
    tabled : (n : ℕ) → n < 256 → as_number (is_unreserved n) ≡ as_number (is_kept n)
    tabled = unfold holds_below is_kept is_unreserved in agree_below _ _ 256 refl

upper_digit-is_kept : (n : ℕ) → n < 16 → is_kept (get_or upper_digits n 0) ≡ true
upper_digit-is_kept n h = as_number_injective _ _ (tabled n h)
  where
    tabled : (n : ℕ) → n < 16 → as_number (is_kept (get_or upper_digits n 0)) ≡ 1
    tabled = unfold holds_below is_kept in agree_below _ _ 16 refl

uri_decode_plain :
    (fuel c : ℕ) (s : Bytes)
    → (c == b'%') ≡ false
    → uri_decode (suc fuel) (c ∷ s) ≡ c ∷ uri_decode fuel s
unfolding uri_decode
uri_decode_plain fuel c [] h = refl
uri_decode_plain fuel c (x ∷ []) h = refl
uri_decode_plain fuel c (x ∷ y ∷ s) h = ground arith

uri_decode_percent :
    (fuel h l : ℕ) (s : Bytes)
    → uri_decode (suc fuel) (b'%' ∷ h ∷ l ∷ s)
      ≡ (upper_value h * 16 + upper_value l) ∷ uri_decode fuel s
unfolding uri_decode
uri_decode_percent fuel h l s = refl

percent_reserved : (c : ℕ) → is_unreserved c ≡ true → (c == b'%') ≡ false
unfolding is_unreserved
percent_reserved c h = ground arith

uri_decode-uri_byte :
    (fuel c : ℕ) (encode_slash : Bool) (s : Bytes)
    → c < 256
    → uri_decode (suc fuel) (uri_byte encode_slash c ++ s) ≡ c ∷ uri_decode fuel s
unfolding uri_byte
uri_decode-uri_byte fuel c encode_slash s h = ground (
  arith,
  uri_decode_plain fuel c s,
  uri_decode_percent fuel (get_or upper_digits (c / 16) 0) (get_or upper_digits (c % 16) 0) s,
  upper_position (c / 16) (omega arith),
  upper_position (c % 16) (omega arith),
  percent_reserved c,
)

uri_byte-IsUriByte :
    (c : ℕ) (encode_slash : Bool)
    → c < 256
    → All (IsUriByte encode_slash) (uri_byte encode_slash c)
      × (length (uri_byte encode_slash c) ≡ (if stays encode_slash c then 1 else 3))
unfolding uri_byte
uri_byte-IsUriByte c e h = elim (Bool-cases (stays e c)) [
  | inl k ↦
      let t : (is_unreserved c || (c == b'/' && not e)) ≡ true =
        ground (arith, k, is_unreserved-is_kept c h) in
      rw (t, k) ((inl refl, tt), refl)
  | inr k ↦
      let t : (is_unreserved c || (c == b'/' && not e)) ≡ false =
        ground (arith, k, is_unreserved-is_kept c h) in
      rw (t, k)
        (
          (
            inr refl,
            (
              inl (rw (upper_digit-is_kept (c / 16) (omega (arith, h))) refl),
              (inl (rw (upper_digit-is_kept (c % 16) (omega arith)) refl), tt),
            ),
          ),
          refl,
        )
]

-- Every byte string is read back from its percent-encoded form. The form holds only unreserved bytes
-- (letters, digits and `-_.~`), `%`, and slashes where these are not encoded; and it is as short as that
-- allows, with one byte for each that may stand as it is and three for each other.
pub uri_decode-uri_encode :
    (s : Bytes) (encode_slash : Bool)
    → All IsByte s
    → (uri_decode (suc (length s)) (uri_encode s encode_slash) ≡ s)
      × (All (IsUriByte encode_slash) (uri_encode s encode_slash)
          × (length (uri_encode s encode_slash) ≡ uri_length encode_slash s))
unfolding uri_encode
uri_decode-uri_encode [] e h = (unfold uri_decode in refl, (tt, refl))
uri_decode-uri_encode (c ∷ s) e h =
    let (back, (bytes, short)) = uri_decode-uri_encode s e h.1 in
    let (first, one) = uri_byte-IsUriByte c e h.0 in
    (
      uri_decode-uri_byte (suc (length s)) c e (uri_encode s e) h.0 ∙ ap (◌∷◌ c) back,
      (
        All-append (IsUriByte e) (uri_byte e c) (uri_encode s e) first bytes,
        omega (arith, length-append (uri_byte e c) (uri_encode s e), one, short),
      ),
    )
