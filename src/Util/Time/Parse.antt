-- ===== src/Util/Time/Parse.antt =====
-- src/util.cpp: `parse_iso8601` and `parse_http_date`, with the conversions of `std::sscanf` they use.
pub mod RoundTrip
use haiku_mgmt_agent.Prelude.{
  ℕ, zero, suc, ◌+◌, ◌-◌, ◌*◌, ◌%◌, ◌^◌, min, Bool, true, false, not, ◌&&◌, Option, none, some,
  List, [], ◌∷◌, ◌++◌, if◌then◌else◌, leb, ◌==◌, take, drop,
}
use haiku_mgmt_agent.Prelude.Int.{ℤ, pos, pos_part, neg_part, sub_ℕ, add_ℤ, scale_ℤ}
use haiku_mgmt_agent.Prelude.Text.{Bytes, is_empty, bytes_eq, codes, find_byte}
use haiku_mgmt_agent.Util.Number.{is_space, skip_spaces, take_sign}
use haiku_mgmt_agent.Util.Time.{days_from_civil}

unfoldable pub is_digit : ℕ → Bool
is_digit c = leb b'0' c && leb c b'9'

-- At most `width` digits behind the value so far: the value and what follows.
unfoldable pub scan_digits : ℕ → ℕ → Bytes → ℕ × Bytes
unfolding is_digit
scan_digits zero n s = (n, s)
scan_digits (suc width) n [] = (n, [])
scan_digits (suc width) n (c ∷ s) =
    let more = scan_digits width (n * 10 + (c - 48)) s in if is_digit c then more else (n, c ∷ s)

unfoldable pub starts_digit : Bytes → Bool
unfolding is_digit
starts_digit [] = false
starts_digit (c ∷ s) = is_digit c

-- The digits of a conversion, for which there must be one at least.
unfoldable pub scan_value : ℕ → Bool → Bytes → Option (ℤ × Bytes)
unfolding scan_digits starts_digit
scan_value width minus s =
    let (n, rest) = scan_digits width 0 s in
    if starts_digit s && not (width == 0)
    then some (if minus then sub_ℕ 0 n else pos n, rest)
    else none

unfoldable pub has_sign : Bytes → Bool
has_sign [] = false
has_sign (c ∷ s) = if c == b'-' then true else c == b'+'

-- `%<width>d`: spaces, a sign that counts for the width, digits.
unfoldable pub scan_int : ℕ → Bytes → Option (ℤ × Bytes)
unfolding skip_spaces take_sign has_sign scan_value
scan_int width s =
    let text = skip_spaces s in
    let (minus, rest) = take_sign text in
    if has_sign text then scan_value (width - 1) minus rest else scan_value width false text

unfoldable pub skip_byte : ℕ → Bytes → Option Bytes
skip_byte b [] = none
skip_byte b (c ∷ s) = if c == b then some s else none

-- What stands in a format: a conversion of a number, or a byte to match.
pub data Directive : Type 0 where
  int_of : ℕ → Directive
  byte : ℕ → Directive

-- The converted numbers, or `none` when a directive does not match.
unfoldable pub scan : List Directive → Bytes → Option (List ℤ)
unfolding scan_int skip_byte
scan [] s = some []
scan (int_of width ∷ format) s = elim (scan_int width s) [
  | none ↦ none
  | some (n, rest) ↦ elim (scan format rest) [ none ↦ none | some ns ↦ some (n ∷ ns) ]
]
scan (byte b ∷ format) s = elim (skip_byte b s) [ none ↦ none | some rest ↦ scan format rest ]

-- `static_cast<unsigned>(n)`
unfoldable pub to_unsigned : ℤ → ℕ
to_unsigned n = (pos_part n + (2 ^ 32 - neg_part n % 2 ^ 32)) % 2 ^ 32

-- `days * 86400 + hour * 3600 + min * 60 + sec`
unfoldable pub epoch_of : ℤ → ℤ → ℤ → ℤ → ℤ → ℤ → ℤ
unfolding days_from_civil to_unsigned
epoch_of year mon day hour min' sec =
    add_ℤ
      (add_ℤ
        (add_ℤ (scale_ℤ (days_from_civil year (to_unsigned mon) (to_unsigned day)) 86400)
          (scale_ℤ hour 3600))
        (scale_ℤ min' 60))
      sec

unfoldable pub epoch_of_fields : List ℤ → ℤ
unfolding epoch_of
epoch_of_fields (year ∷ mon ∷ day ∷ hour ∷ min' ∷ sec ∷ []) = epoch_of year mon day hour min' sec
epoch_of_fields _ = pos 0

-- `"%4d-%2d-%2dT%2d:%2d:%2d"`
abbrev pub iso_format : List Directive
iso_format =
    int_of 4
    ∷ byte b'-'
    ∷ int_of 2
    ∷ byte b'-'
    ∷ int_of 2
    ∷ byte b'T'
    ∷ int_of 2
    ∷ byte b':'
    ∷ int_of 2
    ∷ byte b':'
    ∷ int_of 2
    ∷ []

unfoldable pub parse_iso8601 : Bytes → ℤ
unfolding scan epoch_of_fields
parse_iso8601 s = elim (scan iso_format s) [ none ↦ pos 0 | some fields ↦ epoch_of_fields fields ]

-- `%3s`: spaces, then up to three other bytes.
unfoldable pub take_word : ℕ → Bytes → Bytes × Bytes
unfolding is_space
take_word zero s = ([], s)
take_word (suc n) [] = ([], [])
take_word (suc n) (c ∷ s) =
    let (word, rest) = take_word n s in if is_space c then ([], c ∷ s) else (c ∷ word, rest)

abbrev pub months : List Bytes
months =
    codes "Jan"
    ∷ codes "Feb"
    ∷ codes "Mar"
    ∷ codes "Apr"
    ∷ codes "May"
    ∷ codes "Jun"
    ∷ codes "Jul"
    ∷ codes "Aug"
    ∷ codes "Sep"
    ∷ codes "Oct"
    ∷ codes "Nov"
    ∷ codes "Dec"
    ∷ []

-- The number of the first month with this name, from `i` on; 0 without one.
unfoldable pub month_from : ℕ → List Bytes → Bytes → ℕ
month_from i [] name = 0
month_from i (m ∷ ms) name =
    let later = month_from (i + 1) ms name in if bytes_eq m name then i + 1 else later

abbrev pub wide : ℕ
wide = 2 ^ 31

-- `" %d %3s %d %d:%d:%d"` behind the comma; a `%d` takes all the digits there are.
unfoldable pub http_fields : Bytes → Option (Bytes × List ℤ)
unfolding scan_int skip_spaces take_word scan
http_fields s = elim (scan_int wide s) [
  | none ↦ none
  | some (day, rest) ↦
      let (name, more) = take_word 3 (skip_spaces rest) in
      let others =
        scan (int_of wide ∷ int_of wide ∷ byte b':' ∷ int_of wide ∷ byte b':' ∷ int_of wide ∷ [])
          more in
      if is_empty name then none else elim others [ none ↦ none | some ns ↦ some (name, day ∷ ns) ]
]

unfoldable pub http_epoch : Bytes → List ℤ → ℤ
unfolding epoch_of month_from
http_epoch name (day ∷ year ∷ hour ∷ min' ∷ sec ∷ []) =
    let mon = month_from 0 months name in
    if mon == 0 then pos 0 else epoch_of year (pos mon) day hour min' sec
http_epoch name _ = pos 0

unfoldable pub after_comma : Bytes → Bytes
unfolding find_byte
after_comma s = elim (find_byte b',' s) [ none ↦ s | some i ↦ drop (i + 1) s ]

unfoldable pub parse_http_date : Bytes → ℤ
unfolding http_fields http_epoch after_comma
parse_http_date s = elim (http_fields (after_comma s)) [
  | none ↦ pos 0
  | some (name, ns) ↦ http_epoch name ns
]
