-- ===== src/Json/Parser.antt =====
-- src/json.cpp: `Parser::value` and `parse`. The loops run on fuel; `parse` gives enough of it.
use haiku_mgmt_agent.Prelude.{
  ℕ, zero, suc, ◌-◌, Bool, true, false, not, ◌&&◌, ◌||◌, [], ◌∷◌, leb, ◌==◌, if◌then◌else◌, length,
  take, drop,
}
use haiku_mgmt_agent.Prelude.Text.{Bytes, codes, starts_with}
use haiku_mgmt_agent.Json.Value.{
  Doubles, Value, Items, Fields, null, boolean, num, str, arr, obj, nil, cons, end, insert,
}
use haiku_mgmt_agent.Json.Strings.{
  Problem, unexpected_end, expected_colon, expected_comma_or_brace, expected_comma_or_bracket,
  invalid_value, stuck, Parsed, ok, fail, string_,
}

-- `ws`
unfoldable pub skip_ws : Bytes → Bytes
skip_ws [] = []
skip_ws (c ∷ s) =
    let rest = skip_ws s in
    if c == b' ' || c == b'\t' || c == b'\n' || c == b'\r' then rest else c ∷ s

-- `i < in.size() && in[i] == c`
unfoldable pub at_byte : ℕ → Bytes → Bool
at_byte c [] = false
at_byte c (d ∷ s) = d == c

unfoldable pub skip_digits : Bytes → Bytes
skip_digits [] = []
skip_digits (c ∷ s) = let rest = skip_digits s in if leb b'0' c && leb c b'9' then rest else c ∷ s

unfoldable pub skip_sign : Bytes → Bytes
unfolding at_byte
skip_sign s = if at_byte b'-' s || at_byte b'+' s then drop 1 s else s

unfoldable pub skip_fraction : Bytes → Bytes
unfolding at_byte skip_digits
skip_fraction s = if at_byte b'.' s then skip_digits (drop 1 s) else s

unfoldable pub skip_exponent : Bytes → Bytes
unfolding at_byte skip_digits skip_sign
skip_exponent s = if at_byte b'e' s || at_byte b'E' s then skip_digits (skip_sign (drop 1 s)) else s

abbrev pub snoc : Items → Value → Items
snoc nil v = cons v nil
snoc (cons x xs) v = cons x (snoc xs v)

-- How a value starts: `{` and `[` with what follows the white space behind them, or anything else.
pub data Start : Type 0 where
  nothing : Start
  empty_object : Bytes → Start
  object : Bytes → Start
  empty_array : Bytes → Start
  array : Bytes → Start
  other : Bytes → Start

unfoldable pub start : Bytes → Start
unfolding at_byte
start [] = nothing
start (c ∷ s) =
    let inner = skip_ws s in
    if c == b'{'
    then (if at_byte b'}' inner then empty_object (drop 1 inner) else object inner)
    else if c == b'['
    then (if at_byte b']' inner then empty_array (drop 1 inner) else array inner)
    else other (c ∷ s)

-- A key and its colon.
unfoldable pub member_key : Bytes → Parsed Bytes
unfolding at_byte
member_key s = elim (string_ (skip_ws s)) [
  | fail p at ↦ fail p at
  | ok key rest ↦
      if at_byte b':' (skip_ws rest)
      then ok key (drop 1 (skip_ws rest))
      else fail expected_colon (skip_ws rest)
]

-- What stands behind an element: a comma, the closing byte, or neither.
pub data Separator : Type 0 where
  more : Bytes → Separator
  last : Bytes → Separator
  neither : Bytes → Separator

unfoldable pub separator : ℕ → Bytes → Separator
unfolding at_byte
separator close s =
    if at_byte b',' s
    then more (drop 1 s)
    else if at_byte close s
    then last (drop 1 s)
    else neither s

-- What `parse` returns, with what it stores in `err`.
pub data Result : Type 0 where
  parsed : Value → Result
  malformed : Problem → ℕ → Result
  trailing_data : Result

module _ (fp : Doubles) where
  -- The number branch: the integer digits decide `any`, a point or an exponent clears `isint`.
  unfoldable pub number : Bytes → Parsed Value
  unfolding skip_sign skip_digits skip_fraction skip_exponent at_byte
  number s =
      let whole = skip_sign s in
      let point = skip_digits whole in
      let exponent = skip_fraction point in
      let rest = skip_exponent exponent in
      let isint =
        not (at_byte b'.' point) && not (at_byte b'e' exponent || at_byte b'E' exponent) in
      if length whole == length point
      then fail invalid_value rest
      else ok (num (fp.strtod (take (length s - length rest) s)) isint) rest

  -- The branches that hold no other value.
  unfoldable pub scalar : Bytes → Parsed Value
  unfolding number
  scalar s =
      if at_byte b'"' s
      then elim (string_ s) [ ok t rest ↦ ok (str t) rest | fail p at ↦ fail p at ]
      else if starts_with s (codes "true")
      then ok (boolean true) (drop 4 s)
      else if starts_with s (codes "false")
      then ok (boolean false) (drop 5 s)
      else if starts_with s (codes "null")
      then ok null (drop 4 s)
      else number s

  -- `value` and the loops over the members of an object and the elements of an array.
  unfoldable mutual
    pub value : ℕ → Bytes → Parsed Value
    value zero s = fail stuck s
    value (suc f) s = elim (start (skip_ws s)) [
      | nothing ↦ fail unexpected_end []
      | empty_object rest ↦ ok (obj end) rest
      | object rest ↦ members f end rest
      | empty_array rest ↦ ok (arr nil) rest
      | array rest ↦ elements f nil rest
      | other rest ↦ scalar rest
    ]

    pub members : ℕ → Fields → Bytes → Parsed Value
    members zero fs s = fail stuck s
    members (suc f) fs s = elim (member_key s) [
      | fail p at ↦ fail p at
      | ok key rest ↦ elim (value f rest) [
        | fail p at ↦ fail p at
        | ok v behind ↦ elim (separator b'}' (skip_ws behind)) [
          | more next ↦ members f (insert key v fs) next
          | last next ↦ ok (obj (insert key v fs)) next
          | neither at ↦ fail expected_comma_or_brace at
        ]
      ]
    ]

    pub elements : ℕ → Items → Bytes → Parsed Value
    elements zero xs s = fail stuck s
    elements (suc f) xs s = elim (value f s) [
      | fail p at ↦ fail p at
      | ok v behind ↦ elim (separator b']' (skip_ws behind)) [
        | more next ↦ elements f (snoc xs v) next
        | last next ↦ ok (arr (snoc xs v)) next
        | neither at ↦ fail expected_comma_or_bracket at
      ]
    ]

  -- The value and nothing but white space behind it, or the message and its offset.
  unfoldable pub parse : Bytes → Result
  parse text = elim (value (suc (length text)) text) [
    | fail p at ↦ malformed p (length text - length at)
    | ok v rest ↦ elim (skip_ws rest) [ [] ↦ parsed v | c ∷ s ↦ trailing_data ]
  ]
