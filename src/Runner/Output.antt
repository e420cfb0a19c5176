-- ===== src/Runner/Output.antt =====
-- src/runner.cpp: `truncate_output`.
pub mod Bounds
use haiku_mgmt_agent.Prelude.{
  ℕ, ◌+◌, ◌-◌, ◌/◌, ◌%◌, ◌^◌, Bool, ◌&&◌, [], ◌∷◌, ◌++◌, ltb, leb, if◌then◌else◌, length, take, min,
}
use haiku_mgmt_agent.Prelude.Text.{Bytes, codes}

unfoldable pub err_title : Bytes
err_title = codes "\n----------ERROR-------\n"

unfoldable pub truncate_out : Bytes
truncate_out = codes "\n---Output truncated---"

unfoldable pub truncate_error : Bytes
truncate_error = codes "\n---Error truncated----"

abbrev pub max_plugin_output_size : ℕ
max_plugin_output_size = 2500

abbrev pub max_stdout_length : ℕ
max_stdout_length = 24000

-- The difference of two `size_t` values.
abbrev pub sub_size : ℕ → ℕ → ℕ
sub_size a b = (a + 2 ^ 64 - b) % 2 ^ 64

abbrev pub title_for : Bytes → Bytes
title_for [] = []
title_for (c ∷ s) = err_title

-- Half of what both streams may take when both are cut, and what one stream keeps beside the other.
unfoldable pub both_half : ℕ → ℕ
both_half available =
    sub_size (sub_size available (length truncate_error)) (length truncate_out) / 2

unfoldable pub keep_beside : ℕ → ℕ → ℕ → ℕ
keep_beside available suffix other =
    let truncate_size = sub_size available suffix in
    if ltb other truncate_size then truncate_size - other else 0

-- The branches behind the first test, for the bytes that the title leaves.
unfoldable pub truncate_to : Bytes → Bytes → Bytes → ℕ → Bytes
truncate_to out title err available =
    let half = available / 2 in
    if ltb half (length out) && ltb half (length err)
    then take (both_half available) out
      ++ (truncate_out ++ (title ++ (take (both_half available) err ++ truncate_error)))
    else if leb (length out) half
    then out
      ++ (title
          ++ (take (min (keep_beside available (length truncate_error) (length out)) (length err))
                err
              ++ truncate_error))
    else take (min (keep_beside available (length truncate_out) (length err)) (length out)) out
      ++ (truncate_out ++ (title ++ err))

unfoldable pub truncate_output : Bytes → Bytes → ℕ → Bytes
truncate_output out err capacity =
    let title = title_for err in
    let available = if ltb (length title) capacity then capacity - length title else 0 in
    if ltb (length out + length err) available
    then out ++ (title ++ err)
    else truncate_to out title err available
