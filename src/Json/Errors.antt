-- ===== src/Json/Errors.antt =====
-- src/json.cpp: the texts that `parse` leaves in `err`.
use haiku_mgmt_agent.Prelude.{[], ◌++◌}
use haiku_mgmt_agent.Prelude.Text.{Bytes, codes, decimal}
use haiku_mgmt_agent.Json.Value.{Value, null}
use haiku_mgmt_agent.Json.Strings.{
  Problem, unexpected_end, expected_string, unterminated_string, unterminated_escape,
  unknown_escape, truncated_escape, bad_hex_digit, expected_colon, expected_comma_or_brace,
  expected_comma_or_bracket, invalid_value, stuck,
}
use haiku_mgmt_agent.Json.Parser.{Result, parsed, malformed, trailing_data}

-- `stuck` is no message of the source.
unfoldable pub message_of : Problem → Bytes
message_of unexpected_end = codes "unexpected end of input"
message_of expected_string = codes "expected string"
message_of unterminated_string = codes "unterminated string"
message_of unterminated_escape = codes "unterminated escape"
message_of unknown_escape = codes "unknown escape"
message_of truncated_escape = codes "truncated \\u escape"
message_of bad_hex_digit = codes "bad hex digit in \\u escape"
message_of expected_colon = codes "expected ':'"
message_of expected_comma_or_brace = codes "expected ',' or '}'"
message_of expected_comma_or_bracket = codes "expected ',' or ']'"
message_of invalid_value = codes "invalid value"
message_of stuck = codes "stuck"

-- `err` after `parse`.
unfoldable pub error_of : Result → Bytes
error_of (parsed v) = []
error_of (malformed p at) = message_of p ++ (codes " at offset " ++ decimal at)
error_of trailing_data = codes "trailing data after JSON value"

-- The value that `parse` returns: null with an error.
unfoldable pub value_of : Result → Value
value_of (parsed v) = v
value_of _ = null
