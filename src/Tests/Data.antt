-- ===== src/Tests/Data.antt =====
-- The data that the runs share.
use haiku_mgmt_agent.Prelude.{ℕ, ◌+◌, ◌*◌, ◌-◌, true, [], ◌∷◌}
use haiku_mgmt_agent.Prelude.Int.{pos, negsuc}
use haiku_mgmt_agent.Prelude.Text.{Bytes, decimal}
use haiku_mgmt_agent.Json.Value.{Doubles}

-- Numbers without a sign or a fraction, as their own bit patterns.
abbrev pub digits_value : ℕ → Bytes → ℕ
digits_value n [] = n
digits_value n (c ∷ s) = digits_value (10 * n + (c - 48)) s

abbrev pub whole_numbers : Doubles
whole_numbers = record {
  strtod = digits_value 0;
  strtod_whole = λ s. true;
  print = λ n integral. decimal n;
  of_int = λ n. elim n [ pos k ↦ k | negsuc k ↦ 0 ];
  to_int = pos;
}
