-- ===== src/Util/Time/Parse/RoundTrip.antt =====
-- `parse_iso8601` reads what `iso8601_seconds` prints.
use haiku_mgmt_agent.Prelude.{ℕ, ◌<◌, Option, some, List, [], ◌∷◌}
use haiku_mgmt_agent.Prelude.Int.{ℤ, pos}
use haiku_mgmt_agent.Prelude.Text.{Bytes}
use haiku_mgmt_agent.Util.Time.{Tm}

as_int : ℕ × Bytes → Option (ℤ × Bytes)
as_int (n, rest) = some (pos n, rest)

-- A time whose fields fit their places.
abbrev pub Fits : Tm → Type 0
Fits t =
    (t.year < 10000)
    × ((t.month < 100) × ((t.day < 100) × ((t.hour < 100) × ((t.minute < 100) × (t.second < 100)))))

abbrev fields_of : Tm → List ℤ
fields_of t = pos t.year ∷ pos t.month ∷ pos t.day ∷ pos t.hour ∷ pos t.minute ∷ pos t.second ∷ []
