-- ===== src/Http/Perform/Complete.antt =====
-- What a caller of `perform` may conclude from a response without an error.
use haiku_mgmt_agent.Prelude.{◌≡◌, true, false, some}
use haiku_mgmt_agent.Prelude.Text.{Bytes, codes}
use haiku_mgmt_agent.Http.{Response, succeeded}
use haiku_mgmt_agent.Util.Number.{strtoul}
use haiku_mgmt_agent.Http.Head.{find_header}
use haiku_mgmt_agent.Http.Body.{is_chunked}

-- Every condition of the theorem below on one response, and what it concludes.
abbrev IsComplete : Bytes → Response → Type 0
IsComplete v r =
    succeeded r ≡ true
    → is_chunked r.headers ≡ false
    → find_header (codes "content-length") r.headers ≡ some v
    → r.sink_bytes ≡ strtoul v 10
