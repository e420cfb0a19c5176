-- ===== src/Http.antt =====
-- src/http.h, src/http.cpp: the request and its response.
pub mod Transport
pub mod Head
pub mod Body
pub mod Perform
use haiku_mgmt_agent.Prelude.{ℕ, Bool, List, ◌&&◌}
use haiku_mgmt_agent.Prelude.Int.{ℤ, pos, leb_ℤ, ltb_ℤ}
use haiku_mgmt_agent.Prelude.Text.{Bytes, is_empty}

pub record Request : Type 0 where
  pub method : Bytes
  pub tls : Bool
  pub host : Bytes
  pub port : ℕ
  pub path : Bytes
  pub headers : List (Bytes × Bytes)
  pub body : Bytes
  pub body_path : Bytes
  pub sink_path : Bytes

-- `headers` is the map, newest entry first, one entry for each key; `error` is the transport's.
pub record Response : Type 0 where
  pub status : ℤ
  pub headers : List (Bytes × Bytes)
  pub body : Bytes
  pub sink_bytes : ℕ
  pub error : Bytes

unfoldable pub succeeded : Response → Bool
succeeded r = is_empty r.error && (leb_ℤ (pos 200) r.status && ltb_ℤ r.status (pos 300))
