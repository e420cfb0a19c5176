-- ===== src/Mgs/Channel.antt =====
-- src/mgs.cpp: `endpoint`, `ws_upgrade_headers` and `create_channel`.
use haiku_mgmt_agent.Prelude.{
  ℕ, ◌+◌, ◌-◌, Bool, not, ◌&&◌, ◌||◌, Option, none, some, List, [], ◌∷◌, ◌++◌, if◌then◌else◌, ltb,
  take, drop,
}
use haiku_mgmt_agent.Prelude.Int.{pos, ltb_ℤ, leb_ℤ}
use haiku_mgmt_agent.Prelude.Text.{Bytes, is_empty, codes, find}
use haiku_mgmt_agent.Util.Text.{clip}
use haiku_mgmt_agent.Json.Value.{Doubles, str, obj, end, insert, is_obj, str_at}
use haiku_mgmt_agent.Json.Parser.{parse}
use haiku_mgmt_agent.Json.Errors.{error_of, value_of}
use haiku_mgmt_agent.Json.Dump.{dump}
use haiku_mgmt_agent.Http.{Request, Response}
use haiku_mgmt_agent.Aws.Credentials.{Credentials}
use haiku_mgmt_agent.Aws.Signing.{Signer, Header, sigv4_headers}

unfoldable pub endpoint : Bytes → Bytes
endpoint region = codes "ssmmessages." ++ (region ++ codes ".amazonaws.com")

-- `resp.body` between the two tags.
unfoldable pub token_in_xml : Bytes → Bytes
unfolding find
token_in_xml body = elim (find (codes "<TokenValue>") body) [
  | none ↦ []
  | some opening ↦ elim (find (codes "</TokenValue>") body) [
    | none ↦ []
    | some closing ↦
        if ltb opening closing then take (closing - opening - 12) (drop (opening + 12) body) else []
  ]
]

-- A token, or the error.
pub data Created : Type 0 where
  created : Bytes → Created
  not_created : Bytes → Created

module _ (signer : Signer) where
  unfoldable pub ws_upgrade_headers :
      Credentials → (region host path query : Bytes) → (now : ℕ) → List Header
  unfolding sigv4_headers
  ws_upgrade_headers creds region host path query now =
      sigv4_headers signer (codes "GET") (codes "ssmmessages") region creds host path query
        (signer.sha256_hex []) now

  -- `uuid` is the fresh id, `now` the clock.
  unfoldable pub channel_request :
      Doubles → Credentials → (region channel_type channel_id uuid : Bytes) → (now : ℕ) → Request
  unfolding endpoint sigv4_headers insert dump
  channel_request fp creds region channel_type channel_id uuid now =
      let payload = dump fp (
        obj (
          insert (codes "RequestId") (str uuid)
            (insert (codes "MessageSchemaVersion") (str (codes "1.0")) end))) in
      let path = codes "/v1/" ++ (channel_type ++ (codes "/" ++ channel_id)) in
      record {
        method = codes "POST";
        tls = Bool.true;
        host = endpoint region;
        port = 0;
        path = path;
        headers =
            (codes "Content-Type", codes "application/json")
            ∷ (sigv4_headers signer (codes "POST") (codes "ssmmessages") region creds
                  (endpoint region) path [] (signer.sha256_hex payload) now
                ++ ((codes "User-Agent", codes "haiku-mgmt-agent") ∷ []));
        body = payload;
        body_path = [];
        sink_path = [];
      }

module _ (fp : Doubles) (status_text : Response → Bytes) where
  -- `status_text` prints `resp.status`.
  unfoldable pub read_token : Bytes → Response → Created
  unfolding token_in_xml clip
  read_token channel_type resp =
      let v = value_of (parse fp resp.body) in
      let from_json =
        if is_empty (error_of (parse fp resp.body)) && is_obj v
        then str_at v (codes "TokenValue")
        else [] in
      let token = if is_empty from_json then token_in_xml resp.body else from_json in
      if not (is_empty resp.error) || (ltb_ℤ resp.status (pos 200) || leb_ℤ (pos 300) resp.status)
      then not_created (
          codes "Create"
          ++ (channel_type
              ++ (codes " failed: status="
                  ++ (status_text resp
                      ++ (codes " "
                          ++ (resp.error ++ (codes " " ++ clip resp.body 300 (codes "..."))))))))
      else if is_empty token
      then not_created (
          codes "no TokenValue in Create"
          ++ (channel_type ++ (codes " response: " ++ clip resp.body 300 (codes "..."))))
      else created token

  -- `create_channel`: the credentials the provider gives, and how the service answers.
  unfoldable pub create_channel :
      Signer
      → Option Credentials
      → (region channel_type channel_id uuid : Bytes) → (now : ℕ) → (Request → Response)
      → Created
  unfolding channel_request read_token
  create_channel signer creds region channel_type channel_id uuid now perform = elim creds [
    | none ↦ not_created (codes "no credentials available")
    | some c ↦
        read_token channel_type
          (perform (channel_request signer fp c region channel_type channel_id uuid now))
  ]
