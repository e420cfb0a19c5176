-- ===== src/Aws/Imds.antt =====
-- src/aws.cpp: the instance metadata service and its session token.
use haiku_mgmt_agent.Prelude.{
  ℕ, suc, ◌+◌, ◌<◌, ◌≡◌, refl, arith, Bool, false, not, ◌&&◌, ◌||◌, Option, none, some, [], ◌∷◌,
  ◌++◌, if◌then◌else◌, ltb, by_test,
}
use haiku_mgmt_agent.Prelude.Int.{ℤ, pos, ltb_ℤ}
use haiku_mgmt_agent.Prelude.Text.{Bytes, is_empty, codes}
use haiku_mgmt_agent.Util.Text.{trim}
use haiku_mgmt_agent.Util.Time.Parse.{parse_http_date}
use haiku_mgmt_agent.Http.{Request, Response, succeeded}
use haiku_mgmt_agent.Http.Head.{Headers, find_header}

-- The cached token, and the number of requests that were made.
pub record Imds : Type 0 where
  pub token : Bytes
  pub token_expires_at : ℕ
  pub requests : ℕ

-- How `http::perform` answers the n-th request.
abbrev pub Network : Type 0
Network = ℕ → Request → Response

abbrev pub imds_host : Bytes
imds_host = codes "169.254.169.254"

unfoldable pub token_lifetime : ℕ
token_lifetime = 21600

unfoldable pub imds_request : Bytes → Bytes → Headers → Request
imds_request method path headers = record {
  method = method;
  tls = false;
  host = imds_host;
  port = 0;
  path = path;
  headers = headers;
  body = [];
  body_path = [];
  sink_path = [];
}

unfoldable pub token_request : Request
unfolding imds_request
token_request =
    imds_request (codes "PUT") (codes "/latest/api/token")
      ((codes "X-aws-ec2-metadata-token-ttl-seconds", codes "21600") ∷ [])

-- `Imds::token` at the time `now`.
unfoldable pub get_token : Network → ℕ → Imds → Imds × Bytes
unfolding token_request token_lifetime succeeded trim
get_token network now i =
    let r = network i.requests token_request in
    let asked = record i { requests = suc i.requests } in
    let fresh = trim r.body in
    if not (is_empty i.token) && ltb (now + 60) i.token_expires_at
    then (i, i.token)
    else if not (succeeded r) || is_empty r.body
    then (asked, [])
    else (record asked { token = fresh; token_expires_at = now + token_lifetime }, fresh)

-- `Imds::get`: the body, empty on a failure.
unfoldable pub get : Network → ℕ → Bytes → Imds → Imds × Bytes
unfolding get_token imds_request succeeded
get network now path i =
    let (j, tok) = get_token network now i in
    let r =
      network j.requests
        (imds_request (codes "GET") path ((codes "X-aws-ec2-metadata-token", tok) ∷ [])) in
    if is_empty tok
    then (j, [])
    else (record j { requests = suc j.requests }, if succeeded r then r.body else [])

-- `Imds::server_time` on the answer to a request of its own for a token.
unfoldable pub server_time : Response → Option ℤ
unfolding find_header parse_http_date
server_time r = elim (find_header (codes "date") r.headers) [
  | none ↦ none
  | some date ↦ let epoch = parse_http_date date in if ltb_ℤ (pos 0) epoch then some epoch else none
]

pub record InstanceIdentity : Type 0 where
  pub instance_id : Bytes
  pub region : Bytes
  pub availability_zone : Bytes
  pub private_ip : Bytes
  pub hostname : Bytes

-- `InstanceIdentity::valid`
unfoldable pub is_valid : InstanceIdentity → Bool
is_valid id = not (is_empty id.instance_id) && not (is_empty id.region)

unfoldable pub meta_data : Network → ℕ → Bytes → Imds → Imds × Bytes
unfolding get trim
meta_data network now name i =
    let (j, body) = get network now (codes "/latest/meta-data/" ++ name) i in (j, trim body)

-- `Imds::identity`: five requests in turn.
unfoldable pub identity : Network → ℕ → Imds → Imds × InstanceIdentity
unfolding meta_data
identity network now i0 =
    let (i1, id) = meta_data network now (codes "instance-id") i0 in
    let (i2, region) = meta_data network now (codes "placement/region") i1 in
    let (i3, zone) = meta_data network now (codes "placement/availability-zone") i2 in
    let (i4, ip) = meta_data network now (codes "local-ipv4") i3 in
    let (i5, name) = meta_data network now (codes "local-hostname") i4 in
    (
      i5,
      record {
        instance_id = id;
        region = region;
        availability_zone = zone;
        private_ip = ip;
        hostname = name;
      },
    )

-- What a token that was given out must be: the one that is cached now, good for a minute at least.
abbrev pub IsGood : ℕ → Imds × Bytes → Type 0
IsGood now (i, tok) = is_empty tok ≡ false → (tok ≡ i.token) × (now + 60 < i.token_expires_at)

-- A token that `Imds::token` gives out is the cached one and is good for more than a minute, whether it
-- was cached or is new, whatever the service answers.
pub get_token-IsGood :
    (network : Network) (now : ℕ) (i : Imds) → IsGood now (get_token network now i)
unfolding get_token token_lifetime
get_token-IsGood network now i =
    by_test (IsGood now) (not (is_empty i.token) && ltb (now + 60) i.token_expires_at) _ _
      (λ cached some'. (refl, ground (arith, cached)))
      (λ old.
        by_test (IsGood now)
          (not (succeeded (network i.requests token_request))
            || is_empty (network i.requests token_request).body)
          _ _ (λ bad none'. absurd cc) (λ good some'. (refl, omega arith)))

-- While a token is good, `Imds::get` makes one request, its own, and keeps the token.
pub get-reuses :
    (network : Network) (now : ℕ) (path : Bytes) (i : Imds)
    → is_empty i.token ≡ false
    → now + 60 < i.token_expires_at
    → (get network now path i).0 ≡ record i { requests = suc i.requests }
unfolding get get_token
get-reuses network now path i kept good = ground (arith, kept, good)
