-- ===== src/Aws/Signing.antt =====
-- src/aws.cpp, src/s3.cpp: signature version 4.
use haiku_mgmt_agent.Prelude.{
  ℕ, ◌≡◌, refl, arith, true, false, not, ◌&&◌, List, [], ◌∷◌, ◌++◌, if◌then◌else◌, by_test,
}
use haiku_mgmt_agent.Prelude.Text.{Bytes, codes, bytes_eq}
use haiku_mgmt_agent.Util.Codec.{to_hex, uri_encode}
use haiku_mgmt_agent.Json.Value.{bytes_lt}
use haiku_mgmt_agent.Prelude.Text.{is_empty}
use haiku_mgmt_agent.Aws.Credentials.{Credentials}

abbrev pub Header : Type 0
Header = Bytes × Bytes

-- `std::sort` by name; the names differ, so that the order is the only one.
unfoldable pub insert_header : Header → List Header → List Header
insert_header h [] = h ∷ []
insert_header h (k ∷ ks) =
    let later = insert_header h ks in if bytes_lt h.0 k.0 then h ∷ k ∷ ks else k ∷ later

unfoldable pub sort_headers : List Header → List Header
unfolding insert_header
sort_headers [] = []
sort_headers (h ∷ hs) = insert_header h (sort_headers hs)

unfoldable pub canonical_headers : List Header → Bytes
canonical_headers [] = []
canonical_headers (h ∷ hs) = h.0 ++ (codes ":" ++ (h.1 ++ (codes "\n" ++ canonical_headers hs)))

abbrev pub more_names : List Header → Bytes
more_names [] = []
more_names (h ∷ hs) = codes ";" ++ (h.0 ++ more_names hs)

unfoldable pub signed_names : List Header → Bytes
signed_names [] = []
signed_names (h ∷ hs) = h.0 ++ more_names hs

-- The digests of mbedTLS, and the two texts of the clock.
pub record Signer : Type 0 where
  pub sha256_hex : Bytes → Bytes
  pub hmac_sha256 : (key text : Bytes) → Bytes
  pub amz_date : ℕ → Bytes
  pub amz_datestamp : ℕ → Bytes

-- A header that is sent only with a session token.
abbrev pub with_token : Bytes → Credentials → List Header → List Header
with_token name creds hs = if is_empty creds.token then hs else (name, creds.token) ∷ hs

module _ (signer : Signer) where
  unfoldable pub signing_key : (secret datestamp region service : Bytes) → Bytes
  signing_key secret datestamp region service =
      let k_date = signer.hmac_sha256 (codes "AWS4" ++ secret) datestamp in
      let k_region = signer.hmac_sha256 k_date region in
      let k_service = signer.hmac_sha256 k_region service in
      signer.hmac_sha256 k_service (codes "aws4_request")

  -- The header `Authorization` for headers in order, which the three signers compute alike.
  unfoldable pub authorization :
      (method path query payload_hash region service : Bytes)
      → Credentials
      → (now : ℕ) → List Header
      → Bytes
  unfolding signing_key canonical_headers signed_names
  authorization method path query payload_hash region service creds now signed =
      let newline = codes "\n" in
      let canonical_request =
        method
        ++ (newline
            ++ (path
                ++ (newline
                    ++ (query
                        ++ (newline
                            ++ (canonical_headers signed
                                ++ (newline
                                    ++ (signed_names signed ++ (newline ++ payload_hash))))))))) in
      let scope =
        signer.amz_datestamp now
        ++ (codes "/" ++ (region ++ (codes "/" ++ (service ++ codes "/aws4_request")))) in
      let string_to_sign =
        codes "AWS4-HMAC-SHA256\n"
        ++ (signer.amz_date now
            ++ (newline ++ (scope ++ (newline ++ signer.sha256_hex canonical_request)))) in
      let signature = to_hex (
        signer.hmac_sha256 (signing_key creds.secret_key (signer.amz_datestamp now) region service)
          string_to_sign) in
      codes "AWS4-HMAC-SHA256 Credential="
      ++ (creds.access_key
          ++ (codes "/"
              ++ (scope
                  ++ (codes ", SignedHeaders="
                      ++ (signed_names signed ++ (codes ", Signature=" ++ signature))))))

  unfoldable pub sigv4_headers :
      (method service region : Bytes)
      → Credentials
      → (host path query payload_sha256_hex : Bytes) → ℕ
      → List Header
  unfolding authorization sort_headers
  sigv4_headers method service region creds host path query payload_sha256_hex now =
      let signed = sort_headers (
        (codes "host", host)
        ∷ (codes "x-amz-date", signer.amz_date now)
        ∷ with_token (codes "x-amz-security-token") creds []) in
      (codes "X-Amz-Date", signer.amz_date now)
      ∷ with_token (codes "X-Amz-Security-Token") creds (
          (
            codes "Authorization",
            authorization method path query payload_sha256_hex region service creds now signed,
          )
          ∷ [])

  -- The request of `aws::call`: its host and its headers; the method is POST and the path "/".
  unfoldable pub call_request :
      (service target_prefix operation region : Bytes)
      → Credentials
      → (body : Bytes) → ℕ
      → Bytes × List Header
  unfolding authorization sort_headers
  call_request service target_prefix operation region creds body now =
      let json = codes "application/x-amz-json-1.1" in
      let host = service ++ (codes "." ++ (region ++ codes ".amazonaws.com")) in
      let target = target_prefix ++ (codes "." ++ operation) in
      let date = signer.amz_date now in
      let signed = sort_headers (
        (codes "content-type", json)
        ∷ (codes "host", host)
        ∷ (codes "x-amz-date", date)
        ∷ (codes "x-amz-target", target)
        ∷ with_token (codes "x-amz-security-token") creds []) in
      (
        host,
        (codes "Content-Type", json)
            ∷ (codes "X-Amz-Date", date)
            ∷ (codes "X-Amz-Target", target)
            ∷ with_token (codes "X-Amz-Security-Token") creds (
                (
                  codes "Authorization",
                  authorization (codes "POST") (codes "/") [] (signer.sha256_hex body) region
                      service creds now signed,
                )
                ∷ (codes "User-Agent", codes "haiku-mgmt-agent")
                ∷ []),
      )

  -- `s3::build_request`: its host, its path and its headers.
  unfoldable pub build_request :
      (method region : Bytes)
      → Credentials
      → (bucket key : Bytes) → ℕ
      → (content_type : Bytes) → Bytes × (Bytes × List Header)
  unfolding authorization sort_headers
  build_request method region creds bucket key now content_type =
      let unsigned = codes "UNSIGNED-PAYLOAD" in
      let host = bucket ++ (codes ".s3." ++ (region ++ codes ".amazonaws.com")) in
      let path = codes "/" ++ uri_encode key false in
      let date = signer.amz_date now in
      let signed = sort_headers (
        (codes "host", host)
        ∷ (codes "x-amz-content-sha256", unsigned)
        ∷ (codes "x-amz-date", date)
        ∷ with_token (codes "x-amz-security-token") creds []) in
      let last =
        (
          codes "Authorization",
          authorization method path [] unsigned region (codes "s3") creds now signed,
        )
        ∷ (codes "User-Agent", codes "haiku-mgmt-agent")
        ∷ [] in
      let typed =
        if bytes_eq method (codes "PUT") && not (is_empty content_type)
        then (codes "Content-Type", content_type) ∷ last
        else last in
      (
        host,
        (
          path,
          (codes "X-Amz-Content-Sha256", unsigned)
              ∷ (codes "X-Amz-Date", date)
              ∷ with_token (codes "X-Amz-Security-Token") creds typed,
        ),
      )

-- No name is before the name that stands in front of it.
abbrev pub InOrder : List Header → Type 0
InOrder [] = Unit
InOrder (h ∷ []) = Unit
InOrder (h ∷ k ∷ ks) = (bytes_lt k.0 h.0 ≡ false) × InOrder (k ∷ ks)

bytes_lt_asym : (s t : Bytes) → bytes_lt s t ≡ true → bytes_lt t s ≡ false
unfolding bytes_lt
bytes_lt_asym [] [] h = refl
bytes_lt_asym [] (b ∷ t) h = refl
bytes_lt_asym (a ∷ s) [] h = absurd (ground (arith, h))
bytes_lt_asym (a ∷ s) (b ∷ t) h = ground (arith, h, bytes_lt_asym s t)

insert_header-InOrder : (h : Header) (ks : List Header) → InOrder ks → InOrder (insert_header h ks)
unfolding insert_header
insert_header-InOrder h [] o = tt
insert_header-InOrder h (k ∷ []) o =
    by_test InOrder (bytes_lt h.0 k.0) (h ∷ k ∷ []) (k ∷ h ∷ [])
      (λ e. (bytes_lt_asym h.0 k.0 e, tt)) (λ e. (e, tt))
insert_header-InOrder h (k ∷ l ∷ ks) o =
    by_test InOrder (bytes_lt h.0 k.0) (h ∷ k ∷ l ∷ ks) (k ∷ insert_header h (l ∷ ks))
      (λ e. (bytes_lt_asym h.0 k.0 e, o))
      (λ e.
        by_test (λ js. InOrder js → InOrder (k ∷ js)) (bytes_lt h.0 l.0) (h ∷ l ∷ ks)
          (l ∷ insert_header h ks) (λ d below. (e, below)) (λ d below. (o.0, below))
          (insert_header-InOrder h (l ∷ ks) o.1))

-- The headers that are signed stand in the order of their names, however many there are and whatever
-- order they are given in.
pub sort_headers-InOrder : (hs : List Header) → InOrder (sort_headers hs)
unfolding sort_headers
sort_headers-InOrder [] = tt
sort_headers-InOrder (h ∷ hs) = insert_header-InOrder h (sort_headers hs) (sort_headers-InOrder hs)
