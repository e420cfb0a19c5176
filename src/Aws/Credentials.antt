-- ===== src/Aws/Credentials.antt =====
-- src/aws.h, src/aws.cpp: the credentials of the role and their cache.
use haiku_mgmt_agent.Prelude.{
  ℕ, ◌+◌, ◌<◌, ◌≡◌, ◌⊎◌, Bool-cases, refl, arith, inl, inr, Bool, false, not, ◌&&◌, ◌||◌, Option,
  none, some, List, [], ◌∷◌, ◌++◌, if◌then◌else◌, ◌==◌, leb, by_test,
}
use haiku_mgmt_agent.Prelude.Text.{Bytes, codes}
use haiku_mgmt_agent.Util.Text.{trim, split}
use haiku_mgmt_agent.Json.Value.{Doubles, Value, is_obj, str_at}
use haiku_mgmt_agent.Json.Parser.{parse}
use haiku_mgmt_agent.Json.Errors.{error_of, value_of}
use haiku_mgmt_agent.Prelude.Text.{is_empty}

-- Times are seconds since the epoch; 0 is unknown.
pub record Credentials : Type 0 where
  pub access_key : Bytes
  pub secret_key : Bytes
  pub token : Bytes
  pub expires_at : ℕ

unfoldable pub no_credentials : Credentials
no_credentials = record { access_key = []; secret_key = []; token = []; expires_at = 0 }

-- `Credentials::empty`
unfoldable pub lacks_keys : Credentials → Bool
lacks_keys c = is_empty c.access_key || is_empty c.secret_key

unfoldable pub stale : Credentials → (now margin : ℕ) → Bool
stale c now margin = lacks_keys c || (not (c.expires_at == 0) && leb c.expires_at (now + margin))

abbrev pub first_line : List Bytes → Bytes
first_line [] = []
first_line (l ∷ ls) = l

-- `imds` is the metadata service: the body for a path, empty on a failure; `parse_iso8601` gives the
-- seconds of a time stamp.
module _ (fp : Doubles) (imds : Bytes → Bytes) (parse_iso8601 : Bytes → ℕ) where
  abbrev pub role_path : Bytes
  role_path = codes "/latest/meta-data/iam/security-credentials/"

  -- `Imds::credentials`
  unfoldable pub fetch : Option Credentials
  fetch =
      let listing = trim (imds role_path) in
      let body = imds (role_path ++ trim (first_line (split listing b'\n'))) in
      let v = value_of (parse fp body) in
      let c : Credentials = record {
        access_key = str_at v (codes "AccessKeyId");
        secret_key = str_at v (codes "SecretAccessKey");
        token = str_at v (codes "Token");
        expires_at = parse_iso8601 (str_at v (codes "Expiration"));
      } in
      if is_empty listing
      then none
      else if is_empty body
      then none
      else if not (is_empty (error_of (parse fp body))) || not (is_obj v)
      then none
      else if lacks_keys c
      then none
      else some c

  -- `CredentialProvider::get`: the cache behind it, and what it gives. `now` and `later` are the two
  -- readings of the clock.
  unfoldable pub get : (now later : ℕ) → Credentials → Credentials × Option Credentials
  get now later cached = if not (stale cached now 300) then (cached, some cached) else elim fetch [
    | some c ↦ (c, some c)
    | none ↦
        if not (lacks_keys cached) && not (stale cached later 0)
        then (cached, some cached)
        else (cached, none)
  ]

unfoldable pub invalidate : Credentials → Credentials
unfolding no_credentials
invalidate cached = no_credentials

-- What is given has keys and is in the cache, and was just fetched or is good for a while, or has not
-- expired where nothing can be fetched.
abbrev pub Usable : (now later : ℕ) → Option Credentials → Credentials × Option Credentials → Type 0
Usable now later fetched (cached, none) = Unit
Usable now later fetched (cached, some c) =
    (is_empty c.access_key ≡ false)
    × ((is_empty c.secret_key ≡ false)
        × ((cached ≡ c)
            × ((fetched ≡ some c)
                ⊎ ((c.expires_at ≡ 0)
                    ⊎ ((now + 300 < c.expires_at) ⊎ ((fetched ≡ none) × (later < c.expires_at)))))))

-- What a test for staleness that fails says.
fresh :
    (c : Credentials) (now margin : ℕ)
    → stale c now margin ≡ false
    → (is_empty c.access_key ≡ false)
      × ((is_empty c.secret_key ≡ false) × ((c.expires_at ≡ 0) ⊎ (now + margin < c.expires_at)))
unfolding stale lacks_keys
fresh c now margin h = (
  ground (arith, h),
  (
    ground (arith, h),
    elim (Bool-cases (c.expires_at == 0)) [
      | inl never ↦ inl (ground (arith, never))
      | inr some' ↦ inr (ground (arith, h, some'))
    ],
  ),
)

has_both :
    (c : Credentials)
    → lacks_keys c ≡ false
    → (is_empty c.access_key ≡ false) × (is_empty c.secret_key ≡ false)
unfolding lacks_keys
has_both c h = (ground (arith, h), ground (arith, h))

fresh-Usable :
    (now later : ℕ) (fetched : Option Credentials) (c : Credentials)
    → (stale c now 300 ≡ false) ⊎ ((fetched ≡ none) × (stale c later 0 ≡ false))
    → Usable now later fetched (c, some c)
fresh-Usable now later fetched c (inl h) =
    let (access, (secret, time)) = fresh c now 300 h in
    (
      access,
      (
        secret,
        (refl, elim time [ inl never ↦ inr (inl never) | inr early ↦ inr (inr (inl early)) ]),
      ),
    )
fresh-Usable now later fetched c (inr (failed, h)) =
    let (access, (secret, time)) = fresh c later 0 h in
    (
      access,
      (
        secret,
        (
          refl,
          elim time [
            | inl never ↦ inr (inl never)
            | inr early ↦ inr (inr (inr (failed, omega (arith, early))))
          ],
        ),
      ),
    )

-- What a function gives has keys.
abbrev HasKeys : Option Credentials → Type 0
HasKeys none = Unit
HasKeys (some c) = lacks_keys c ≡ false

module _ (fp : Doubles) (imds : Bytes → Bytes) (parse_iso8601 : Bytes → ℕ) where
  fetch-HasKeys : HasKeys (fetch fp imds parse_iso8601)
  unfolding fetch
  fetch-HasKeys =
      by_test HasKeys (is_empty listing) _ _ (λ none'. tt)
        (λ listed.
          by_test HasKeys (is_empty body) _ _ (λ none'. tt)
            (λ answered.
              by_test HasKeys (not (is_empty (error_of (parse fp body))) || not (is_obj v)) _ _
                (λ bad. tt)
                (λ parsed. by_test HasKeys (lacks_keys _) _ _ (λ none'. tt) (λ keys. keys))))
    where
      listing : Bytes
      listing = trim (imds (codes "/latest/meta-data/iam/security-credentials/"))

      body : Bytes
      body = imds (
          codes "/latest/meta-data/iam/security-credentials/"
          ++ trim (first_line (split listing b'\n')))

      v : Value
      v = value_of (parse fp body)

  answer-Usable :
      (now later : ℕ) (cached : Credentials) (fetched : Option Credentials)
      → HasKeys fetched
      → Usable now later fetched (elim fetched [
        | some c ↦ (c, some c)
        | none ↦
            if not (lacks_keys cached) && not (stale cached later 0)
            then (cached, some cached)
            else (cached, none)
      ])
  answer-Usable now later cached (some c) h =
      (let (a, s) = has_both c h in (a, (s, (refl, inl refl))))
  answer-Usable now later cached none h =
      by_test (Usable now later none) (not (lacks_keys cached) && not (stale cached later 0))
        (cached, some cached) (cached, none)
        (λ k. fresh-Usable now later none cached (inr (refl, ground (arith, k)))) (λ k. tt)

  -- Whatever the metadata service answers: what `get` gives has an access key and a secret key, is what the
  -- cache then holds, and either was fetched in this call, or has no known expiry, or expires more than
  -- 300 seconds later, or nothing could be fetched and it has not expired yet.
  pub get-Usable :
      (now later : ℕ) (cached : Credentials)
      → Usable now later (fetch fp imds parse_iso8601) (get fp imds parse_iso8601 now later cached)
  unfolding get
  get-Usable now later cached =
      by_test (Usable now later (fetch fp imds parse_iso8601)) (not (stale cached now 300)) _ _
        (λ good.
          fresh-Usable now later (fetch fp imds parse_iso8601) cached (inl (ground (arith, good))))
        (λ old. answer-Usable now later cached (fetch fp imds parse_iso8601) fetch-HasKeys)
