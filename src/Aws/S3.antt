-- ===== src/Aws/S3.antt =====
-- src/s3.cpp: addresses, and transfers with one retry.
use haiku_mgmt_agent.Prelude.{
  ℕ, suc, ◌+◌, ◌≡◌, refl, ap, ◌∙◌, arith, inl, inr, Bool, false, ◌&&◌, ◌||◌, Option, none, some, [],
  ◌∷◌, ◌++◌, if◌then◌else◌, ◌==◌, leb, length, take, drop, length-append, ◌≤◌, Bool-cases,
  Option-cases, take-append, drop-append, drop-drop,
}
use haiku_mgmt_agent.Prelude.Int.{pos, eqb_ℤ}
use haiku_mgmt_agent.Prelude.Text.{Bytes, codes, starts_with, contains_text, find_byte}
use haiku_mgmt_agent.Json.Value.{Doubles}
use haiku_mgmt_agent.Http.{Response}
use haiku_mgmt_agent.Aws.Credentials.{Credentials}
use haiku_mgmt_agent.Aws.Credentials

-- `parse_uri`: the bucket and the key.
unfoldable pub parse_uri : Bytes → Option (Bytes × Bytes)
parse_uri uri =
    let rest = drop 5 uri in
    if starts_with uri (codes "s3://")
    then elim (find_byte b'/' rest) [
      | none ↦ none
      | some slash ↦
          if slash == 0 || leb (length rest) (slash + 1)
          then none
          else some (take slash rest, drop (slash + 1) rest)
    ]
    else none

unfoldable pub expired_token : Response → Bool
expired_token r =
    (eqb_ℤ r.status (pos 400) || eqb_ℤ r.status (pos 403))
    && (contains_text r.body (codes "ExpiredToken")
        || (contains_text r.body (codes "InvalidToken")
            || contains_text r.body (codes "TokenRefreshRequired")))

unfoldable pub no_credentials_response : Response
no_credentials_response = record {
  status = pos 0;
  headers = [];
  body = [];
  sink_bytes = 0;
  error = codes "no credentials available";
}

-- The provider's cache and the number of signed requests that were sent.
pub record Transfers : Type 0 where
  pub cached : Credentials
  pub sent : ℕ

-- The surroundings of the n-th attempt of one transfer: the clock's readings, the body that the
-- metadata service gives for a path, the reading of an expiration, and how S3 answers a request that is signed with these credentials.
pub record Remote : Type 0 where
  pub now : ℕ → ℕ
  pub later : ℕ → ℕ
  pub imds : ℕ → Bytes → Bytes
  pub expiration : Bytes → ℕ
  pub doubles : Doubles
  pub perform : ℕ → Credentials → Response

-- What the metadata service gives in the n-th attempt.
abbrev pub fetched : Remote → ℕ → Option Credentials
fetched remote n = Credentials.fetch remote.doubles (remote.imds n) remote.expiration

unfoldable pub transfer_once : Remote → ℕ → Transfers → Transfers × Response
transfer_once remote n t =
    let (cached, given) =
      Credentials.get remote.doubles (remote.imds n) remote.expiration (remote.now n)
        (remote.later n) t.cached in
    elim given [
      | none ↦ (record { cached = cached; sent = t.sent }, no_credentials_response)
      | some c ↦ (record { cached = cached; sent = suc t.sent }, remote.perform n c)
    ]

-- `get` and `put`, which differ only in the request.
unfoldable pub transfer : Remote → Transfers → Transfers × Response
transfer remote t =
    let (first, r) = transfer_once remote 0 t in
    let again =
      transfer_once remote 1 (record first { cached = Credentials.invalidate first.cached }) in
    if expired_token r then again else (first, r)

find_byte-append :
    (b : ℕ) (name rest : Bytes)
    → find_byte b name ≡ none
    → find_byte b (name ++ (b ∷ rest)) ≡ some (length name)
unfolding find_byte
find_byte-append b [] rest h = ground arith
find_byte-append b (c ∷ name) rest h =
    rw (find_byte-append b name rest (ground arith)) (ground arith)

-- A bucket without a slash and any key, neither empty, are read back from the address made of them.
pub parse_uri-join :
    (b k : ℕ) (bucket key : Bytes)
    → find_byte b'/' (b ∷ bucket) ≡ none
    → parse_uri (codes "s3://" ++ ((b ∷ bucket) ++ (b'/' ∷ k ∷ key))) ≡ some (b ∷ bucket, k ∷ key)
unfolding parse_uri starts_with
parse_uri-join b k bucket key h =
    rw (find_byte-append b'/' (b ∷ bucket) (k ∷ key) h, parse_uri)
      (rw inside (
        rw (take-append (length (b ∷ bucket)) (b ∷ bucket) (b'/' ∷ k ∷ key) refl) (rw behind refl)))
  where
    rest : Bytes
    rest = (b ∷ bucket) ++ (b'/' ∷ k ∷ key)

    inside : (length (b ∷ bucket) == 0 || leb (length rest) (length (b ∷ bucket) + 1)) ≡ false
    inside = ground (arith, length-append (b ∷ bucket) (b'/' ∷ k ∷ key))

    behind : drop (length (b ∷ bucket) + 1) rest ≡ k ∷ key
    behind =
        drop-drop (length (b ∷ bucket)) 1 rest
        ∙ ap (drop 1) (drop-append (length (b ∷ bucket)) (b ∷ bucket) (b'/' ∷ k ∷ key) refl)

sent_once :
    (remote : Remote) (n : ℕ) (t : Transfers) → (transfer_once remote n t).0.sent ≤ suc t.sent
unfolding transfer_once
sent_once remote n t = elim (Option-cases given) [
  | inl e ↦ rw (e, transfer_once) (omega arith)
  | inr (c, e) ↦ rw (e, transfer_once) (omega arith)
]
  where
    given : Option Credentials
    given =
        (Credentials.get remote.doubles (remote.imds n) remote.expiration (remote.now n)
          (remote.later n) t.cached).1

-- The answer to a request that is signed with credentials just fetched.
abbrev pub answer_to : Remote → ℕ → Option Credentials → Response
answer_to remote n none = no_credentials_response
answer_to remote n (some c) = remote.perform n c

once_without_cache :
    (remote : Remote) (n : ℕ) (t : Transfers)
    → (transfer_once remote n (record t { cached = Credentials.invalidate t.cached })).1
      ≡ answer_to remote n (fetched remote n)
unfolding transfer_once Credentials.get Credentials.invalidate Credentials.stale
    Credentials.lacks_keys Credentials.no_credentials
once_without_cache remote n t = elim (Option-cases (fetched remote n)) [
  | inl e ↦ rw (e, transfer_once) refl
  | inr (c, e) ↦ rw (e, transfer_once) refl
]

-- A transfer sends at most two requests. The answer is that to the first unless it says that the token
-- has expired, where it is the answer to a request that is signed with credentials fetched anew, or the
-- error where none can be fetched.
pub transfer_retries :
    (remote : Remote) (t : Transfers)
    → ((transfer remote t).0.sent ≤ t.sent + 2)
      × ((transfer remote t).1 ≡ (
          if expired_token (transfer_once remote 0 t).1
          then answer_to remote 1 (fetched remote 1)
          else (transfer_once remote 0 t).1))
unfolding transfer
transfer_retries remote t = (
  ground (arith, sent_once remote 0 t, sent_once remote 1 second),
  elim (Bool-cases (expired_token (transfer_once remote 0 t).1)) [
    | inl e ↦ rw (e, transfer) (once_without_cache remote 1 (transfer_once remote 0 t).0)
    | inr e ↦ rw (e, transfer) refl
  ],
)
  where
    second : Transfers
    second = record (transfer_once remote 0 t).0 {
      cached = Credentials.invalidate (transfer_once remote 0 t).0.cached;
    }
