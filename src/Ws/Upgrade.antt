-- ===== src/Ws/Upgrade.antt =====
-- src/websocket.cpp: `accept_key_for`, and the upgrade that `Client::connect` performs.
use haiku_mgmt_agent.Prelude.{
  ℕ, ◌+◌, ◌-◌, ◌*◌, ◌≡◌, refl, ap, ◌∙◌, sym, subst, arith, Bool, not, Option, none, some, List, [],
  ◌∷◌, ◌++◌, if◌then◌else◌, ltb, ◌==◌, length, take, drop, append_assoc, drop-append_le,
  take-append_le, ◌≤◌, true, false, by_test,
}
use haiku_mgmt_agent.Prelude.Int.{ℤ, pos, eqb_ℤ}
use haiku_mgmt_agent.Prelude.Text.{
  Bytes, is_empty, bytes_eq, bytes_eq_iff, codes, find, find_byte, find-le, find-append,
}
use haiku_mgmt_agent.Util.Text.{trim, lower, clip}
use haiku_mgmt_agent.Util.Codec.{base64_encode}
use haiku_mgmt_agent.Util.Number.{atoi}
use haiku_mgmt_agent.Http.Transport.{Read, received, closed, timed_out, failed}
use haiku_mgmt_agent.Http.Head.{Headers, crlf, blank_line, or_else}
use haiku_mgmt_agent.Http.Perform.{end_line, header_text}
use haiku_mgmt_agent.Http.Body.Spec.{delivered}

-- `sha1` stands for `util::sha1_raw`, which calls mbedTLS.
unfoldable pub accept_key_for : (Bytes → Bytes) → Bytes → Bytes
unfolding base64_encode
accept_key_for sha1 key = base64_encode (sha1 (key ++ codes "258EAFA5-E914-47DA-95CA-C5AB0DC85B11"))

unfoldable pub upgrade_request : Bytes → Bytes → Bytes → Headers → Bytes
unfolding header_text
upgrade_request path host key extra_headers =
    codes "GET "
    ++ (path
        ++ (codes " HTTP/1.1"
            ++ (end_line
                ++ (codes "Host: "
                    ++ (host
                        ++ (end_line
                            ++ (codes "Upgrade: websocket"
                                ++ (end_line
                                    ++ (codes "Connection: Upgrade"
                                        ++ (end_line
                                            ++ (codes "Sec-WebSocket-Key: "
                                                ++ (key
                                                    ++ (end_line
                                                        ++ (codes "Sec-WebSocket-Version: 13"
                                                            ++ (end_line
                                                            ++ (header_text extra_headers
                                                            ++ end_line))))))))))))))))

abbrev pub max_upgrade : ℕ
max_upgrade = 64 * 1024

-- The head with its blank line at `end`, what came behind it and the reads that are left, or the error.
pub data Upgrade : Type 0 where
  head_at : ℕ → Bytes → List Read → Upgrade
  no_upgrade : Bytes → Upgrade

unfoldable pub read_upgrade : List Read → Bytes → Upgrade
unfolding find
read_upgrade [] head = elim (find blank_line head) [
  | some end ↦ head_at end head []
  | none ↦ no_upgrade (codes "connection closed during upgrade")
]
read_upgrade (r ∷ reads) head = elim (find blank_line head) [
  | some end ↦ head_at end head (r ∷ reads)
  | none ↦ elim r [
    | closed ↦ no_upgrade (codes "connection closed during upgrade")
    | timed_out ↦ no_upgrade (codes "upgrade timed out")
    | failed err ↦ no_upgrade (or_else err (codes "connection closed during upgrade"))
    | received chunk ↦
        let more = read_upgrade reads (head ++ chunk) in
        if ltb max_upgrade (length (head ++ chunk))
        then no_upgrade (codes "oversized upgrade response")
        else more
  ]
]

unfoldable pub status_of : Bytes → ℤ
unfolding find_byte
status_of head = elim (find_byte b' ' head) [ none ↦ pos 0 | some sp ↦ atoi (drop (sp + 1) head) ]

-- The value of the accept header from its position on, up to the end of its line.
unfoldable pub header_value : Bytes → ℕ → Bytes
unfolding find
header_value head pos' =
    let value = drop (pos' + 21) head in
    elim (find crlf (drop pos' head)) [
      | none ↦ trim value
      | some eol ↦ trim (take (eol - 21) value)
    ]

-- The checks on the head: the error, empty when the peer is accepted.
unfoldable pub check_upgrade : Bytes → Bytes → Bytes
unfolding status_of find header_value
check_upgrade want head =
    let accept : Bytes = elim (find (codes "sec-websocket-accept:") (lower head)) [
      | none ↦ codes "upgrade response missing Sec-WebSocket-Accept"
      | some pos' ↦
          if bytes_eq (header_value head pos') want
          then []
          else codes "Sec-WebSocket-Accept mismatch"
    ] in
    if eqb_ℤ (status_of head) (pos 101)
    then accept
    else codes "upgrade refused: " ++ clip head 400 (codes "...")

-- `connect` behind the stream's connection: the bytes left for `read_buf_` and the reads behind them, or the
-- error. `random` is what `random_bytes(16)` gives, `write_error` the error of writing the request.
pub data Connected : Type 0 where
  opened : Bytes → List Read → Connected
  not_opened : Bytes → Connected

unfoldable pub accept_head : Bytes → Upgrade → Connected
unfolding check_upgrade
accept_head want (no_upgrade e) = not_opened e
accept_head want (head_at end head reads) =
    if is_empty (check_upgrade want (take end head))
    then opened (drop (end + 4) head) reads
    else not_opened (check_upgrade want (take end head))

unfoldable pub connect :
    (Bytes → Bytes) → Bytes → (Bytes → Bytes) → Bytes → Bytes → Headers → List Read → Connected
unfolding accept_key_for upgrade_request accept_head read_upgrade base64_encode
connect sha1 random write_error host path extra_headers reads =
    let key = base64_encode random in
    let e = write_error (upgrade_request path host key extra_headers) in
    if not (length random == 16)
    then not_opened (codes "no entropy for Sec-WebSocket-Key")
    else if is_empty e
    then accept_head (accept_key_for sha1 key) (read_upgrade reads [])
    else not_opened e

-- A head that was read stands at the front of the stream, up to its first blank line.
abbrev HeadOf : Bytes → Upgrade → Type 0
HeadOf s (head_at end head reads) =
    (find blank_line head ≡ some end) × (head ++ delivered reads ≡ s)
HeadOf s (no_upgrade e) = Unit

head_stop :
    (head e : Bytes) (reads : List Read) (o : Option ℕ)
    → find blank_line head ≡ o
    → delivered reads ≡ []
    → HeadOf (head ++ []) (elim o [ some end ↦ head_at end head reads | none ↦ no_upgrade e ])
head_stop head e reads none q empty = tt
head_stop head e reads (some end) q empty = (q, ap (λ t. head ++ t) empty)

head_more :
    (s head : Bytes) (reads : List Read) (o : Option ℕ) (large : Bool) (e : Bytes) (later : Upgrade)
    → find blank_line head ≡ o
    → HeadOf ((head ++ s) ++ delivered reads) later
    → HeadOf (head ++ (s ++ delivered reads)) (elim o [
      | some end ↦ head_at end head (received s ∷ reads)
      | none ↦ if large then no_upgrade e else later
    ])
unfolding delivered
head_more s head reads none true e later q ih = tt
head_more s head reads none false e later q ih =
    subst (λ t. HeadOf t later) (append_assoc head s (delivered reads)) ih
head_more s head reads (some end) large e later q ih = (q, refl)

read_upgrade-HeadOf :
    (reads : List Read) (head : Bytes) → HeadOf (head ++ delivered reads) (read_upgrade reads head)
unfolding read_upgrade delivered
read_upgrade-HeadOf [] head = head_stop head _ [] (find blank_line head) refl refl
read_upgrade-HeadOf (closed ∷ reads) head =
    head_stop head _ (closed ∷ reads) (find blank_line head) refl refl
read_upgrade-HeadOf (timed_out ∷ reads) head =
    head_stop head _ (timed_out ∷ reads) (find blank_line head) refl refl
read_upgrade-HeadOf (failed err ∷ reads) head =
    head_stop head _ (failed err ∷ reads) (find blank_line head) refl refl
read_upgrade-HeadOf (received s ∷ reads) head =
    head_more s head reads (find blank_line head) (ltb max_upgrade (length (head ++ s))) _
      (read_upgrade reads (head ++ s)) refl (read_upgrade-HeadOf reads (head ++ s))

-- A head that is accepted: the number behind its first space is 101, and the value of its accept header
-- is `want`.
abbrev pub IsAccepted : Bytes → Bytes → Type 0
IsAccepted want head =
    ((sp : ℕ) × ((find_byte b' ' head ≡ some sp) × (atoi (drop (sp + 1) head) ≡ pos 101)))
    × ((at' : ℕ) × ((find (codes "sec-websocket-accept:") (lower head) ≡ some at')
          × (header_value head at' ≡ want)))

-- What an opened connection leaves: the peer's head was accepted, and every byte behind its blank
-- line is still to come, in `read_buf_` or from the stream.
abbrev pub Keeps : Bytes → Bytes → Connected → Type 0
Keeps want s (opened buf reads) =
    (end : ℕ) × ((find blank_line s ≡ some end)
      × (IsAccepted want (take end s) × (buf ++ delivered reads ≡ drop (end + 4) s)))
Keeps want s (not_opened e) = Unit

eqb_ℤ-101 : (n : ℤ) → eqb_ℤ n (pos 101) ≡ true → n ≡ pos 101
eqb_ℤ-101 n h = ground (arith, h)

status_of-101 :
    (head : Bytes) (o : Option ℕ)
    → find_byte b' ' head ≡ o
    → (elim o [ none ↦ pos 0 | some sp ↦ atoi (drop (sp + 1) head) ]) ≡ pos 101
    → (sp : ℕ) × ((find_byte b' ' head ≡ some sp) × (atoi (drop (sp + 1) head) ≡ pos 101))
status_of-101 head none e h = absurd (ground (arith, h))
status_of-101 head (some sp) e h = (sp, (e, h))

accept_value :
    (want head : Bytes) (o : Option ℕ)
    → find (codes "sec-websocket-accept:") (lower head) ≡ o
    → is_empty (elim o [
      | none ↦ codes "upgrade response missing Sec-WebSocket-Accept"
      | some at' ↦
          if bytes_eq (header_value head at') want
          then []
          else codes "Sec-WebSocket-Accept mismatch"
    ])
      ≡ true
    → (at' : ℕ) × ((find (codes "sec-websocket-accept:") (lower head) ≡ some at')
        × (header_value head at' ≡ want))
accept_value want head none e h = absurd cc
accept_value want head (some at') e h =
    (at', (e, ground (arith, h, bytes_eq_iff (header_value head at') want)))

check_upgrade-IsAccepted :
    (want head : Bytes) → is_empty (check_upgrade want head) ≡ true → IsAccepted want head
unfolding check_upgrade status_of
check_upgrade-IsAccepted want head =
    by_test (λ (e : Bytes). is_empty e ≡ true → IsAccepted want head)
      (eqb_ℤ (status_of head) (pos 101)) _ _
      (λ same ok. (
        status_of-101 head (find_byte b' ' head) refl (eqb_ℤ-101 (status_of head) same),
        accept_value want head (find (codes "sec-websocket-accept:") (lower head)) refl ok,
      ))
      (λ other ok. absurd cc)

accept_head-Keeps : (want s : Bytes) (u : Upgrade) → HeadOf s u → Keeps want s (accept_head want u)
unfolding accept_head
accept_head-Keeps want s (no_upgrade e) h = tt
accept_head-Keeps want s (head_at end head reads) h =
    by_test (Keeps want s) (is_empty (check_upgrade want (take end head))) _ _
      (λ ok. (
        end,
        (
          rw h.1 at (find-append blank_line head (delivered reads) end h.0),
          (
            check_upgrade-IsAccepted want (take end s)
                (ap (λ t. is_empty (check_upgrade want t)) taken ∙ ok),
            dropped,
          ),
        ),
      ))
      (λ bad. tt)
  where
    inside : end + 4 ≤ length head
    inside = find-le blank_line head end h.0

    taken : take end s ≡ take end head
    taken =
        ap (take end) (sym h.1) ∙ take-append_le end head (delivered reads) (omega (arith, inside))

    dropped : drop (end + 4) head ++ delivered reads ≡ drop (end + 4) s
    dropped = sym (drop-append_le (end + 4) head (delivered reads) inside) ∙ ap (drop (end + 4)) h.1

-- When `Client::connect` succeeds, however the response was cut into reads, its head has the number 101
-- behind its first space and an accept header with the value that belongs to the key sent, and no byte
-- behind the head is lost: the first frames stand in `read_buf_`, the others come from the stream.
pub connect-Keeps :
    (sha1 : Bytes → Bytes) (random : Bytes) (write_error : Bytes → Bytes) (host path : Bytes)
    (extra_headers : Headers) (reads : List Read)
    → Keeps
        (accept_key_for sha1 (base64_encode random))
        (delivered reads)
        (connect sha1 random write_error host path extra_headers reads)
unfolding connect
connect-Keeps sha1 random write_error host path extra_headers reads =
    let key = base64_encode random in
    let want = accept_key_for sha1 key in
    let P = Keeps want (delivered reads) in
    let e = write_error (upgrade_request path host key extra_headers) in
    let answer = accept_head want (read_upgrade reads []) in
    by_test P (not (length random == 16)) (not_opened (codes "no entropy for Sec-WebSocket-Key"))
      (if is_empty e then answer else not_opened e) (λ none. tt)
      (λ enough.
        by_test P (is_empty e) answer (not_opened e)
          (λ sent.
            accept_head-Keeps want (delivered reads) (read_upgrade reads [])
              (read_upgrade-HeadOf reads []))
          (λ broken. tt))
