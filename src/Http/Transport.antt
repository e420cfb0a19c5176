-- ===== src/Http/Transport.antt =====
-- src/http.cpp: `Socket::send_all`, `Socket::recv_some` and the two transports' `read`.
use haiku_mgmt_agent.Prelude.{
  ℕ, zero, suc, ◌≡◌, refl, ap, ◌∙◌, List, [], ◌∷◌, ◌++◌, take, drop, append_assoc, take-append-drop,
}
use haiku_mgmt_agent.Prelude.Text.{Bytes, codes}

-- What one `::recv` returns: bytes (none at the end of the stream), or -1 with its `errno`.
pub data Recv : Type 0 where
  got : Bytes → Recv
  interrupted : Recv
  would_block : Recv
  broken : Bytes → Recv

-- What `Transport::read` returns: bytes, 0, -2, or -1 with the text of `err`.
pub data Read : Type 0 where
  received : Bytes → Read
  closed : Read
  timed_out : Read
  failed : Bytes → Read

unfoldable pub of_count : Bytes → Read
of_count [] = closed
of_count (c ∷ s) = received (c ∷ s)

-- One call on the results the system gives in turn, and the results that are left. A peer that sends
-- nothing any more has closed.
unfoldable pub recv_some : List Recv → Read × List Recv
unfolding of_count
recv_some [] = (closed, [])
recv_some (got s ∷ rest) = (of_count s, rest)
recv_some (interrupted ∷ rest) = recv_some rest
recv_some (would_block ∷ rest) = (timed_out, rest)
recv_some (broken e ∷ rest) = (failed (codes "recv: " ++ e), rest)

-- What one `mbedtls_ssl_read` returns.
pub data SslRead : Type 0 where
  plain : Bytes → SslRead
  want_read want_write : SslRead
  close_notify : SslRead
  ssl_timeout : SslRead
  ssl_error : Bytes → SslRead

unfoldable pub tls_read : List SslRead → Read × List SslRead
unfolding of_count
tls_read [] = (closed, [])
tls_read (plain s ∷ rest) = (of_count s, rest)
tls_read (want_read ∷ rest) = tls_read rest
tls_read (want_write ∷ rest) = tls_read rest
tls_read (close_notify ∷ rest) = (closed, rest)
tls_read (ssl_timeout ∷ rest) = (timed_out, rest)
tls_read (ssl_error e ∷ rest) = (failed (codes "ssl_read: " ++ e), rest)

-- What one `::send` returns: the number of bytes it took, none, or -1.
pub data Send : Type 0 where
  took : ℕ → Send
  send_interrupted : Send
  send_broken : Bytes → Send

-- `send_all` returned true, returned false with `err`, or has not returned.
pub data Sent : Type 0 where
  all_sent : Sent
  send_failed : Bytes → Sent
  sending : Sent

-- The loop on the bytes left: how it ended, what the socket took, and what it did not take.
unfoldable pub send_all : List Send → Bytes → Sent × Bytes × Bytes
send_all sends [] = (all_sent, [], [])
send_all [] (c ∷ s) = (sending, [], c ∷ s)
send_all (took zero ∷ sends) (c ∷ s) = (send_failed (codes "send: "), [], c ∷ s)
send_all (took (suc n) ∷ sends) (c ∷ s) =
    let (how, sent, left) = send_all sends (drop n s) in (how, c ∷ (take n s ++ sent), left)
send_all (send_interrupted ∷ sends) (c ∷ s) = send_all sends (c ∷ s)
send_all (send_broken e ∷ sends) (c ∷ s) = (send_failed (codes "send: " ++ e), [], c ∷ s)

-- What the loop must leave behind for the way it ended.
abbrev pub SentAll : Sent → Bytes → Type 0
SentAll all_sent left = left ≡ []
SentAll _ left = Unit

-- Whatever counts and interruptions the system answers with, the bytes the socket took, followed by
-- those it did not take, are the data in its order; and none is left where `send_all` returned true.
pub send_all_in_order :
    (sends : List Send) (data' : Bytes)
    → ((send_all sends data').1 ++ (send_all sends data').2 ≡ data')
      × SentAll (send_all sends data').0 (send_all sends data').2
unfolding send_all
send_all_in_order [] [] = (refl, refl)
send_all_in_order (r ∷ sends) [] = (refl, refl)
send_all_in_order [] (c ∷ s) = (refl, tt)
send_all_in_order (took zero ∷ sends) (c ∷ s) = (refl, tt)
send_all_in_order (took (suc n) ∷ sends) (c ∷ s) =
    let ih = send_all_in_order sends (drop n s) in
    (
      ap (◌∷◌ c) (
          append_assoc (take n s) (send_all sends (drop n s)).1 (send_all sends (drop n s)).2
          ∙ (ap (λ t. take n s ++ t) ih.0 ∙ take-append-drop n s)),
      ih.1,
    )
send_all_in_order (send_interrupted ∷ sends) (c ∷ s) = send_all_in_order sends (c ∷ s)
send_all_in_order (send_broken e ∷ sends) (c ∷ s) = (refl, tt)
