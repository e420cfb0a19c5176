-- ===== src/Ws/Client/Returns.antt =====
-- `Client::recv` returns on every finite run of reads.
use haiku_mgmt_agent.Prelude.{
  ℕ, zero, suc, ◌+◌, ◌<◌, ◌≡◌, refl, ap, arith, Bool, not, List, [], ◌∷◌, ◌++◌, ◌==◌, length,
  by_test, length-append,
}
use haiku_mgmt_agent.Prelude.Text.{Bytes, is_empty}
use haiku_mgmt_agent.Http.Transport.{Read, received, closed, timed_out, failed}
use haiku_mgmt_agent.Http.Body.{arriving}
use haiku_mgmt_agent.Ws.Frame.{Parsed, need_more, protocol_error, frame, parse_frame}
use haiku_mgmt_agent.Ws.Stream.{parse_frame_takes}
use haiku_mgmt_agent.Ws.Client.{
  op_ping, op_pong, op_close, Client, Link, send, Received, unfinished, Outcome, on_frame, on_read,
  on_parsed, recv_loop, enough, recv,
}

abbrev pub HasReturned : Received → Type 0
HasReturned unfinished = ⊥
HasReturned _ = Unit

send-read_buf :
    (link : Link) (op : ℕ) (p : Bytes) (c : Client) → (send link op p c).0.read_buf ≡ c.read_buf
unfolding send
send-read_buf link op p c =
    let P = λ (r : Client × Bytes). r.0.read_buf ≡ c.read_buf in
    by_test P (not c.is_open) _ _ (λ shut. refl)
      (λ here. by_test P (is_empty (link.write (length c.sent) _)) _ _ (λ ok. refl) (λ bad. refl))

on_frame_returns :
    (link : Link) (again : Client → Outcome) (reads : List Read) (fin : Bool) (op : ℕ) (p : Bytes)
    (c : Client)
    → ((d : Client) → d.read_buf ≡ c.read_buf → HasReturned (again d).0)
    → HasReturned (on_frame link again reads fin op p c).0
unfolding on_frame
on_frame_returns link again reads fin op p c ih =
    let P = λ (o : Outcome). HasReturned o.0 in
    by_test P (op == op_ping) _ _
      (λ ping. ih (send link op_pong p c).0 (send-read_buf link op_pong p c))
      (λ k1.
        by_test P (op == op_pong) _ _ (λ pong. ih c refl)
          (λ k2.
            by_test P (op == op_close) _ _ (λ close. tt)
              (λ k3.
                by_test P (op == 0) _ _
                  (λ more. by_test P fin _ _ (λ whole. tt) (λ part. ih _ refl))
                  (λ data'. by_test P fin _ _ (λ whole. tt) (λ part. ih _ refl)))))

on_read_returns :
    (link : Link) (fuel : ℕ) (reads : List Read) (c : Client)
    → length c.read_buf + arriving reads + length reads < suc fuel
    → ((rest : List Read) (d : Client)
        → length d.read_buf + arriving rest + length rest < fuel
        → HasReturned (recv_loop link fuel rest d).0)
    → HasReturned (on_read (recv_loop link fuel) reads c).0
unfolding on_read arriving
on_read_returns link fuel [] c h ih = tt
on_read_returns link fuel (closed ∷ more) c h ih = tt
on_read_returns link fuel (timed_out ∷ more) c h ih = tt
on_read_returns link fuel (failed err ∷ more) c h ih = tt
on_read_returns link fuel (received s ∷ more) c h ih =
    ih more (record c { read_buf = c.read_buf ++ s }) (omega (arith, h, length-append c.read_buf s))

on_parsed_returns :
    (link : Link) (fuel : ℕ) (reads : List Read) (c : Client) (r : Parsed)
    → parse_frame c.read_buf ≡ r
    → length c.read_buf + arriving reads + length reads < suc fuel
    → ((rest : List Read) (d : Client)
        → length d.read_buf + arriving rest + length rest < fuel
        → HasReturned (recv_loop link fuel rest d).0)
    → HasReturned (on_parsed link (recv_loop link fuel) reads c r).0
unfolding on_parsed
on_parsed_returns link fuel reads c need_more e h ih = on_read_returns link fuel reads c h ih
on_parsed_returns link fuel reads c (protocol_error w) e h ih = tt
on_parsed_returns link fuel reads c (frame fin op p rest) e h ih =
    on_frame_returns link (recv_loop link fuel reads) reads fin op p (record c { read_buf = rest })
      (λ d same. ih reads d (omega (arith, h, ap length same, parse_frame_takes c.read_buf e)))

recv_loop_returns :
    (link : Link) (fuel : ℕ) (reads : List Read) (c : Client)
    → length c.read_buf + arriving reads + length reads < fuel
    → HasReturned (recv_loop link fuel reads c).0
unfolding recv_loop
recv_loop_returns link zero reads c h = absurd (omega arith)
recv_loop_returns link (suc fuel) reads c h =
    on_parsed_returns link fuel reads c (parse_frame c.read_buf) refl h
      (recv_loop_returns link fuel)

-- `Client::recv` returns in every state of the client on every finite run of reads, behind which the
-- connection is at its end, whatever bytes the reads carry and however these are cut: every round takes
-- a read or a whole frame. While a peer goes on sending pings or fragments without end, it does not
-- return, and that is no such run.
pub recv_returns :
    (link : Link) (reads : List Read) (c : Client) → HasReturned (recv link reads c).0
unfolding recv
recv_returns link reads c =
    by_test (λ (o : Outcome). HasReturned o.0) c.is_open (recv_loop link (enough reads c) reads c) _
      (λ here. recv_loop_returns link (enough reads c) reads c (omega arith)) (λ shut. tt)
