-- ===== src/Ws/Client/Messages.antt =====
-- What `Client::recv` makes of the frames that stand in its buffer.
use haiku_mgmt_agent.Prelude.{
  ℕ, zero, suc, ◌+◌, ◌≤◌, ◌<◌, ◌≡◌, refl, ap, ◌∙◌, sym, arith, Bool, true, false, List, [], ◌∷◌,
  ◌++◌, ◌==◌, length, append_assoc, append-nil, length-append, ◌≢◌, if_true,
}
use haiku_mgmt_agent.Prelude.Text.{Bytes}
use haiku_mgmt_agent.Http.Transport.{Read}
use haiku_mgmt_agent.Http.Body.{arriving}
use haiku_mgmt_agent.Ws.Frame.{make_frame, frame, parse_frame}
use haiku_mgmt_agent.Ws.Stream.{parse_frame_takes}
use haiku_mgmt_agent.Ws.Client.{
  op_ping, op_pong, Client, Link, mask_of, send, message, Outcome, on_frame, on_parsed, recv_loop,
  enough, recv,
}

-- The frames inside a fragmented message: a ping, a pong, or another fragment.
pub data Inner : Type 0 where
  ping : Bytes → Inner
  pong : Bytes → Inner
  fragment : Bytes → Inner

-- `Holds buf inner last rest`: the buffer starts with these frames, the last of them the final fragment,
-- and goes on with `rest`.
pub data Holds : Bytes → List Inner → Bytes → Bytes → Type 0 where
  final :
      {buf last rest : Bytes} → parse_frame buf ≡ frame true 0 last rest → Holds buf [] last rest
  then_ping :
      {buf p next last rest : Bytes} {inner : List Inner} {fin : Bool}
      → parse_frame buf ≡ frame fin op_ping p next
      → Holds next inner last rest
      → Holds buf (ping p ∷ inner) last rest
  then_pong :
      {buf p next last rest : Bytes} {inner : List Inner} {fin : Bool}
      → parse_frame buf ≡ frame fin op_pong p next
      → Holds next inner last rest
      → Holds buf (pong p ∷ inner) last rest
  then_fragment :
      {buf p next last rest : Bytes} {inner : List Inner}
      → parse_frame buf ≡ frame false 0 p next
      → Holds next inner last rest
      → Holds buf (fragment p ∷ inner) last rest

-- The payload of the fragments in their order.
abbrev pub payload_of : List Inner → Bytes
payload_of [] = []
payload_of (ping p ∷ inner) = payload_of inner
payload_of (pong p ∷ inner) = payload_of inner
payload_of (fragment p ∷ inner) = p ++ payload_of inner

-- The pongs for the pings, from the n-th frame that is sent on.
abbrev pub pongs_for : Link → ℕ → List Inner → List Bytes
pongs_for link n [] = []
pongs_for link n (ping p ∷ inner) =
    make_frame op_pong p (mask_of (link.random n)) ∷ pongs_for link (n + 1) inner
pongs_for link n (pong p ∷ inner) = pongs_for link n inner
pongs_for link n (fragment p ∷ inner) = pongs_for link n inner

abbrev pub Writes : Link → Type 0
Writes link = (n : ℕ) (f : Bytes) → link.write n f ≡ []

-- The client once the message is delivered.
abbrev pub delivered_to : Link → List Inner → Bytes → Client → Client
delivered_to link inner rest c = record {
  is_open = c.is_open;
  read_buf = rest;
  frag_opcode = 0;
  frag_payload = [];
  sent = c.sent ++ pongs_for link (length c.sent) inner;
}

send-open :
    (link : Link) (opcode : ℕ) (p : Bytes) (c : Client)
    → Writes link
    → c.is_open ≡ true
    → (send link opcode p c).0 ≡ record c {
      sent = c.sent ++ (make_frame opcode p (mask_of (link.random (length c.sent))) ∷ []);
    }
unfolding send
send-open link opcode p c writes here =
    rw (here, writes (length c.sent) (make_frame opcode p (mask_of (link.random (length c.sent)))))
      refl

recv_loop-frame :
    (link : Link) (fuel : ℕ) (reads : List Read) (c : Client) {fin : Bool} {op : ℕ} {p rest : Bytes}
    → parse_frame c.read_buf ≡ frame fin op p rest
    → recv_loop link (suc fuel) reads c
      ≡ on_frame link (recv_loop link fuel reads) reads fin op p (record c { read_buf = rest })
unfolding recv_loop on_parsed
recv_loop-frame link fuel reads c e = ap (on_parsed link (recv_loop link fuel) reads c) e

recv_loop-Holds :
    (link : Link) (fuel : ℕ) (reads : List Read) (c : Client) (inner : List Inner)
    (last rest : Bytes)
    → Writes link
    → c.is_open ≡ true
    → length c.read_buf < fuel
    → Holds c.read_buf inner last rest
    → recv_loop link fuel reads c ≡ (
      message c.frag_opcode (c.frag_payload ++ (payload_of inner ++ last)),
      (reads, delivered_to link inner rest c),
    )
unfolding on_frame
recv_loop-Holds link zero reads c inner last rest writes here h q = absurd (omega arith)
recv_loop-Holds link (suc fuel) reads c inner last rest writes here h (final e) =
    recv_loop-frame link fuel reads c e
    ∙ ap
        (λ t. (
          message c.frag_opcode (c.frag_payload ++ last),
          (reads, record c { read_buf = rest; frag_opcode = 0; frag_payload = []; sent = t }),
        ))
        (sym (append-nil c.sent))
recv_loop-Holds link (suc fuel) reads c inner last rest writes here h
      (then_pong {next = next} e q) =
    recv_loop-frame link fuel reads c e
    ∙ recv_loop-Holds link fuel reads (record c { read_buf = next }) _ last rest writes here
        (omega (arith, h, parse_frame_takes c.read_buf e)) q
recv_loop-Holds link (suc fuel) reads c inner last rest writes here h
      (then_fragment {p = p} {next = next} {inner = more} e q) =
    recv_loop-frame link fuel reads c e
    ∙ (recv_loop-Holds link fuel reads
          (record c { read_buf = next; frag_payload = c.frag_payload ++ p }) more last rest writes
          here (omega (arith, h, parse_frame_takes c.read_buf e)) q
        ∙ ap (λ t. (message c.frag_opcode t, (reads, delivered_to link more rest c)))
            (append_assoc c.frag_payload p (payload_of more ++ last)
              ∙ ap (λ t. c.frag_payload ++ t) (sym (append_assoc p (payload_of more) last))))
recv_loop-Holds link (suc fuel) reads c inner last rest writes here h
      (then_ping {p = p} {next = next} {inner = more} e q) =
    let d : Client = record c { read_buf = next } in
    let answer = make_frame op_pong p (mask_of (link.random (length c.sent))) in
    recv_loop-frame link fuel reads c e
    ∙ (ap (recv_loop link fuel reads) (send-open link op_pong p d writes here)
        ∙ (recv_loop-Holds link fuel reads (record d { sent = c.sent ++ (answer ∷ []) }) more last
              rest writes here (omega (arith, h, parse_frame_takes c.read_buf e)) q
            ∙ ap
                (λ t. (
                  message c.frag_opcode (c.frag_payload ++ (payload_of more ++ last)),
                  (
                    reads,
                    record c { read_buf = rest; frag_opcode = 0; frag_payload = []; sent = t },
                  ),
                ))
                (append_assoc c.sent (answer ∷ [])
                    (pongs_for link (length (c.sent ++ (answer ∷ []))) more)
                  ∙ ap (λ k. c.sent ++ (answer ∷ pongs_for link k more))
                      (length-append c.sent (answer ∷ [])))))

on_frame-first :
    (link : Link) (again : Client → Outcome) (reads : List Read) (op : ℕ) (p : Bytes) (c : Client)
    → 1 ≤ op
    → op < 8
    → on_frame link again reads false op p c
      ≡ again (record c { frag_opcode = op; frag_payload = p })
unfolding on_frame
on_frame-first link again reads op p c lo hi =
    rw
      (
        is_not 9 (omega arith),
        is_not 10 (omega arith),
        is_not 8 (omega arith),
        is_not 0 (omega arith),
      )
      refl
  where
    is_not : (n : ℕ) → op ≢ n → (op == n) ≡ false
    is_not n h = ground (arith, h)

-- When the buffer holds the first fragment of a text or binary message (or of a data opcode that is
-- reserved), then any pings, pongs and fragments, and then the final fragment, `Client::recv` delivers the
-- message with the first frame's opcode and all payloads joined in order, answers every ping by a pong
-- with its payload, in order, and leaves the bytes behind the last frame in the buffer, provided that
-- the stream takes every write.
pub recv_joins :
    (link : Link) (reads : List Read) (c : Client) (op : ℕ) (first next : Bytes)
    (inner : List Inner) (last rest : Bytes)
    → Writes link
    → c.is_open ≡ true
    → 1 ≤ op
    → op < 8
    → parse_frame c.read_buf ≡ frame false op first next
    → Holds next inner last rest
    → recv link reads c
      ≡ (message op (first ++ (payload_of inner ++ last)), (reads, delivered_to link inner rest c))
unfolding recv
recv_joins link reads c op first next inner last rest writes here lo hi e q =
    let fuel = length c.read_buf + arriving reads + length reads in
    let started : Client = record c { read_buf = next; frag_opcode = op; frag_payload = first } in
    if_true c.is_open _ _ here
    ∙ (ap (λ n. recv_loop link n reads c) one_more
        ∙ (recv_loop-frame link fuel reads c e
            ∙ (on_frame-first link (recv_loop link fuel reads) reads op first
                  (record c { read_buf = next }) lo hi
                ∙ recv_loop-Holds link fuel reads started inner last rest writes here
                    (omega (arith, parse_frame_takes c.read_buf e)) q)))
  where
    one_more : enough reads c ≡ suc (length c.read_buf + arriving reads + length reads)
    one_more = omega arith
