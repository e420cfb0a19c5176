-- ===== src/Ws/Client.antt =====
-- src/websocket.cpp: `Client::send`, `Client::recv` and `Client::close`.
pub mod Messages
pub mod Returns
use haiku_mgmt_agent.Prelude.{
  ℕ, zero, suc, ◌+◌, Bool, true, false, not, List, [], ◌∷◌, ◌++◌, if◌then◌else◌, ◌==◌, length,
  replicate,
}
use haiku_mgmt_agent.Prelude.Text.{Bytes, is_empty, codes}
use haiku_mgmt_agent.Http.Transport.{Read, received, closed, timed_out, failed}
use haiku_mgmt_agent.Http.Head.{or_else}
use haiku_mgmt_agent.Http.Body.{arriving}
use haiku_mgmt_agent.Ws.Frame.{
  make_frame, FrameError, Parsed, need_more, protocol_error, frame, parse_frame,
}

abbrev pub op_close : ℕ
op_close = 0x8

abbrev pub op_ping : ℕ
op_ping = 0x9

abbrev pub op_pong : ℕ
op_pong = 0xA

-- `sent` holds the frames given to the stream, oldest first.
pub record Client : Type 0 where
  pub is_open : Bool
  pub read_buf : Bytes
  pub frag_opcode : ℕ
  pub frag_payload : Bytes
  pub sent : List Bytes

-- For the n-th frame that is sent: what `random_bytes(4)` gives, and the error of the stream's write.
pub record Link : Type 0 where
  pub random : ℕ → Bytes
  pub write : ℕ → Bytes → Bytes

-- `mask.assign(4, '\x5a')` without randomness.
unfoldable pub mask_of : Bytes → Bytes
mask_of random = if length random == 4 then random else replicate 4 0x5a

-- The client behind the call, and the error; empty when it returns true.
unfoldable pub send : Link → ℕ → Bytes → Client → Client × Bytes
unfolding mask_of
send link opcode payload c =
    let n = length c.sent in
    let f = make_frame opcode payload (mask_of (link.random n)) in
    let after = record c { sent = c.sent ++ (f ∷ []) } in
    if not c.is_open
    then (c, codes "websocket not open")
    else if is_empty (link.write n f)
    then (after, [])
    else (record after { is_open = false }, link.write n f)

-- What `recv` returns: 1 with the message, 0, or -1 with the error.
pub data Received : Type 0 where
  message : ℕ → Bytes → Received
  nothing_yet : Received
  parse_failed : FrameError → Received
  recv_failed : Bytes → Received
  unfinished : Received

abbrev pub Outcome : Type 0
Outcome = Received × (List Read × Client)

-- The `switch` on a frame: `again` is the loop on the client it leaves.
unfoldable pub on_frame :
    Link → (Client → Outcome) → List Read → Bool → ℕ → Bytes → Client → Outcome
unfolding send
on_frame link again reads fin opcode payload c =
    let close = (send link op_close payload c).0 in
    let whole = c.frag_payload ++ payload in
    if opcode == op_ping
    then again (send link op_pong payload c).0
    else if opcode == op_pong
    then again c
    else if opcode == op_close
    then (recv_failed (codes "close frame received"), (reads, record close { is_open = false }))
    else if opcode == 0
    then (if fin
        then (message c.frag_opcode whole, (reads, record c { frag_payload = []; frag_opcode = 0 }))
        else again (record c { frag_payload = whole }))
    else if fin
    then (message opcode payload, (reads, c))
    else again (record c { frag_opcode = opcode; frag_payload = payload })

-- More bytes for the buffer, where no frame is whole; `again` is the loop.
unfoldable pub on_read : (List Read → Client → Outcome) → List Read → Client → Outcome
on_read again [] c = (recv_failed (codes "connection closed"), ([], record c { is_open = false }))
on_read again (closed ∷ more) c =
    (recv_failed (codes "connection closed"), (more, record c { is_open = false }))
on_read again (timed_out ∷ more) c = (nothing_yet, (more, c))
on_read again (failed err ∷ more) c =
    (recv_failed (or_else err (codes "connection closed")), (more, record c { is_open = false }))
on_read again (received chunk ∷ more) c = again more (record c { read_buf = c.read_buf ++ chunk })

unfoldable pub on_parsed :
    Link → (List Read → Client → Outcome) → List Read → Client → Parsed → Outcome
unfolding on_frame on_read
on_parsed link again reads c need_more = on_read again reads c
on_parsed link again reads c (protocol_error e) =
    (parse_failed e, (reads, record c { is_open = false }))
on_parsed link again reads c (frame fin opcode payload rest) =
    on_frame link (again reads) reads fin opcode payload (record c { read_buf = rest })

-- Every round takes a read, or two bytes at least off the buffer.
unfoldable pub recv_loop : Link → ℕ → List Read → Client → Outcome
unfolding on_parsed
recv_loop link zero reads c = (unfinished, (reads, c))
recv_loop link (suc fuel) reads c =
    on_parsed link (recv_loop link fuel) reads c (parse_frame c.read_buf)

-- As much fuel as there are reads and bytes, and one.
abbrev pub enough : List Read → Client → ℕ
enough reads c = length c.read_buf + arriving reads + length reads + 1

unfoldable pub recv : Link → List Read → Client → Outcome
unfolding recv_loop arriving
recv link reads c =
    if c.is_open
    then recv_loop link (enough reads c) reads c
    else (recv_failed (codes "websocket not open"), (reads, c))

unfoldable pub close : Link → Client → Client
unfolding send
close link c =
    let told = if c.is_open then (send link op_close (0x03 ∷ 0xe8 ∷ []) c).0 else c in
    record told { is_open = false; read_buf = []; frag_payload = [] }
