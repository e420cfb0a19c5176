-- ===== src/Tests/Network.antt =====
-- Runs of the HTTP client and the WebSocket client.
use haiku_mgmt_agent.Prelude.{
  ℕ, ◌+◌, ◌≤◌, ◌<◌, ◌≡◌, refl, arith, Bool, true, false, Option, none, some, List, [], ◌∷◌, ◌++◌,
}
use haiku_mgmt_agent.Prelude.Text.{Bytes, codes}
use haiku_mgmt_agent.Util.Number.{strtoul}
use haiku_mgmt_agent.Util.Codec.{base64_encode}
use haiku_mgmt_agent.Http.{Request}
use haiku_mgmt_agent.Http.Transport.{
  Read, received, took, send_interrupted, send_broken, send_all, SentAll, send_all_in_order,
}
use haiku_mgmt_agent.Http.Head.{Headers}
use haiku_mgmt_agent.Http.Body.{Disk, Flow, ended, read_body}
use haiku_mgmt_agent.Http.Body.Spec.{delivered, ending, Decoded, decode_body}
use haiku_mgmt_agent.Http.Body.Cuts.{IsSound, wrote}
use haiku_mgmt_agent.Http.Body.Decode.{outcome, read_body-decode_body, read_body_returns}
use haiku_mgmt_agent.Http.Perform.{World, connected}
use haiku_mgmt_agent.Ws.Frame.{frame, parse_frame}
use haiku_mgmt_agent.Ws.Upgrade.{accept_key_for, connect, Keeps, connect-Keeps}
use haiku_mgmt_agent.Ws.Client.{Client, Link, message, recv}
use haiku_mgmt_agent.Ws.Client.Messages.{
  ping, Holds, final, then_ping, payload_of, delivered_to, recv_joins,
}
use haiku_mgmt_agent.Ws.Client.Returns.{HasReturned, recv_returns}

abbrev disk : Disk
disk = record {
  opens = λ path. true;
  takes = λ written s. true;
  flushes = λ written. true;
  strerror = [];
}

disk-IsSound : IsSound disk
disk-IsSound = (λ written s. refl, λ written. refl)

abbrev chunked : Headers
chunked = (codes "transfer-encoding", codes "Chunked") ∷ []

-- The body "abc" in one chunk, cut inside the chunk and inside its line.
abbrev flow : Flow
flow = record {
  pending = codes "3\r\na";
  reads = received (codes "bc\r") ∷ received (codes "\n0") ∷ received (codes "\r\n\r\n") ∷ [];
  sink = record { to_file = false; failed = false; written = [] };
}

read_body-decode_body_example :
    read_body disk chunked flow
    ≡ outcome flow.sink
        (decode_body chunked (flow.pending ++ delivered flow.reads) (ending flow.reads))
read_body-decode_body_example = read_body-decode_body disk chunked flow disk-IsSound refl

read_body_returns_example :
    (d : Decoded) × (read_body disk chunked flow ≡ ended (wrote flow.sink d.0) d.1)
read_body_returns_example = read_body_returns disk chunked flow disk-IsSound refl

decoded : decode_body chunked (codes "3\r\nabc\r\n0\r\n\r\n") [] ≡ some (codes "abc", [])
unfolding decode_body haiku_mgmt_agent.Prelude.Text.bytes_eq haiku_mgmt_agent.Util.Text.lower
    strtoul haiku_mgmt_agent.Util.Number.digits_at haiku_mgmt_agent.Util.Number.skip_prefix
    haiku_mgmt_agent.Util.Number.take_sign haiku_mgmt_agent.Util.Number.skip_spaces
    haiku_mgmt_agent.Util.Number.is_space haiku_mgmt_agent.Util.Number.digit_value
decoded = refl

cut_short : decode_body chunked (codes "3\r\nab") [] ≡ some (codes "ab", codes "truncated chunk")
unfolding decode_body haiku_mgmt_agent.Prelude.Text.bytes_eq haiku_mgmt_agent.Util.Text.lower
    strtoul haiku_mgmt_agent.Util.Number.digits_at haiku_mgmt_agent.Util.Number.skip_prefix
    haiku_mgmt_agent.Util.Number.take_sign haiku_mgmt_agent.Util.Number.skip_spaces
    haiku_mgmt_agent.Util.Number.is_space haiku_mgmt_agent.Util.Number.digit_value
cut_short = refl

send_all_in_order_example :
    ((send_all
          (took 2 ∷ send_interrupted ∷ took 2 ∷ send_broken (codes "e") ∷ [])
          (codes "hello")).1
        ++ (send_all
            (took 2 ∷ send_interrupted ∷ took 2 ∷ send_broken (codes "e") ∷ [])
            (codes "hello")).2
      ≡ codes "hello")
    × SentAll
        (send_all
          (took 2 ∷ send_interrupted ∷ took 2 ∷ send_broken (codes "e") ∷ [])
          (codes "hello")).0
        (send_all
          (took 2 ∷ send_interrupted ∷ took 2 ∷ send_broken (codes "e") ∷ [])
          (codes "hello")).2
send_all_in_order_example =
    send_all_in_order (took 2 ∷ send_interrupted ∷ took 2 ∷ send_broken (codes "e") ∷ [])
      (codes "hello")

abbrev request : Request
request = record {
  method = codes "GET";
  tls = false;
  host = codes "h";
  port = 0;
  path = codes "/";
  headers = [];
  body = [];
  body_path = [];
  sink_path = [];
}

abbrev world : World
world = record {
  resolve = λ host port. some (connected ∷ []);
  reason = [];
  handshake = λ host. [];
  write = λ n s. [];
  file_size = λ path. none;
  file_opens = λ path. false;
  file_pieces = λ path. [];
  file_broken = λ path. false;
  reads =
      received (codes "HTTP/1.1 200 OK\r\nContent-Le")
      ∷ received (codes "ngth: 2\r\n\r\no")
      ∷ received (codes "k")
      ∷ [];
  disk = disk;
}

-- The digest plays no part in what is shown here, so it is left out.
abbrev no_digest : Bytes → Bytes
no_digest s = []

abbrev random : Bytes
random = 1 ∷ 2 ∷ 3 ∷ 4 ∷ 5 ∷ 6 ∷ 7 ∷ 8 ∷ 9 ∷ 10 ∷ 11 ∷ 12 ∷ 13 ∷ 14 ∷ 15 ∷ 16 ∷ []

abbrev upgraded : List Read
upgraded =
    received (codes "HTTP/1.1 101 Switching\r\nSec-WebSocket-Accept: \r\n")
    ∷ received (codes "\r\nab")
    ∷ received (codes "cd")
    ∷ []

connect-Keeps_example :
    Keeps
      (accept_key_for no_digest (base64_encode random))
      (delivered upgraded)
      (connect no_digest random (λ s. []) (codes "h") (codes "/") [] upgraded)
connect-Keeps_example = connect-Keeps no_digest random (λ s. []) (codes "h") (codes "/") [] upgraded

abbrev link : Link
link = record { random = λ n. []; write = λ n s. [] }

-- "hi" as the first fragment of a text message, a ping, and the final fragment "!".
abbrev client : Client
client = record {
  is_open = true;
  read_buf = 0x01 ∷ 2 ∷ b'h' ∷ b'i' ∷ 0x89 ∷ 1 ∷ b'x' ∷ 0x80 ∷ 1 ∷ b'!' ∷ 0x82 ∷ [];
  frag_opcode = 0;
  frag_payload = [];
  sent = [];
}

first_frame :
    parse_frame client.read_buf
    ≡ frame false 1 (codes "hi") (0x89 ∷ 1 ∷ b'x' ∷ 0x80 ∷ 1 ∷ b'!' ∷ 0x82 ∷ [])
unfolding parse_frame haiku_mgmt_agent.Ws.Frame.read_sized haiku_mgmt_agent.Ws.Frame.frame_length
first_frame = refl

ping_frame :
    parse_frame (0x89 ∷ 1 ∷ b'x' ∷ 0x80 ∷ 1 ∷ b'!' ∷ 0x82 ∷ [])
    ≡ frame true 0x9 (codes "x") (0x80 ∷ 1 ∷ b'!' ∷ 0x82 ∷ [])
unfolding parse_frame haiku_mgmt_agent.Ws.Frame.read_sized haiku_mgmt_agent.Ws.Frame.frame_length
ping_frame = refl

last_frame : parse_frame (0x80 ∷ 1 ∷ b'!' ∷ 0x82 ∷ []) ≡ frame true 0 (codes "!") (0x82 ∷ [])
unfolding parse_frame haiku_mgmt_agent.Ws.Frame.read_sized haiku_mgmt_agent.Ws.Frame.frame_length
last_frame = refl

other_frames :
    Holds
      (0x89 ∷ 1 ∷ b'x' ∷ 0x80 ∷ 1 ∷ b'!' ∷ 0x82 ∷ [])
      (ping (codes "x") ∷ [])
      (codes "!")
      (0x82 ∷ [])
other_frames = then_ping ping_frame (final last_frame)

recv_joins_example : recv link [] client ≡ (
  message 1 (codes "hi" ++ (payload_of (ping (codes "x") ∷ []) ++ codes "!")),
  ([], delivered_to link (ping (codes "x") ∷ []) (0x82 ∷ []) client),
)
recv_joins_example =
    recv_joins link [] client 1 (codes "hi") (0x89 ∷ 1 ∷ b'x' ∷ 0x80 ∷ 1 ∷ b'!' ∷ 0x82 ∷ [])
      (ping (codes "x") ∷ []) (codes "!") (0x82 ∷ []) (λ n s. refl) refl (omega arith) (omega arith)
      first_frame other_frames

recv_returns_example : HasReturned (recv link [] client).0
recv_returns_example = recv_returns link [] client

-- A size line that is no number counts as the last chunk.
no_size : decode_body chunked (codes "oops\r\nabc\r\n0\r\n\r\n") [] ≡ some ([], [])
unfolding decode_body haiku_mgmt_agent.Prelude.Text.bytes_eq haiku_mgmt_agent.Util.Text.lower
    strtoul haiku_mgmt_agent.Util.Number.digits_at haiku_mgmt_agent.Util.Number.skip_prefix
    haiku_mgmt_agent.Util.Number.take_sign haiku_mgmt_agent.Util.Number.skip_spaces
    haiku_mgmt_agent.Util.Number.is_space haiku_mgmt_agent.Util.Number.digit_value
no_size = refl
