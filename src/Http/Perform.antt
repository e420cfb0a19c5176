-- ===== src/Http/Perform.antt =====
-- src/http.cpp: `Socket::connect`, `perform`, and `Stream`.
pub mod Complete
use haiku_mgmt_agent.Prelude.{
  ℕ, suc, ◌+◌, Bool, true, false, not, ◌&&◌, ◌||◌, Option, none, some, List, [], ◌∷◌, ◌++◌,
  if◌then◌else◌, ltb, ◌==◌, length,
}
use haiku_mgmt_agent.Prelude.Int.{ℤ, pos, leb_ℤ, ltb_ℤ}
use haiku_mgmt_agent.Prelude.Text.{Bytes, is_empty, bytes_eq, codes, decimal}
use haiku_mgmt_agent.Util.Text.{lower}
use haiku_mgmt_agent.Http.{Request, Response}
use haiku_mgmt_agent.Http.Transport.{Read}
use haiku_mgmt_agent.Http.Head.{
  Headers, or_else, HeadersRead, headers_read, headers_failed, read_headers,
}
use haiku_mgmt_agent.Http.Body.{
  Disk, Sink, Appended, open_sink, Flow, Moved, moved, ended, unfinished, read_body,
}

-- What the system says to one resolved address.
pub data Attempt : Type 0 where
  no_socket : Bytes → Attempt
  refused : Bytes → Attempt
  connected : Attempt

-- The loop over the addresses: whether one took the connection, and `last`.
unfoldable pub try_addresses : List Attempt → Bytes → Bool × Bytes
try_addresses [] last = (false, last)
try_addresses (no_socket e ∷ more) last = try_addresses more (codes "socket: " ++ e)
try_addresses (refused e ∷ more) last = try_addresses more (codes "connect: " ++ e)
try_addresses (connected ∷ more) last = (true, last)

-- `Socket::connect`: the error, empty when it returns true; `none` when `getaddrinfo` found no address.
unfoldable pub connect : Bytes → Bytes → Option (List Attempt) → Bytes
unfolding try_addresses
connect host reason none = codes "getaddrinfo(" ++ (host ++ (codes "): " ++ reason))
connect host reason (some attempts) =
    let (ok, last) = try_addresses attempts [] in
    if ok then [] else or_else last (codes "connect failed")

-- The world around one request: the resolver's answer for a host and a port and its reason, the TLS handshake's
-- error, the error of the n-th write (all are empty on success), the size and the pieces of a regular body
-- file and whether reading it broke, what the connection delivers, and the disk under the sink.
pub record World : Type 0 where
  pub resolve : Bytes → ℕ → Option (List Attempt)
  pub reason : Bytes
  pub handshake : Bytes → Bytes
  pub write : ℕ → Bytes → Bytes
  pub file_size : Bytes → Option ℕ
  pub file_opens : Bytes → Bool
  pub file_pieces : Bytes → List Bytes
  pub file_broken : Bytes → Bool
  pub reads : List Read
  pub disk : Disk

unfoldable pub port_of : Request → ℕ
port_of req = if req.port == 0 then (if req.tls then 443 else 80) else req.port

abbrev pub end_line : Bytes
end_line = b'\r' ∷ b'\n' ∷ []

unfoldable pub header_text : Headers → Bytes
header_text [] = []
header_text ((k, v) ∷ hs) = k ++ (codes ": " ++ (v ++ (end_line ++ header_text hs)))

unfoldable pub has_length : Headers → Bool
unfolding lower
has_length [] = false
has_length ((k, v) ∷ hs) = bytes_eq (lower k) (codes "content-length") || has_length hs

-- Everything that is sent before a file body.
unfoldable pub wire : Request → ℕ → Bytes
unfolding header_text has_length decimal
wire req body_len =
    let counted =
      not (has_length req.headers)
      && (ltb 0 body_len
          || (bytes_eq req.method (codes "POST") || bytes_eq req.method (codes "PUT"))) in
    req.method
    ++ (codes " "
        ++ (req.path
            ++ (codes " HTTP/1.1"
                ++ (end_line
                    ++ (codes "Host: "
                        ++ (req.host
                            ++ (end_line
                                ++ (codes "Connection: close"
                                    ++ (end_line
                                        ++ (header_text req.headers
                                            ++ ((if counted
                                                  then codes "Content-Length: "
                                                    ++ (decimal body_len ++ end_line)
                                                  else [])
                                                ++ (end_line
                                                    ++ (if is_empty req.body_path
                                                        then req.body
                                                        else [])))))))))))))

-- The pieces of the file from the n-th write on: the first error.
unfoldable pub write_pieces : (ℕ → Bytes → Bytes) → ℕ → List Bytes → Bytes
write_pieces write n [] = []
write_pieces write n (s ∷ more) = or_else (write n s) (write_pieces write (suc n) more)

-- The error of sending the request; empty when all is sent.
unfoldable pub send_request : World → Request → ℕ → Bytes
unfolding wire write_pieces
send_request w req body_len =
    let broken =
      if w.file_broken req.body_path
      then codes "read(" ++ (req.body_path ++ (codes "): " ++ w.disk.strerror))
      else [] in
    let file =
      if is_empty req.body_path
      then []
      else or_else (write_pieces w.write 1 (w.file_pieces req.body_path)) broken in
    or_else (w.write 0 (wire req body_len)) file

-- A response that only carries an error.
unfoldable pub failed_with : Bytes → Response
failed_with e = record { status = pos 0; headers = []; body = []; sink_bytes = 0; error = e }

-- The response when `read_body` returns; it never is `unfinished`.
unfoldable pub respond : ℤ → Headers → Moved → Response
unfolding failed_with
respond status hs (ended sink err) = record {
  status = status;
  headers = hs;
  body = if sink.to_file then [] else sink.written;
  sink_bytes = length sink.written;
  error = err;
}
respond status hs _ = failed_with (codes "unfinished")

unfoldable pub is_success : ℤ → Bool
is_success status = leb_ℤ (pos 200) status && ltb_ℤ status (pos 300)

-- An error of opening the sink stays: `read_body` returns at once then.
unfoldable pub read_response : World → Request → HeadersRead → Response
unfolding failed_with respond is_success open_sink read_body
read_response w req (headers_failed e) = failed_with e
read_response w req (headers_read status hs pending reads) =
    let (sink, e) = open_sink w.disk (if is_success status then req.sink_path else []) in
    let flow : Flow = record { pending = pending; reads = reads; sink = sink } in
    respond status hs (if sink.failed then ended sink e else read_body w.disk hs flow)

-- The length of the body, or the error of its file.
unfoldable pub body_length : World → Request → Bytes × ℕ
body_length w req =
    let opened : Bytes × ℕ = elim (w.file_size req.body_path) [
      | none ↦ (codes "body file " ++ (req.body_path ++ (codes ": " ++ w.disk.strerror)), 0)
      | some size ↦
          if w.file_opens req.body_path
          then ([], size)
          else (codes "open(" ++ (req.body_path ++ (codes "): " ++ w.disk.strerror)), 0)
    ] in
    if is_empty req.body_path then ([], length req.body) else opened

-- The first error of the steps before the response is read.
unfoldable pub prepare : World → Request → Bytes
unfolding connect port_of body_length send_request
prepare w req =
    let (bad_file, body_len) = body_length w req in
    or_else (connect req.host w.reason (w.resolve req.host (port_of req))) (
      or_else (if req.tls then w.handshake req.host else [])
        (or_else bad_file (send_request w req body_len)))

unfoldable pub perform : World → Request → Response
unfolding prepare failed_with read_response read_headers
perform w req =
    if is_empty (prepare w req)
    then read_response w req (read_headers w.reads)
    else failed_with (prepare w req)
