-- ===== src/Http/Body/Spec.antt =====
-- What `read_body` means on a stream of bytes, however the network cuts it into reads.
use haiku_mgmt_agent.Prelude.{
  ℕ, zero, suc, ◌+◌, Option, none, some, List, [], ◌∷◌, ◌++◌, if◌then◌else◌, leb, ◌==◌, length,
  take, drop,
}
use haiku_mgmt_agent.Prelude.Text.{Bytes, codes, find}
use haiku_mgmt_agent.Util.Number.{strtoul}
use haiku_mgmt_agent.Http.Transport.{Read, received, closed, timed_out, failed}
use haiku_mgmt_agent.Http.Head.{Headers, crlf, or_else, read_timeout, find_header}
use haiku_mgmt_agent.Http.Body.{truncated_chunk, is_chunked}

-- The bytes a connection delivers, and the error it ends with: none when the peer closes it.
unfoldable pub delivered : List Read → Bytes
delivered (received s ∷ reads) = s ++ delivered reads
delivered _ = []

unfoldable pub ending : List Read → Bytes
ending [] = []
ending (received s ∷ reads) = ending reads
ending (closed ∷ reads) = []
ending (timed_out ∷ reads) = read_timeout
ending (failed err ∷ reads) = or_else err read_timeout

-- A decoded body and its error, empty for a whole body.
abbrev pub Decoded : Type 0
Decoded = Bytes × Bytes

-- The first `want` bytes, or all there are and the error of an early end.
unfoldable pub exactly : ℕ → Bytes → Bytes → Bytes → Decoded
exactly want truncated s end =
    if leb want (length s) then (take want s, []) else (s, or_else end truncated)

-- One chunk's bytes before those of the chunks behind it.
unfoldable pub before : Bytes → Option Decoded → Option Decoded
before s none = none
before s (some (body, err)) = some (s ++ body, err)

-- A chunk of `size` bytes at the front of `s`, and what is decoded behind its CRLF.
unfoldable pub chunk_then : ℕ → Bytes → Bytes → Option Decoded → Option Decoded
unfolding before
chunk_then size s end later =
    if leb (size + 2) (length s)
    then before (take size s) later
    else some (take size s, or_else end truncated_chunk)

-- The chunks of the stream in turn, on as much fuel as the stream has bytes, and one.
unfoldable pub decode_chunks : ℕ → Bytes → Bytes → Option Decoded
unfolding find chunk_then
decode_chunks zero s end = none
decode_chunks (suc fuel) s end = elim (find crlf s) [
  | none ↦ some ([], or_else end (codes "truncated chunked body"))
  | some nl ↦
      let size = strtoul (take nl s) 16 in
      let rest = drop (nl + 2) s in
      let later = decode_chunks fuel (drop 2 (drop size rest)) end in
      if size == 0 then some ([], []) else chunk_then size rest end later
]

unfoldable pub decode_plain : Bytes → Bytes → Option Bytes → Decoded
unfolding exactly
decode_plain s end none = (s, end)
decode_plain s end (some v) = exactly (strtoul v 10) (codes "truncated body") s end

unfoldable pub decode_body : Headers → Bytes → Bytes → Option Decoded
unfolding is_chunked find_header decode_chunks decode_plain
decode_body hs s end =
    let chunks = decode_chunks (length s + 1) s end in
    if is_chunked hs
    then chunks
    else some (decode_plain s end (find_header (codes "content-length") hs))
