-- ===== src/Http/Body.antt =====
-- src/http.cpp: `BodySink` and `read_body`.
pub mod Spec
pub mod Cuts
pub mod Decode
pub mod Faults
use haiku_mgmt_agent.Prelude.{
  ℕ, zero, suc, ◌+◌, ◌-◌, min, Bool, true, false, not, ◌&&◌, Option, none, some, List, [], ◌∷◌,
  ◌++◌, if◌then◌else◌, leb, ◌==◌, length, take, drop,
}
use haiku_mgmt_agent.Prelude.Text.{Bytes, is_empty, codes, find, contains_text}
use haiku_mgmt_agent.Util.Text.{lower}
use haiku_mgmt_agent.Util.Number.{strtoul}
use haiku_mgmt_agent.Http.Transport.{Read, received, closed, timed_out, failed}
use haiku_mgmt_agent.Http.Head.{Headers, crlf, or_else, read_timeout, find_header}

-- The file system under the sink: whether a file opens, whether `fwrite` takes the next bytes behind those
-- the file has, whether `fflush` and `fsync` succeed on it, and the text of its errors.
pub record Disk : Type 0 where
  pub opens : Bytes → Bool
  pub takes : Bytes → Bytes → Bool
  pub flushes : Bytes → Bool
  pub strerror : Bytes

-- `written` is `resp.body`, or what the file has.
pub record Sink : Type 0 where
  pub to_file : Bool
  pub failed : Bool
  pub written : Bytes

-- A sink and the error it set, if it set one.
abbrev pub Appended : Type 0
Appended = Sink × Bytes

unfoldable pub open_sink : Disk → Bytes → Appended
open_sink disk path =
    let bad = not (is_empty path) && not (disk.opens path) in
    (
      record { to_file = not (is_empty path); failed = bad; written = [] },
      if bad then codes "open(" ++ (path ++ (codes "): " ++ disk.strerror)) else [],
    )

unfoldable pub append : Disk → Sink → Bytes → Appended
append disk sink s =
    if sink.failed
    then (sink, [])
    else if sink.to_file && not (disk.takes sink.written s)
    then (record sink { failed = true }, codes "short write to body file: " ++ disk.strerror)
    else (record sink { written = sink.written ++ s }, [])

unfoldable pub finish : Disk → Sink → Appended
finish disk sink =
    if sink.failed
    then (sink, [])
    else if sink.to_file && not (disk.flushes sink.written)
    then (record sink { failed = true }, codes "flush body file: " ++ disk.strerror)
    else (sink, [])

-- `fill(want)`: `pending` with at least `want` bytes, or the error it set (empty at the end).
pub data Filled : Type 0 where
  filled : Bytes → List Read → Filled
  not_filled : Bytes → Filled

unfoldable pub fill : ℕ → List Read → Bytes → Filled
fill want [] pending = if leb want (length pending) then filled pending [] else not_filled []
fill want (r ∷ reads) pending =
    let more : Filled = elim r [
      | closed ↦ not_filled []
      | timed_out ↦ not_filled read_timeout
      | failed err ↦ not_filled (or_else err read_timeout)
      | received chunk ↦ fill want reads (pending ++ chunk)
    ] in
    if leb want (length pending) then filled pending (r ∷ reads) else more

-- What the loops carry.
pub record Flow : Type 0 where
  pub pending : Bytes
  pub reads : List Read
  pub sink : Sink

-- A loop went on to the end of what it had to move, or `read_body` returns with this sink and this
-- error, or the fuel is gone.
pub data Moved : Type 0 where
  moved : Flow → Moved
  ended : Sink → Bytes → Moved
  unfinished : Moved

-- One round of that loop after `fill(1)`; `again` is the loop on what remains.
unfoldable pub move_piece : Disk → Bytes → (ℕ → Flow → Moved) → ℕ → Sink → Filled → Moved
unfolding append
move_piece disk truncated again remaining sink (not_filled err) = ended sink (or_else err truncated)
move_piece disk truncated again remaining sink (filled pending reads) =
    let n = min remaining (length pending) in
    let (next, err) = append disk sink (take n pending) in
    let rest =
      again (remaining - n) (record { pending = drop n pending; reads = reads; sink = next }) in
    if next.failed then ended next err else rest

-- `while (remaining > 0)` of a chunk and of a body with a length; `truncated` is the error at an end
-- that comes too early. A round moves a byte at least, so `remaining` rounds are enough.
unfoldable pub stream : Disk → Bytes → ℕ → ℕ → Flow → Moved
unfolding fill move_piece
stream disk truncated zero remaining f = if remaining == 0 then moved f else unfinished
stream disk truncated (suc fuel) remaining f =
    let round =
      move_piece disk truncated (stream disk truncated fuel) remaining f.sink
        (fill 1 f.reads f.pending) in
    if remaining == 0 then moved f else round

-- Reading on until `pending` has a line: where it ends.
pub data Line : Type 0 where
  line : ℕ → Bytes → List Read → Line
  no_line : Bytes → Line

unfoldable pub read_line : List Read → Bytes → Line
unfolding find
read_line [] pending = elim (find crlf pending) [ some nl ↦ line nl pending [] | none ↦ no_line [] ]
read_line (r ∷ reads) pending = elim (find crlf pending) [
  | some nl ↦ line nl pending (r ∷ reads)
  | none ↦ elim r [
    | closed ↦ no_line []
    | timed_out ↦ no_line read_timeout
    | failed err ↦ no_line (or_else err read_timeout)
    | received chunk ↦ read_line reads (pending ++ chunk)
  ]
]

-- `sink.finish()` as the result of `read_body`.
unfoldable pub finished : Disk → Sink → Moved
unfolding finish
finished disk sink = let (done, err) = finish disk sink in ended done err

abbrev pub truncated_chunk : Bytes
truncated_chunk = codes "truncated chunk"

-- The loop over the chunks; every round that goes on takes five bytes at least.
-- The CRLF behind a chunk that came whole; `again` is the loop over the chunks.
unfoldable pub after_chunk : (Flow → Moved) → Sink → Filled → Moved
after_chunk again sink (not_filled err) = ended sink (or_else err truncated_chunk)
after_chunk again sink (filled pending reads) =
    again (record { pending = drop 2 pending; reads = reads; sink = sink })

unfoldable pub chunk_moved : (Flow → Moved) → Moved → Moved
unfolding after_chunk fill
chunk_moved again (ended sink err) = ended sink err
chunk_moved again unfinished = unfinished
chunk_moved again (moved g) = after_chunk again g.sink (fill 2 g.reads g.pending)

-- One chunk, from the line with its size.
unfoldable pub read_chunk : Disk → (Flow → Moved) → Sink → Line → Moved
unfolding finished stream chunk_moved
read_chunk disk again sink (no_line err) = ended sink (or_else err (codes "truncated chunked body"))
read_chunk disk again sink (line nl pending reads) =
    let size = strtoul (take nl pending) 16 in
    let body : Flow = record { pending = drop (nl + 2) pending; reads = reads; sink = sink } in
    let chunk = chunk_moved again (stream disk truncated_chunk size size body) in
    if size == 0 then finished disk sink else chunk

-- The loop over the chunks; every round that goes on takes a byte at least.
unfoldable pub read_chunks : Disk → ℕ → Flow → Moved
unfolding read_line read_chunk
read_chunks disk zero f = unfinished
read_chunks disk (suc fuel) f =
    read_chunk disk (read_chunks disk fuel) f.sink (read_line f.reads f.pending)

-- No length and no chunks: every read goes to the sink.
unfoldable pub read_to_end : Disk → List Read → Sink → Moved
unfolding finished append
read_to_end disk [] sink = finished disk sink
read_to_end disk (closed ∷ reads) sink = finished disk sink
read_to_end disk (timed_out ∷ reads) sink = ended sink read_timeout
read_to_end disk (failed err ∷ reads) sink = ended sink (or_else err read_timeout)
read_to_end disk (received chunk ∷ reads) sink =
    let (next, err) = append disk sink chunk in
    let rest = read_to_end disk reads next in if next.failed then ended next err else rest

unfoldable pub is_chunked : Headers → Bool
unfolding find_header contains_text
is_chunked hs = elim (find_header (codes "transfer-encoding") hs) [
  | none ↦ false
  | some v ↦ contains_text (lower v) (codes "chunked")
]

-- The bytes that can still arrive.
unfoldable pub arriving : List Read → ℕ
arriving (received s ∷ reads) = length s + arriving reads
arriving _ = 0

unfoldable pub read_rest : Disk → Flow → Moved
unfolding append read_to_end
read_rest disk f =
    let (sink, err) = if is_empty f.pending then (f.sink, []) else append disk f.sink f.pending in
    let rest = read_to_end disk f.reads sink in if sink.failed then ended sink err else rest

-- The end of a body with a length.
unfoldable pub whole : Disk → Moved → Moved
unfolding finished
whole disk (moved g) = finished disk g.sink
whole disk (ended sink err) = ended sink err
whole disk unfinished = unfinished

-- Without chunks: on the value of `content-length`, if there is one.
unfoldable pub read_plain : Disk → Flow → Option Bytes → Moved
unfolding stream read_rest whole
read_plain disk f none = read_rest disk f
read_plain disk f (some v) =
    whole disk (stream disk (codes "truncated body") (strtoul v 10) (strtoul v 10) f)

unfoldable pub read_body : Disk → Headers → Flow → Moved
unfolding is_chunked find_header read_chunks arriving read_plain
read_body disk hs f =
    let chunks = read_chunks disk (length f.pending + arriving f.reads + 1) f in
    let plain = read_plain disk f (find_header (codes "content-length") hs) in
    if f.sink.failed then ended f.sink [] else if is_chunked hs then chunks else plain
