-- ===== src/Http/Body/Decode.antt =====
-- `read_body` is `decode_body` of the bytes that the connection delivers, and always ends.
use haiku_mgmt_agent.Prelude.{
  ℕ, zero, suc, ◌+◌, ◌≤◌, ◌<◌, ◌≡◌, refl, ap, ◌∙◌, sym, subst, arith, Bool, true, false, Option,
  none, some, List, [], ◌∷◌, ◌++◌, if◌then◌else◌, leb, ◌==◌, length, take, drop, length-append,
  length-drop, drop-append_le, take-append_le, by_test, Option-cases, inl, inr, take_all,
}
use haiku_mgmt_agent.Prelude.Text.{Bytes, codes, find, find-append, find-le}
use haiku_mgmt_agent.Util.Number.{strtoul}
use haiku_mgmt_agent.Http.Transport.{Read, received, closed, timed_out, failed}
use haiku_mgmt_agent.Http.Head.{Headers, crlf, or_else, read_timeout, find_header}
use haiku_mgmt_agent.Http.Body.{
  Disk, Sink, finish, finished, Filled, filled, not_filled, fill, Flow, Moved, moved, ended,
  unfinished, stream, Line, line, no_line, read_line, truncated_chunk, after_chunk, chunk_moved,
  read_chunk, read_chunks, read_to_end, read_rest, is_chunked, arriving, whole, read_plain,
  read_body,
}
use haiku_mgmt_agent.Http.Body.Spec.{
  delivered, ending, Decoded, exactly, before, chunk_then, decode_chunks, decode_plain, decode_body,
}
use haiku_mgmt_agent.Http.Body.Cuts.{
  FillsTo, fill-FillsTo, ReadsLine, read_line-ReadsLine, IsSound, wrote, wrote-nil, wrote-wrote,
  append-wrote, Streams, stream-Streams,
}

-- The outcome of `read_body` for a decoded body.
abbrev pub outcome : Sink → Option Decoded → Moved
outcome sink none = unfinished
outcome sink (some (body, err)) = ended (wrote sink body) err

outcome-before :
    (sink : Sink) (s : Bytes) (o : Option Decoded)
    → outcome (wrote sink s) o ≡ outcome sink (before s o)
unfolding before
outcome-before sink s none = refl
outcome-before sink s (some (body, err)) = ap (λ k. ended k err) (wrote-wrote sink s body)

decode_none :
    (fuel : ℕ) (s end : Bytes)
    → find crlf s ≡ none
    → decode_chunks (suc fuel) s end ≡ some ([], or_else end (codes "truncated chunked body"))
unfolding decode_chunks
decode_none fuel s end e = rw (e, decode_chunks) refl

-- The chunk whose size stands in the first `nl` bytes.
abbrev chunk_at : ℕ → ℕ → Bytes → Bytes → Option Decoded
chunk_at fuel nl s end =
    let size = strtoul (take nl s) 16 in
    let rest = drop (nl + 2) s in
    let later = decode_chunks fuel (drop 2 (drop size rest)) end in
    if size == 0 then some ([], []) else chunk_then size rest end later

decode_some :
    (fuel nl : ℕ) (s end : Bytes)
    → find crlf s ≡ some nl
    → decode_chunks (suc fuel) s end ≡ chunk_at fuel nl s end
unfolding decode_chunks
decode_some fuel nl s end e = rw (e, decode_chunks) refl

-- `again` decodes the chunks that are left.
abbrev Decodes : ℕ → (Flow → Moved) → Type 0
Decodes fuel again =
    (f : Flow)
    → f.sink.failed ≡ false
    → again f
      ≡ outcome f.sink (decode_chunks fuel (f.pending ++ delivered f.reads) (ending f.reads))

chunk_then_whole :
    (size : ℕ) (s end : Bytes) (later : Option Decoded)
    → size + 2 ≤ length s
    → chunk_then size s end later ≡ before (take size s) later
unfolding chunk_then
chunk_then_whole size s end later h = ground arith

chunk_then_cut :
    (size : ℕ) (s end : Bytes) (later : Option Decoded)
    → length s < size + 2
    → chunk_then size s end later ≡ some (take size s, or_else end truncated_chunk)
unfolding chunk_then
chunk_then_cut size s end later h = ground arith

pub exactly_enough :
    (want : ℕ) (truncated s end : Bytes)
    → want ≤ length s
    → exactly want truncated s end ≡ (take want s, [])
unfolding exactly
exactly_enough want truncated s end h = ground arith

pub exactly_short :
    (want : ℕ) (truncated s end : Bytes)
    → length s < want
    → exactly want truncated s end ≡ (s, or_else end truncated)
unfolding exactly
exactly_short want truncated s end h = ground arith

-- Two conditionals on the same test.
pub by_both :
    {A B : Type 0} (P : A → B → Type 0) (b : Bool) {x y : A} {u v : B}
    → P x u
    → P y v
    → P (if b then x else y) (if b then u else v)
by_both P true p q = p
by_both P false p q = q

module _ (disk : Disk) (sound : IsSound disk) where
  finished-ended : (sink : Sink) → sink.failed ≡ false → finished disk sink ≡ ended sink []
  unfolding finished finish
  finished-ended sink ok = ground (arith, ok, sound.1 sink.written)

  whole-exactly :
      (want : ℕ) (truncated s end : Bytes) (sink : Sink) (m : Moved)
      → sink.failed ≡ false
      → Streams want truncated s end sink m
      → whole disk m ≡ outcome sink (some (exactly want truncated s end))
  unfolding whole exactly
  whole-exactly want truncated s end sink (moved g) ok q =
      rw (exactly_enough want truncated s end q.0, q.1.1.1)
        (finished-ended (wrote sink (take want s)) ok)
  whole-exactly want truncated s end sink (ended last err) ok q =
      rw (exactly_short want truncated s end q.0, q.1.0, q.1.1) refl
  whole-exactly want truncated s end sink unfinished ok q = absurd q

  read_to_end-outcome :
      (reads : List Read) (sink : Sink)
      → sink.failed ≡ false
      → read_to_end disk reads sink ≡ outcome sink (some (delivered reads, ending reads))
  unfolding read_to_end delivered ending before
  read_to_end-outcome [] sink ok =
      finished-ended sink ok ∙ ap (λ k. ended k []) (sym (wrote-nil sink))
  read_to_end-outcome (closed ∷ reads) sink ok =
      finished-ended sink ok ∙ ap (λ k. ended k []) (sym (wrote-nil sink))
  read_to_end-outcome (timed_out ∷ reads) sink ok =
      ap (λ k. ended k read_timeout) (sym (wrote-nil sink))
  read_to_end-outcome (failed err ∷ reads) sink ok =
      ap (λ k. ended k (or_else err read_timeout)) (sym (wrote-nil sink))
  read_to_end-outcome (received s ∷ reads) sink ok =
      let P = λ (m : Moved). m ≡ outcome sink (some (s ++ delivered reads, ending reads)) in
      rw (append-wrote disk sink s sound ok) (
        by_test P sink.failed (ended (wrote sink s) []) (read_to_end disk reads (wrote sink s))
          (λ bad. absurd (cc (bad, ok)))
          (λ good.
            read_to_end-outcome reads (wrote sink s) ok
            ∙ outcome-before sink s (some (delivered reads, ending reads))))

  read_rest-outcome :
      (p : Bytes) (reads : List Read) (sink : Sink)
      → sink.failed ≡ false
      → read_rest disk (record { pending = p; reads = reads; sink = sink })
        ≡ outcome sink (some (p ++ delivered reads, ending reads))
  unfolding read_rest delivered ending
  read_rest-outcome [] reads sink ok =
      by_test (λ m. m ≡ outcome sink (some (delivered reads, ending reads))) sink.failed
        (ended sink []) (read_to_end disk reads sink) (λ bad. absurd (cc (bad, ok)))
        (λ good. read_to_end-outcome reads sink ok)
  read_rest-outcome (c ∷ p) reads sink ok = read_to_end-outcome (received (c ∷ p) ∷ reads) sink ok

  after_chunk-outcome :
      (again : Flow → Moved) (fuel size : ℕ) (s end : Bytes) (sink last : Sink) (r : Filled)
      → last ≡ wrote sink (take size s)
      → sink.failed ≡ false
      → size ≤ length s
      → FillsTo 2 (drop size s) end r
      → Decodes fuel again
      → after_chunk again last r
        ≡ outcome sink (chunk_then size s end (decode_chunks fuel (drop 2 (drop size s)) end))
  unfolding after_chunk
  after_chunk-outcome again fuel size s end sink last (not_filled err) e ok h q ih =
      rw
        (
          e,
          q.1,
          chunk_then_cut size s end (decode_chunks fuel (drop 2 (drop size s)) end)
              (omega (arith, length-drop size s, q.0)),
        )
        refl
  after_chunk-outcome again fuel size s end sink last (filled p reads) e ok h q ih =
      rw
        (
          e,
          chunk_then_whole size s end (decode_chunks fuel (drop 2 (drop size s)) end)
              (omega (arith, long)),
        )
        (ih (record { pending = drop 2 p; reads = reads; sink = wrote sink (take size s) }) ok
          ∙ (behind
              ∙ outcome-before sink (take size s) (decode_chunks fuel (drop 2 (drop size s)) end)))
    where
      long : size + 2 ≤ length s
      long =
          omega (
            arith,
            length-drop size s,
            q.1.1,
            ap length (sym q.0),
            length-append p (delivered reads),
          )

      behind :
          outcome
            (wrote sink (take size s))
            (decode_chunks fuel (drop 2 p ++ delivered reads) (ending reads))
          ≡ outcome (wrote sink (take size s)) (decode_chunks fuel (drop 2 (drop size s)) end)
      behind = rw (sym (drop-append_le 2 p (delivered reads) q.1.1), q.0, q.1.0) refl

  chunk_moved-outcome :
      (again : Flow → Moved) (fuel size : ℕ) (s end : Bytes) (sink : Sink) (m : Moved)
      → sink.failed ≡ false
      → Streams size truncated_chunk s end sink m
      → Decodes fuel again
      → chunk_moved again m
        ≡ outcome sink (chunk_then size s end (decode_chunks fuel (drop 2 (drop size s)) end))
  unfolding chunk_moved
  chunk_moved-outcome again fuel size s end sink (moved g) ok q ih =
      after_chunk-outcome again fuel size s end sink g.sink (fill 2 g.reads g.pending) q.1.1.1 ok
        q.0
        (subst (λ e. FillsTo 2 (drop size s) e (fill 2 g.reads g.pending)) q.1.1.0
          (subst (λ t. FillsTo 2 t (ending g.reads) (fill 2 g.reads g.pending)) q.1.0
            (fill-FillsTo 2 g.reads g.pending)))
        ih
  chunk_moved-outcome again fuel size s end sink (ended last err) ok q ih =
      rw
        (
          q.1.0,
          q.1.1,
          chunk_then_cut size s end (decode_chunks fuel (drop 2 (drop size s)) end)
              (omega (arith, q.0)),
          take_all size s (omega (arith, q.0)),
        )
        refl
  chunk_moved-outcome again fuel size s end sink unfinished ok q ih = absurd q

  read_chunk-outcome :
      (again : Flow → Moved) (fuel : ℕ) (s end : Bytes) (sink : Sink) (r : Line)
      → sink.failed ≡ false
      → ReadsLine s end r
      → Decodes fuel again
      → read_chunk disk again sink r ≡ outcome sink (decode_chunks (suc fuel) s end)
  unfolding read_chunk
  read_chunk-outcome again fuel s end sink (no_line err) ok q ih =
      rw (decode_none fuel s end q.0, q.1)
        (ap (λ k. ended k (or_else end (codes "truncated chunked body"))) (sym (wrote-nil sink)))
  read_chunk-outcome again fuel s end sink (line nl p reads) ok q ih =
      let size = strtoul (take nl s) 16 in
      rw (decode_some fuel nl s end found, line_take)
        (by_both (λ (m : Moved) (o : Option Decoded). m ≡ outcome sink o) (size == 0)
          (finished-ended sink ok ∙ ap (λ k. ended k []) (sym (wrote-nil sink)))
          (chunk_moved-outcome again fuel size (drop (nl + 2) s) end sink
            (stream disk truncated_chunk size size
              (record { pending = drop (nl + 2) p; reads = reads; sink = sink }))
            ok
            (rw (line_drop, q.1.1) at
              (stream-Streams disk sound truncated_chunk size size
                (record { pending = drop (nl + 2) p; reads = reads; sink = sink }) ok
                (omega arith)))
            ih))
    where
      found : find crlf s ≡ some nl
      found = rw q.1.0 at (find-append crlf p (delivered reads) nl q.0)

      inside : nl + 2 ≤ length p
      inside = find-le crlf p nl q.0

      line_take : take nl p ≡ take nl s
      line_take =
          sym (take-append_le nl p (delivered reads) (omega (arith, inside))) ∙ ap (take nl) q.1.0

      line_drop : drop (nl + 2) p ++ delivered reads ≡ drop (nl + 2) s
      line_drop =
          sym (drop-append_le (nl + 2) p (delivered reads) inside) ∙ ap (drop (nl + 2)) q.1.0

  read_chunks-outcome :
      (fuel : ℕ) (f : Flow)
      → f.sink.failed ≡ false
      → read_chunks disk fuel f
        ≡ outcome f.sink (decode_chunks fuel (f.pending ++ delivered f.reads) (ending f.reads))
  unfolding read_chunks decode_chunks
  read_chunks-outcome zero f ok = refl
  read_chunks-outcome (suc fuel) f ok =
      read_chunk-outcome (read_chunks disk fuel) fuel (f.pending ++ delivered f.reads)
        (ending f.reads) f.sink (read_line f.reads f.pending) ok
        (read_line-ReadsLine f.reads f.pending) (read_chunks-outcome fuel)

length-delivered : (reads : List Read) → arriving reads ≡ length (delivered reads)
unfolding arriving delivered
length-delivered [] = refl
length-delivered (closed ∷ reads) = refl
length-delivered (timed_out ∷ reads) = refl
length-delivered (failed err ∷ reads) = refl
length-delivered (received s ∷ reads) =
    omega (arith, length-append s (delivered reads), length-delivered reads)

module _ (disk : Disk) (sound : IsSound disk) (f : Flow) (ok : f.sink.failed ≡ false) where
  read_plain-outcome :
      (v : Option Bytes)
      → read_plain disk f v
        ≡ outcome f.sink (some (decode_plain (f.pending ++ delivered f.reads) (ending f.reads) v))
  unfolding read_plain decode_plain
  read_plain-outcome none = read_rest-outcome disk sound f.pending f.reads f.sink ok
  read_plain-outcome (some v) =
      whole-exactly disk sound (strtoul v 10) (codes "truncated body")
        (f.pending ++ delivered f.reads) (ending f.reads) f.sink
        (stream disk (codes "truncated body") (strtoul v 10) (strtoul v 10) f) ok
        (stream-Streams disk sound (codes "truncated body") (strtoul v 10) (strtoul v 10) f ok
          (omega arith))

enough :
    (f : Flow)
    → length f.pending + arriving f.reads + 1 ≡ length (f.pending ++ delivered f.reads) + 1
enough f = omega (arith, length-delivered f.reads, length-append f.pending (delivered f.reads))

-- On a disk that takes every write, what `read_body` leaves in the sink and in `resp.error` is
-- `decode_body` of the bytes that are pending and arrive, whatever reads they arrive in and however the
-- connection ends.
pub read_body-decode_body :
    (disk : Disk) (hs : Headers) (f : Flow)
    → IsSound disk
    → f.sink.failed ≡ false
    → read_body disk hs f
      ≡ outcome f.sink (decode_body hs (f.pending ++ delivered f.reads) (ending f.reads))
unfolding read_body decode_body
read_body-decode_body disk hs f sound ok =
    let s = f.pending ++ delivered f.reads in
    let chunks = read_chunks disk (length f.pending + arriving f.reads + 1) f in
    let plain = read_plain disk f (find_header (codes "content-length") hs) in
    by_test (λ m. m ≡ outcome f.sink (decode_body hs s (ending f.reads))) f.sink.failed
      (ended f.sink []) (if is_chunked hs then chunks else plain) (λ bad. absurd (cc (bad, ok)))
      (λ good.
        by_both (λ (m : Moved) (o : Option Decoded). m ≡ outcome f.sink o) (is_chunked hs)
          (ap (λ n. read_chunks disk n f) (enough f)
            ∙ read_chunks-outcome disk sound (length s + 1) f ok)
          (read_plain-outcome disk sound f ok (find_header (codes "content-length") hs)))

before-some :
    (s : Bytes) (o : Option Decoded)
    → ((d : Decoded) × (o ≡ some d))
    → (d : Decoded) × (before s o ≡ some d)
unfolding before
before-some s none (d, e) = absurd cc
before-some s (some (body, err)) h = ((s ++ body, err), refl)

chunk_then-some :
    (size : ℕ) (s end : Bytes) (later : Option Decoded)
    → (size + 2 ≤ length s → (d : Decoded) × (later ≡ some d))
    → (d : Decoded) × (chunk_then size s end later ≡ some d)
unfolding chunk_then
chunk_then-some size s end later h =
    by_test (λ o. (d : Decoded) × (o ≡ some d)) (leb (size + 2) (length s))
      (before (take size s) later) (some (take size s, or_else end truncated_chunk))
      (λ fits. before-some (take size s) later (h (ground arith)))
      (λ cut. ((take size s, or_else end truncated_chunk), refl))

-- More fuel than bytes is enough for the chunks.
decode_chunks-some :
    (fuel : ℕ) (s end : Bytes)
    → length s < fuel
    → (d : Decoded) × (decode_chunks fuel s end ≡ some d)
decode_chunks-some zero s end h = absurd (omega arith)
decode_chunks-some (suc fuel) s end h = elim (Option-cases (find crlf s)) [
  | inl e ↦ (([], or_else end (codes "truncated chunked body")), decode_none fuel s end e)
  | inr (nl, e) ↦
      let size = strtoul (take nl s) 16 in
      let rest = drop (nl + 2) s in
      let later = decode_chunks fuel (drop 2 (drop size rest)) end in
      rw (decode_some fuel nl s end e) (
        by_test (λ o. (d : Decoded) × (o ≡ some d)) (size == 0) (some ([], []))
          (chunk_then size rest end later) (λ last. (([], []), refl))
          (λ more. chunk_then-some size rest end later (λ fits.
            decode_chunks-some fuel (drop 2 (drop size rest)) end (
              omega (
                arith,
                length-drop 2 (drop size rest),
                length-drop size rest,
                length-drop (nl + 2) s,
                h,
                fits,
              )))))
]

pub decode_body-some :
    (hs : Headers) (s end : Bytes) → (d : Decoded) × (decode_body hs s end ≡ some d)
unfolding decode_body
decode_body-some hs s end =
    let plain = decode_plain s end (find_header (codes "content-length") hs) in
    by_test (λ o. (d : Decoded) × (o ≡ some d)) (is_chunked hs) (decode_chunks (length s + 1) s end)
      (some plain) (λ chunked. decode_chunks-some (length s + 1) s end (omega arith))
      (λ other. (plain, refl))

-- `read_body` always returns: on a disk that takes every write, whatever a connection that ends
-- delivers and whatever the headers say, its loops stop within their fuel.
pub read_body_returns :
    (disk : Disk) (hs : Headers) (f : Flow)
    → IsSound disk
    → f.sink.failed ≡ false
    → (d : Decoded) × (read_body disk hs f ≡ ended (wrote f.sink d.0) d.1)
read_body_returns disk hs f sound ok =
    let (d, e) = decode_body-some hs (f.pending ++ delivered f.reads) (ending f.reads) in
    (d, read_body-decode_body disk hs f sound ok ∙ ap (outcome f.sink) e)
