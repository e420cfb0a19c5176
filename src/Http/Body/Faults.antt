-- ===== src/Http/Body/Faults.antt =====
-- What a file system that fails does to `read_body`: the same as one that takes every write, or an error.
use haiku_mgmt_agent.Prelude.{
  ℕ, zero, suc, ◌+◌, ◌-◌, ◌≡◌, ◌⊎◌, inl, inr, refl, arith, true, false, Option, none, some, List,
  [], ◌∷◌, ◌==◌, length, take, drop, min, Bool-cases, ◌&&◌, not, if◌then◌else◌,
}
use haiku_mgmt_agent.Prelude.Text.{Bytes, is_empty, codes}
use haiku_mgmt_agent.Util.Number.{strtoul}
use haiku_mgmt_agent.Http.Transport.{Read, received, closed, timed_out, failed}
use haiku_mgmt_agent.Http.Head.{Headers, find_header}
use haiku_mgmt_agent.Http.Body.{
  Disk, Sink, Appended, append, finish, finished, Filled, filled, not_filled, fill, Flow, Moved,
  moved, ended, unfinished, move_piece, stream, Line, line, no_line, read_line, truncated_chunk,
  after_chunk, chunk_moved, read_chunk, read_chunks, read_to_end, read_rest, is_chunked, whole,
  read_plain, read_body,
}
use haiku_mgmt_agent.Http.Body.Decode.{by_both}

-- The same file system without a fault in writing.
abbrev pub fixed : Disk → Disk
fixed disk = record disk { takes = λ written s. true; flushes = λ written. true }

abbrev pub Broken : Moved → Type 0
Broken (ended sink err) = is_empty err ≡ false
Broken _ = ⊥

-- The outcome of the one run is that of the other, or an error.
abbrev pub Same : Moved → Moved → Type 0
Same m n = (m ≡ n) ⊎ Broken m

module _ (disk : Disk) where
  append_same :
      (sink : Sink) (s : Bytes)
      → (append disk sink s ≡ append (fixed disk) sink s)
        ⊎ (((append disk sink s).0.failed ≡ true) × (is_empty (append disk sink s).1 ≡ false))
  unfolding append
  append_same sink s = elim (Bool-cases sink.failed) [
    | inl bad ↦ inl (rw bad refl)
    | inr good ↦ elim (Bool-cases (sink.to_file && not (disk.takes sink.written s))) [
      | inl short ↦ rw (good, short) (inr (refl, refl))
      | inr taken ↦ inl (ground (arith, good, taken))
    ]
  ]

  finished-Same : (sink : Sink) → Same (finished disk sink) (finished (fixed disk) sink)
  unfolding finished finish
  finished-Same sink = elim (Bool-cases sink.failed) [
    | inl bad ↦ inl (rw bad refl)
    | inr good ↦ elim (Bool-cases (sink.to_file && not (disk.flushes sink.written))) [
      | inl short ↦ rw (good, short) (inr refl)
      | inr kept ↦ inl (ground (arith, good, kept))
    ]
  ]

  -- What goes on with the sink where the write was taken, and ends with the error where it was not.
  abbrev after : (Sink → Moved) → Appended → Moved
  after again a = if a.0.failed then ended a.0 a.1 else again a.0

  after-Same :
      (again again' : Sink → Moved) (sink : Sink) (s : Bytes)
      → ((next : Sink) → Same (again next) (again' next))
      → Same (after again (append disk sink s)) (after again' (append (fixed disk) sink s))
  after-Same again again' sink s ih = elim (append_same sink s) [
    | inl e ↦ rw e (
        by_both Same (append (fixed disk) sink s).0.failed (inl refl)
          (ih (append (fixed disk) sink s).0))
    | inr (bad, err) ↦ rw bad (inr err)
  ]

  move_piece-Same :
      (truncated : Bytes) (again again' : ℕ → Flow → Moved) (remaining : ℕ) (sink : Sink)
      (r : Filled)
      → ((n : ℕ) (f : Flow) → Same (again n f) (again' n f))
      → Same
          (move_piece disk truncated again remaining sink r)
          (move_piece (fixed disk) truncated again' remaining sink r)
  unfolding move_piece
  move_piece-Same truncated again again' remaining sink (not_filled err) ih = inl refl
  move_piece-Same truncated again again' remaining sink (filled p reads) ih =
      let n = min remaining (length p) in
      after-Same
        (λ (next : Sink).
          again (remaining - n) (record { pending = drop n p; reads = reads; sink = next }))
        (λ (next : Sink).
          again' (remaining - n) (record { pending = drop n p; reads = reads; sink = next }))
        sink (take n p) (λ next. ih _ _)

  stream-Same :
      (truncated : Bytes) (fuel remaining : ℕ) (f : Flow)
      → Same
          (stream disk truncated fuel remaining f)
          (stream (fixed disk) truncated fuel remaining f)
  unfolding stream
  stream-Same truncated zero remaining f = inl refl
  stream-Same truncated (suc fuel) remaining f = by_both Same (remaining == 0) (inl refl) (
      move_piece-Same truncated (stream disk truncated fuel) (stream (fixed disk) truncated fuel)
        remaining f.sink (fill 1 f.reads f.pending) (stream-Same truncated fuel))

  whole_ended : (m : Moved) → Same (whole disk m) (whole (fixed disk) m)
  unfolding whole
  whole_ended (moved g) = finished-Same g.sink
  whole_ended (ended sink err) = inl refl
  whole_ended unfinished = inl refl

  whole-Broken : (m n : Moved) → Broken m → Same (whole disk m) n
  unfolding whole
  whole-Broken (ended sink err) n b = inr b
  whole-Broken (moved g) n b = elim b [ ]
  whole-Broken unfinished n b = elim b [ ]

  whole-Same : (m n : Moved) → Same m n → Same (whole disk m) (whole (fixed disk) n)
  whole-Same m n (inl e) = rw e (whole_ended n)
  whole-Same m n (inr b) = whole-Broken m (whole (fixed disk) n) b

  after_chunk-Same :
      (again again' : Flow → Moved) (sink : Sink) (r : Filled)
      → ((f : Flow) → Same (again f) (again' f))
      → Same (after_chunk again sink r) (after_chunk again' sink r)
  unfolding after_chunk
  after_chunk-Same again again' sink (not_filled err) ih = inl refl
  after_chunk-Same again again' sink (filled p reads) ih = ih _

  chunk_moved_ended :
      (again again' : Flow → Moved) (m : Moved)
      → ((f : Flow) → Same (again f) (again' f))
      → Same (chunk_moved again m) (chunk_moved again' m)
  unfolding chunk_moved
  chunk_moved_ended again again' (moved g) ih =
      after_chunk-Same again again' g.sink (fill 2 g.reads g.pending) ih
  chunk_moved_ended again again' (ended sink err) ih = inl refl
  chunk_moved_ended again again' unfinished ih = inl refl

  chunk_moved-Broken :
      (again : Flow → Moved) (m n : Moved) → Broken m → Same (chunk_moved again m) n
  unfolding chunk_moved
  chunk_moved-Broken again (ended sink err) n b = inr b
  chunk_moved-Broken again (moved g) n b = elim b [ ]
  chunk_moved-Broken again unfinished n b = elim b [ ]

  chunk_moved-Same :
      (again again' : Flow → Moved) (m n : Moved)
      → ((f : Flow) → Same (again f) (again' f))
      → Same m n
      → Same (chunk_moved again m) (chunk_moved again' n)
  chunk_moved-Same again again' m n ih (inl e) = rw e (chunk_moved_ended again again' n ih)
  chunk_moved-Same again again' m n ih (inr b) = chunk_moved-Broken again m (chunk_moved again' n) b

  read_chunk-Same :
      (again again' : Flow → Moved) (sink : Sink) (l : Line)
      → ((f : Flow) → Same (again f) (again' f))
      → Same (read_chunk disk again sink l) (read_chunk (fixed disk) again' sink l)
  unfolding read_chunk
  read_chunk-Same again again' sink (no_line err) ih = inl refl
  read_chunk-Same again again' sink (line nl p reads) ih =
      by_both Same (strtoul (take nl p) 16 == 0) (finished-Same sink) (
        chunk_moved-Same again again' _ _ ih (
          stream-Same truncated_chunk (strtoul (take nl p) 16) (strtoul (take nl p) 16)
            (record { pending = drop (nl + 2) p; reads = reads; sink = sink })))

  read_chunks-Same :
      (fuel : ℕ) (f : Flow) → Same (read_chunks disk fuel f) (read_chunks (fixed disk) fuel f)
  unfolding read_chunks
  read_chunks-Same zero f = inl refl
  read_chunks-Same (suc fuel) f =
      read_chunk-Same (read_chunks disk fuel) (read_chunks (fixed disk) fuel) f.sink
        (read_line f.reads f.pending) (read_chunks-Same fuel)

  read_to_end-Same :
      (reads : List Read) (sink : Sink)
      → Same (read_to_end disk reads sink) (read_to_end (fixed disk) reads sink)
  unfolding read_to_end
  read_to_end-Same [] sink = finished-Same sink
  read_to_end-Same (closed ∷ reads) sink = finished-Same sink
  read_to_end-Same (timed_out ∷ reads) sink = inl refl
  read_to_end-Same (failed err ∷ reads) sink = inl refl
  read_to_end-Same (received s ∷ reads) sink =
      after-Same (read_to_end disk reads) (read_to_end (fixed disk) reads) sink s
        (read_to_end-Same reads)

  read_rest-Same :
      (p : Bytes) (reads : List Read) (sink : Sink)
      → Same
          (read_rest disk (record { pending = p; reads = reads; sink = sink }))
          (read_rest (fixed disk) (record { pending = p; reads = reads; sink = sink }))
  unfolding read_rest
  read_rest-Same [] reads sink = by_both Same sink.failed (inl refl) (read_to_end-Same reads sink)
  read_rest-Same (c ∷ p) reads sink =
      after-Same (read_to_end disk reads) (read_to_end (fixed disk) reads) sink (c ∷ p)
        (read_to_end-Same reads)

  read_plain-Same :
      (f : Flow) (o : Option Bytes) → Same (read_plain disk f o) (read_plain (fixed disk) f o)
  unfolding read_plain
  read_plain-Same f none = read_rest-Same f.pending f.reads f.sink
  read_plain-Same f (some v) =
      whole-Same _ _ (stream-Same (codes "truncated body") (strtoul v 10) (strtoul v 10) f)

  -- With any file system, `read_body` ends as with one that takes every write, or with an error.
  pub read_body-Same :
      (hs : Headers) (f : Flow) → Same (read_body disk hs f) (read_body (fixed disk) hs f)
  unfolding read_body
  read_body-Same hs f =
      by_both Same f.sink.failed (inl refl)
        (by_both Same (is_chunked hs) (read_chunks-Same _ f) (read_plain-Same f (find_header _ hs)))
