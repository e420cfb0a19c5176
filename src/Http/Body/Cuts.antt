-- ===== src/Http/Body/Cuts.antt =====
-- `read_body` does not depend on how the network cuts the stream, and always ends.
use haiku_mgmt_agent.Prelude.{
  ℕ, zero, suc, ◌+◌, ◌-◌, ◌≤◌, ◌<◌, ◌≡◌, refl, ap, ◌∙◌, sym, subst, min, arith, true, false, Option,
  none, some, List, [], ◌∷◌, ◌++◌, if◌then◌else◌, leb, ◌==◌, length, take, drop, append_assoc,
  append-nil, length-append, length-drop, drop-append_le, take-append_le, drop-drop, take-split,
  take-append-drop, by_test, Bool-cases, inl, inr,
}
use haiku_mgmt_agent.Prelude.Text.{Bytes, find}
use haiku_mgmt_agent.Http.Transport.{Read, received, closed, timed_out, failed}
use haiku_mgmt_agent.Http.Head.{crlf, or_else, read_timeout}
use haiku_mgmt_agent.Http.Body.{
  Disk, Sink, append, Filled, filled, not_filled, fill, Flow, Moved, moved, ended, unfinished,
  move_piece, stream, Line, line, no_line, read_line,
}
use haiku_mgmt_agent.Http.Body.Spec.{delivered, ending}

-- What `fill` gives on a connection that has `s` in store and ends with `end`.
abbrev pub FillsTo : ℕ → Bytes → Bytes → Filled → Type 0
FillsTo want s end (filled p rest) =
    (p ++ delivered rest ≡ s) × ((ending rest ≡ end) × (want ≤ length p))
FillsTo want s end (not_filled err) = (length s < want) × (err ≡ end)

fill_stop :
    (want : ℕ) (p err : Bytes) (rest : List Read)
    → delivered rest ≡ []
    → ending rest ≡ err
    → FillsTo want (p ++ []) err (if leb want (length p) then filled p rest else not_filled err)
fill_stop want p err rest none_left ends =
    by_test (FillsTo want (p ++ []) err) (leb want (length p)) (filled p rest) (not_filled err)
      (λ h. (ap (λ t. p ++ t) none_left, (ends, ground arith)))
      (λ h. (ground (arith, length-append p []), refl))

pub fill-FillsTo :
    (want : ℕ) (reads : List Read) (p : Bytes)
    → FillsTo want (p ++ delivered reads) (ending reads) (fill want reads p)
unfolding fill delivered ending
fill-FillsTo want [] p = fill_stop want p [] [] refl refl
fill-FillsTo want (closed ∷ reads) p = fill_stop want p [] (closed ∷ reads) refl refl
fill-FillsTo want (timed_out ∷ reads) p =
    fill_stop want p read_timeout (timed_out ∷ reads) refl refl
fill-FillsTo want (failed err ∷ reads) p =
    fill_stop want p (or_else err read_timeout) (failed err ∷ reads) refl refl
fill-FillsTo want (received s ∷ reads) p =
    by_test (FillsTo want (p ++ (s ++ delivered reads)) (ending reads)) (leb want (length p))
      (filled p (received s ∷ reads)) (fill want reads (p ++ s)) (λ h. (refl, (refl, ground arith)))
      (λ h.
        subst (λ t. FillsTo want t (ending reads) (fill want reads (p ++ s)))
          (append_assoc p s (delivered reads)) (fill-FillsTo want reads (p ++ s)))

-- The same for the line that a chunk starts with.
abbrev pub ReadsLine : Bytes → Bytes → Line → Type 0
ReadsLine s end (line nl p rest) =
    (find crlf p ≡ some nl) × ((p ++ delivered rest ≡ s) × (ending rest ≡ end))
ReadsLine s end (no_line err) = (find crlf s ≡ none) × (err ≡ end)

line_stop :
    (p err : Bytes) (rest : List Read) (o : Option ℕ)
    → find crlf p ≡ o
    → delivered rest ≡ []
    → ending rest ≡ err
    → ReadsLine (p ++ []) err (elim o [ some nl ↦ line nl p rest | none ↦ no_line err ])
line_stop p err rest none e none_left ends = (rw (append-nil p) e, refl)
line_stop p err rest (some nl) e none_left ends = (e, (ap (λ t. p ++ t) none_left, ends))

line_more :
    (s p : Bytes) (reads : List Read) (o : Option ℕ)
    → find crlf p ≡ o
    → ReadsLine ((p ++ s) ++ delivered reads) (ending reads) (read_line reads (p ++ s))
    → ReadsLine
        (p ++ (s ++ delivered reads))
        (ending reads)
        (elim o [ some nl ↦ line nl p (received s ∷ reads) | none ↦ read_line reads (p ++ s) ])
unfolding delivered ending
line_more s p reads none e ih =
    subst (λ t. ReadsLine t (ending reads) (read_line reads (p ++ s)))
      (append_assoc p s (delivered reads)) ih
line_more s p reads (some nl) e ih = (e, (refl, refl))

pub read_line-ReadsLine :
    (reads : List Read) (p : Bytes)
    → ReadsLine (p ++ delivered reads) (ending reads) (read_line reads p)
unfolding read_line delivered ending
read_line-ReadsLine [] p = line_stop p [] [] (find crlf p) refl refl refl
read_line-ReadsLine (closed ∷ reads) p =
    line_stop p [] (closed ∷ reads) (find crlf p) refl refl refl
read_line-ReadsLine (timed_out ∷ reads) p =
    line_stop p read_timeout (timed_out ∷ reads) (find crlf p) refl refl refl
read_line-ReadsLine (failed err ∷ reads) p =
    line_stop p (or_else err read_timeout) (failed err ∷ reads) (find crlf p) refl refl refl
read_line-ReadsLine (received s ∷ reads) p =
    line_more s p reads (find crlf p) refl (read_line-ReadsLine reads (p ++ s))

-- The file system takes every write.
abbrev pub IsSound : Disk → Type 0
IsSound disk =
    ((written s : Bytes) → disk.takes written s ≡ true)
    × ((written : Bytes) → disk.flushes written ≡ true)

abbrev pub wrote : Sink → Bytes → Sink
wrote sink s = record sink { written = sink.written ++ s }

pub append-wrote :
    (disk : Disk) (sink : Sink) (s : Bytes)
    → IsSound disk
    → sink.failed ≡ false
    → append disk sink s ≡ (wrote sink s, [])
unfolding append
append-wrote disk sink s sound ok = elim (Bool-cases sink.to_file) [
  | inl file ↦ rw (ok, file, sound.0 sink.written s) refl
  | inr memory ↦ rw (ok, memory) refl
]

-- What `stream` gives.
abbrev pub Streams : ℕ → Bytes → Bytes → Bytes → Sink → Moved → Type 0
Streams remaining truncated s end sink (moved g) =
    (remaining ≤ length s)
    × ((g.pending ++ delivered g.reads ≡ drop remaining s)
        × ((ending g.reads ≡ end) × (g.sink ≡ wrote sink (take remaining s))))
Streams remaining truncated s end sink (ended last err) =
    (length s < remaining) × ((last ≡ wrote sink s) × (err ≡ or_else end truncated))
Streams remaining truncated s end sink unfinished = ⊥

pub wrote-nil : (sink : Sink) → wrote sink [] ≡ sink
wrote-nil sink = ap (λ t. record sink { written = t }) (append-nil sink.written)

pub wrote-wrote : (sink : Sink) (s t : Bytes) → wrote (wrote sink s) t ≡ wrote sink (s ++ t)
wrote-wrote sink s t = ap (λ u. record sink { written = u }) (append_assoc sink.written s t)

-- Moving `n` bytes first and `remaining - n` after them.
Streams-more :
    (n remaining : ℕ) (truncated s end : Bytes) (sink : Sink) (r : Moved)
    → n ≤ remaining
    → n ≤ length s
    → Streams (remaining - n) truncated (drop n s) end (wrote sink (take n s)) r
    → Streams remaining truncated s end sink r
Streams-more n remaining truncated s end sink (moved g) h l q = (
  omega (arith, q.0, length-drop n s),
  (
    q.1.0 ∙ (sym (drop-drop n (remaining - n) s) ∙ ap (λ k. drop k s) (omega arith)),
    (
      q.1.1.0,
      q.1.1.1
          ∙ (wrote-wrote sink (take n s) (take (remaining - n) (drop n s))
              ∙ ap (wrote sink) (sym (take-split n remaining s h))),
    ),
  ),
)
Streams-more n remaining truncated s end sink (ended last err) h l q = (
  omega (arith, q.0, length-drop n s),
  (
    q.1.0 ∙ (wrote-wrote sink (take n s) (drop n s) ∙ ap (wrote sink) (take-append-drop n s)),
    q.1.1,
  ),
)
Streams-more n remaining truncated s end sink unfinished h l q = q

module _ (disk : Disk) (sound : IsSound disk) (truncated : Bytes) where
  move_piece-Streams :
      (again : ℕ → Flow → Moved) (remaining : ℕ) (s end : Bytes) (sink : Sink) (r : Filled)
      → sink.failed ≡ false
      → 1 ≤ remaining
      → FillsTo 1 s end r
      → ((n : ℕ) (f : Flow)
          → n < remaining
          → f.sink.failed ≡ false
          → Streams n truncated
              (f.pending ++ delivered f.reads)
              (ending f.reads)
              f.sink
              (again n f))
      → Streams remaining truncated s end sink (move_piece disk truncated again remaining sink r)
  unfolding move_piece
  move_piece-Streams again remaining [] end sink (not_filled err) ok pos q ih =
      (pos, (sym (wrote-nil sink), ap (λ e. or_else e truncated) q.1))
  move_piece-Streams again remaining (c ∷ s) end sink (not_filled err) ok pos q ih =
      absurd (omega (arith, q.0))
  move_piece-Streams again remaining s end sink (filled p reads) ok pos q ih =
      let n = min remaining (length p) in
      let next : Flow = record {
        pending = drop n p;
        reads = reads;
        sink = wrote sink (take n p);
      } in
      rw (append-wrote disk sink (take n p) sound ok) (
        by_test (Streams remaining truncated s end sink) sink.failed
          (ended (wrote sink (take n p)) []) (again (remaining - n) next)
          (λ bad. absurd (cc (bad, ok)))
          (λ good.
            Streams-more n remaining truncated s end sink (again (remaining - n) next) (omega arith)
              (omega (arith, whole_length))
              (fits_whole (again (remaining - n) next)
                (ih (remaining - n) next (omega (arith, q.1.1, pos)) ok))))
    where
      whole_length : length s ≡ length p + length (delivered reads)
      whole_length = ap length (sym q.0) ∙ length-append p (delivered reads)

      cut_take : take (min remaining (length p)) p ≡ take (min remaining (length p)) s
      cut_take =
          sym (take-append_le (min remaining (length p)) p (delivered reads) (omega arith))
          ∙ ap (take (min remaining (length p))) q.0

      cut_drop :
          drop (min remaining (length p)) p ++ delivered reads ≡ drop (min remaining (length p)) s
      cut_drop =
          sym (drop-append_le (min remaining (length p)) p (delivered reads) (omega arith))
          ∙ ap (drop (min remaining (length p))) q.0

      fits_whole :
          (m : Moved)
          → Streams
              (remaining - min remaining (length p))
              truncated
              (drop (min remaining (length p)) p ++ delivered reads)
              (ending reads)
              (wrote sink (take (min remaining (length p)) p))
              m
          → Streams
              (remaining - min remaining (length p))
              truncated
              (drop (min remaining (length p)) s)
              end
              (wrote sink (take (min remaining (length p)) s))
              m
      fits_whole m t = rw (cut_drop, cut_take, q.1.0) at t

  pub stream-Streams :
      (fuel remaining : ℕ) (f : Flow)
      → f.sink.failed ≡ false
      → remaining ≤ fuel
      → Streams remaining truncated
          (f.pending ++ delivered f.reads)
          (ending f.reads)
          f.sink
          (stream disk truncated fuel remaining f)
  unfolding stream
  stream-Streams zero zero f ok h = (omega arith, (refl, (refl, sym (wrote-nil f.sink))))
  stream-Streams zero (suc remaining) f ok h = absurd (omega arith)
  stream-Streams (suc fuel) zero f ok h = (omega arith, (refl, (refl, sym (wrote-nil f.sink))))
  stream-Streams (suc fuel) (suc remaining) f ok h = rw (suc_eq) (
      move_piece-Streams (stream disk truncated fuel) (suc remaining)
        (f.pending ++ delivered f.reads) (ending f.reads) f.sink (fill 1 f.reads f.pending) ok
        (omega arith) (fill-FillsTo 1 f.reads f.pending)
        (λ n g l sink_ok. stream-Streams fuel n g sink_ok (omega arith)))
    where
      suc_eq : (suc remaining == 0) ≡ false
      suc_eq = ground arith
