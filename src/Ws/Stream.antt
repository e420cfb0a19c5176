-- ===== src/Ws/Stream.antt =====
-- src/websocket.cpp: `parse_frame` on a buffer that grows as the network delivers.
use Prim.Native.Nat.{bit_and}
use haiku_mgmt_agent.Prelude.{
  ℕ, ◌+◌, ◌≤◌, ◌<◌, ◌≡◌, refl, Bool, true, not, Option, none, some, [], ◌∷◌, ◌++◌, arith, ◌==◌,
  if◌then◌else◌, length, get_or, take, drop, append-nil, All, length-append, slice-append_le,
  drop-append_le, length-take, length-drop, Bool-cases, inl, inr, Option-cases,
}
use haiku_mgmt_agent.Prelude.Text.{Bytes, IsByte}
use haiku_mgmt_agent.Ws.Frame.{
  max_frame_size, make_frame, Parsed, frame, need_more, protocol_error, reserved_bits, frame_length,
  take_payload, read_sized, parse_frame,
}
use haiku_mgmt_agent.Ws.RoundTrip.{length-apply_mask, parse_frame-make_frame}

-- What a result becomes when `more` arrives behind the buffer: the rest grows, an error stays.
abbrev pub extend : Parsed → Bytes → Parsed
extend (frame fin op p rest) more = frame fin op p (rest ++ more)
extend (protocol_error e) more = protocol_error e
extend need_more more = need_more

abbrev pub IsDone : Parsed → Type 0
IsDone need_more = ⊥
IsDone _ = Unit

frame_length-append :
    (buf more : Bytes) (l : ℕ) {p : ℕ × ℕ}
    → frame_length buf l ≡ some p
    → frame_length (buf ++ more) l ≡ some p
unfolding frame_length
frame_length-append buf more l h =
    ground
      (arith, length-append buf more, slice-append_le 2 2 buf more, slice-append_le 8 2 buf more)

take_payload-append :
    (fin : Bool) (op : ℕ) (key : Option Bytes) (buf more : Bytes) (at len : ℕ)
    → IsDone (take_payload fin op key buf at len)
    → take_payload fin op key (buf ++ more) at len
      ≡ extend (take_payload fin op key buf at len) more
unfolding take_payload
take_payload-append fin op key buf more at len h = ground (
  arith,
  length-append buf more,
  slice-append_le len at buf more,
  drop-append_le (at + len) buf more,
)

read_sized-append :
    (fin : Bool) (op : ℕ) (masked : Bool) (buf more : Bytes) (len at : ℕ)
    → IsDone (read_sized fin op masked buf (some (len, at)))
    → read_sized fin op masked (buf ++ more) (some (len, at))
      ≡ extend (read_sized fin op masked buf (some (len, at))) more
unfolding read_sized
read_sized-append fin op masked buf more len at h = ground (
  arith,
  length-append buf more,
  slice-append_le 4 at buf more,
  take_payload-append fin op (some (take 4 (drop at buf))) buf more (at + 4) len,
  take_payload-append fin op none buf more at len,
)

read_any-append :
    (fin : Bool) (op : ℕ) (masked : Bool) (buf more : Bytes) (l : ℕ)
    → IsDone (read_sized fin op masked buf (frame_length buf l))
    → read_sized fin op masked (buf ++ more) (frame_length (buf ++ more) l)
      ≡ extend (read_sized fin op masked buf (frame_length buf l)) more
read_any-append fin op masked buf more l h = elim (Option-cases (frame_length buf l)) [
  | inl e ↦ absurd (unfold read_sized in (rw e at h))
  | inr ((len, at), e) ↦
      rw (e, frame_length-append buf more l e)
        (read_sized-append fin op masked buf more len at (rw e at h))
]

-- `parse_frame` on a buffer with at least two bytes.
parse_frame_two :
    (b0 b1 : ℕ) (t : Bytes)
    → parse_frame (b0 ∷ b1 ∷ t) ≡ (
        if bit_and b0 0x70 == 0
        then read_sized
            (not (bit_and b0 0x80 == 0))
            (bit_and b0 0x0F)
            (not (bit_and b1 0x80 == 0))
            (b0 ∷ b1 ∷ t)
            (frame_length (b0 ∷ b1 ∷ t) (bit_and b1 0x7F))
        else protocol_error reserved_bits)
unfolding parse_frame
parse_frame_two b0 b1 t = ground arith

-- A result other than "need more bytes" does not depend on what follows in the stream: with more
-- bytes behind the buffer the same frame is parsed and they join the rest, and an error stays the
-- same error.
pub parse_frame-append :
    (buf more : Bytes)
    → IsDone (parse_frame buf)
    → parse_frame (buf ++ more) ≡ extend (parse_frame buf) more
parse_frame-append [] more h = absurd (unfold parse_frame in h)
parse_frame-append (b0 ∷ []) more h = absurd (unfold parse_frame in h)
parse_frame-append (b0 ∷ b1 ∷ t) more h = elim (Bool-cases (bit_and b0 0x70 == 0)) [
  | inl plain ↦
      let fits = rw (parse_frame_two b0 b1 t, plain) at h in
      rw (parse_frame_two, parse_frame_two, plain)
        (read_any-append (not (bit_and b0 0x80 == 0)) (bit_and b0 0x0F) (not (bit_and b1 0x80 == 0))
          (b0 ∷ b1 ∷ t) more (bit_and b1 0x7F) fits)
  | inr reserved ↦ rw (parse_frame_two, parse_frame_two, reserved)
]

-- A parsed frame fits the limit, and at least two bytes of the buffer are gone.
take_payload_takes :
    (fin fin' : Bool) (op op' : ℕ) (key : Option Bytes) (buf p rest : Bytes) (at len : ℕ)
    → take_payload fin op key buf at len ≡ frame fin' op' p rest
    → (length p ≡ len) × (length rest + at + length p ≡ length buf)
unfolding take_payload
take_payload_takes fin fin' op op' none buf p rest at len h =
    ground (arith, length-drop (at + len) buf, length-drop at buf, length-take len (drop at buf))
take_payload_takes fin fin' op op' (some mask) buf p rest at len h = ground (
  arith,
  length-drop (at + len) buf,
  length-drop at buf,
  length-take len (drop at buf),
  length-apply_mask mask 0 (take len (drop at buf)),
)

read_sized_takes :
    (fin fin' : Bool) (op op' : ℕ) (masked : Bool) (buf p rest : Bytes) (len at : ℕ)
    → 2 ≤ at
    → read_sized fin op masked buf (some (len, at)) ≡ frame fin' op' p rest
    → (length p ≤ max_frame_size) × (length rest + length p + 2 ≤ length buf)
unfolding read_sized
read_sized_takes fin fin' op op' masked buf p rest len at two h = ground (
  arith,
  take_payload_takes fin fin' op op' (some (take 4 (drop at buf))) buf p rest (at + 4) len,
  take_payload_takes fin fin' op op' none buf p rest at len,
)

frame_length-le : (buf : Bytes) (l len at : ℕ) → frame_length buf l ≡ some (len, at) → 2 ≤ at
unfolding frame_length
frame_length-le buf l len at h = ground arith

read_sized-none :
    (fin : Bool) (op : ℕ) (masked : Bool) (buf : Bytes)
    → read_sized fin op masked buf none ≡ need_more
unfolding read_sized
read_sized-none fin op masked buf = refl

-- A parsed frame carries at most `kMaxFrameSize` bytes of payload, and parsing it takes at least the
-- payload and two bytes of header off the buffer.
pub parse_frame_takes :
    (buf : Bytes) {fin : Bool} {op : ℕ} {p rest : Bytes}
    → parse_frame buf ≡ frame fin op p rest
    → (length p ≤ max_frame_size) × (length rest + length p + 2 ≤ length buf)
unfolding parse_frame
parse_frame_takes buf {fin} {op} {p} {rest} h =
    elim (Option-cases (frame_length buf (bit_and (get_or buf 1 0) 0x7F))) [
      | inl e ↦ absurd (ground (arith, unfold_none, e))
      | inr ((len, at), e) ↦ ground (
        arith,
        e,
        read_sized_takes (not (bit_and (get_or buf 0 0) 0x80 == 0)) fin
            (bit_and (get_or buf 0 0) 0x0F) op (not (bit_and (get_or buf 1 0) 0x80 == 0)) buf p rest
            len at (frame_length-le buf (bit_and (get_or buf 1 0) 0x7F) len at e),
      )
    ]
  where
    unfold_none :
        read_sized
          (not (bit_and (get_or buf 0 0) 0x80 == 0))
          (bit_and (get_or buf 0 0) 0x0F)
          (not (bit_and (get_or buf 1 0) 0x80 == 0))
          buf
          none
        ≡ need_more
    unfold_none = read_sized-none _ _ _ buf

-- On every proper prefix of a frame that `make_frame` built, `parse_frame` asks for more bytes: it
-- neither fails nor delivers a frame early.
pub parse_frame_partial :
    (op : ℕ) (p mask front back : Bytes) (x : ℕ)
    → op < 16
    → length p ≤ max_frame_size
    → length mask ≡ 4
    → All IsByte mask
    → All IsByte p
    → make_frame op p mask ≡ front ++ (x ∷ back)
    → parse_frame front ≡ need_more
parse_frame_partial op p mask front back x ho hl h4 hm hp e = go (parse_frame front) refl
  where
    whole : parse_frame (front ++ (x ∷ back)) ≡ frame true op p []
    whole = rw (append-nil, e) at (parse_frame-make_frame op p mask [] ho hl h4 hm hp)

    go : (r : Parsed) → parse_frame front ≡ r → parse_frame front ≡ need_more
    go need_more q = q
    go (protocol_error w) q = cc (whole, parse_frame-append front (x ∷ back) (rw q tt), q)
    go (frame f o pl rest) q = absurd (
        ground (
          arith,
          whole,
          parse_frame-append front (x ∷ back) (rw q tt),
          q,
          length-append rest (x ∷ back),
        ))
