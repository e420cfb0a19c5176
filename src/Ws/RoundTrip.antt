-- ===== src/Ws/RoundTrip.antt =====
-- src/websocket.cpp: what `parse_frame` reads from what `make_frame` wrote.
use Prim.Native.Nat.{bit_and, bit_or}
use haiku_mgmt_agent.Prelude.{
  ℕ, zero, suc, ◌+◌, ◌%◌, ◌≤◌, ◌<◌, ◌≡◌, refl, ap, ◌∙◌, true, false, some, [], ◌∷◌, ◌++◌, arith,
  ltb, leb, ◌==◌, length, get_or, append_assoc, All, length-append, slice-append, drop-append,
  take-append, drop-drop, Bool-cases, inl, inr,
}
use haiku_mgmt_agent.Prelude.Bits.{and_low4, and_low7, and_top, or_top, xor_twice, and_reserved}
use haiku_mgmt_agent.Prelude.Text.{Bytes, IsByte}
use haiku_mgmt_agent.Prelude.BigEndian.{
  be_bytes, length-be_bytes, be_value-be_bytes_16, be_value-be_bytes_64,
}
use haiku_mgmt_agent.Ws.Frame.{
  max_frame_size, apply_mask, length_field, make_frame, frame, frame_length, take_payload,
  read_sized, parse_frame,
}

pub length-apply_mask : (mask : Bytes) (i : ℕ) (p : Bytes) → length (apply_mask mask i p) ≡ length p
unfolding apply_mask
length-apply_mask mask i [] = refl
length-apply_mask mask i (c ∷ cs) = ap suc (length-apply_mask mask (i + 1) cs)

get_or-IsByte : (xs : Bytes) (i : ℕ) → All IsByte xs → get_or xs i 0 < 256
get_or-IsByte [] i h = omega arith
get_or-IsByte (x ∷ xs) zero h = h.0
get_or-IsByte (x ∷ xs) (suc i) h = get_or-IsByte xs i h.1

-- Masking twice gives the payload back.
apply_mask_twice :
    (mask : Bytes) (i : ℕ) (p : Bytes)
    → All IsByte mask
    → All IsByte p
    → apply_mask mask i (apply_mask mask i p) ≡ p
unfolding apply_mask
apply_mask_twice mask i [] hm hp = refl
apply_mask_twice mask i (c ∷ cs) hm hp = cc (
  xor_twice c (get_or mask (i % 4) 0) hp.0 (get_or-IsByte mask (i % 4) hm),
  apply_mask_twice mask (i + 1) cs hm hp.1,
)

length-length_field : (len : ℕ) → length (length_field len) ≤ 9
unfolding length_field
length-length_field len = ground (arith, length-be_bytes 2 len, length-be_bytes 8 len)

opcode_byte : (op : ℕ) → op < 16 → bit_or 0x80 (bit_and op 0x0F) ≡ 128 + op
opcode_byte op h = rw (and_low4 op (omega arith)) (or_top (op % 16) (omega arith) ∙ omega arith)

-- The header that `make_frame` writes is read back up to the payload length.
HeaderReads : ℕ → ℕ → Bytes → Type 0
HeaderReads b0 len tail =
    (frame_length (b0 ∷ (length_field len ++ tail))
        (bit_and (get_or (length_field len ++ tail) 0 0) 0x7F)
      ≡ some (len, suc (length (length_field len))))
    × ((bit_and (get_or (length_field len ++ tail) 0 0) 0x80 == 0) ≡ false)

header_short : (b0 len : ℕ) (tail : Bytes) → len < 126 → HeaderReads b0 len tail
unfolding HeaderReads frame_length length_field
header_short b0 len tail h = ground (
  arith,
  or_top len (omega arith),
  and_low7 (128 + len) (omega arith),
  and_top (128 + len) (omega arith),
)

header_medium : (b0 len : ℕ) (tail : Bytes) → 126 ≤ len → len ≤ 0xFFFF → HeaderReads b0 len tail
unfolding HeaderReads frame_length length_field
header_medium b0 len tail lo hi = ground (
  arith,
  length-append (be_bytes 2 len) tail,
  length-be_bytes 2 len,
  take-append 2 (be_bytes 2 len) tail (length-be_bytes 2 len),
  be_value-be_bytes_16 len (omega arith),
)

header_long :
    (b0 len : ℕ) (tail : Bytes) → 0xFFFF < len → len ≤ max_frame_size → HeaderReads b0 len tail
unfolding HeaderReads frame_length length_field
header_long b0 len tail lo hi = ground (
  arith,
  length-append (be_bytes 8 len) tail,
  length-be_bytes 8 len,
  take-append 8 (be_bytes 8 len) tail (length-be_bytes 8 len),
  be_value-be_bytes_64 len (omega arith),
)

header_reads : (b0 len : ℕ) (tail : Bytes) → len ≤ max_frame_size → HeaderReads b0 len tail
header_reads b0 len tail h = elim (Bool-cases (ltb len 126)) [
  | inl short ↦ header_short b0 len tail (ground arith)
  | inr other ↦ elim (Bool-cases (leb len 0xFFFF)) [
    | inl medium ↦ header_medium b0 len tail (ground arith) (ground arith)
    | inr long ↦ header_long b0 len tail (ground arith) h
  ]
]

-- A masked payload behind a header of `at` bytes, with `rest` behind it.
take_payload_masked :
    (op at : ℕ) (head mask p rest : Bytes)
    → length head ≡ at
    → All IsByte mask
    → All IsByte p
    → take_payload true op (some mask) (head ++ (apply_mask mask 0 p ++ rest)) at (length p)
      ≡ frame true op p rest
unfolding take_payload
take_payload_masked op at head mask p rest ha hm hp = ground (
  arith,
  length-append head (apply_mask mask 0 p ++ rest),
  length-append (apply_mask mask 0 p) rest,
  length-apply_mask mask 0 p,
  slice-append (length p) at head (apply_mask mask 0 p) rest ha (length-apply_mask mask 0 p),
  drop-drop at (length p) (head ++ (apply_mask mask 0 p ++ rest)),
  drop-append at head (apply_mask mask 0 p ++ rest) ha,
  drop-append (length p) (apply_mask mask 0 p) rest (length-apply_mask mask 0 p),
  apply_mask_twice mask 0 p hm hp,
)

-- Behind a header of `at` bytes the key and the masked payload are read back.
read_sized_masked :
    (op at : ℕ) (head mask p rest : Bytes)
    → length head ≡ at
    → length mask ≡ 4
    → length p ≤ max_frame_size
    → All IsByte mask
    → All IsByte p
    → read_sized true op true
        (head ++ (mask ++ (apply_mask mask 0 p ++ rest)))
        (some (length p, at))
      ≡ frame true op p rest
unfolding read_sized
read_sized_masked op at head mask p rest ha h4 hl hm hp = ground (
  arith,
  length-append head (mask ++ (apply_mask mask 0 p ++ rest)),
  length-append mask (apply_mask mask 0 p ++ rest),
  slice-append 4 at head mask (apply_mask mask 0 p ++ rest) ha h4,
  append_assoc head mask (apply_mask mask 0 p ++ rest),
  take_payload_masked op (at + 4) (head ++ mask) mask p rest (length-append head mask ∙ omega arith)
      hm hp,
)

-- For an opcode of four bits, four key bytes and a payload of bytes within the frame limit,
-- `parse_frame` reads the frame that `make_frame` built, whole and unmasked, and leaves in the buffer
-- exactly the bytes that follow it.
pub parse_frame-make_frame :
    (op : ℕ) (p mask rest : Bytes)
    → op < 16
    → length p ≤ max_frame_size
    → length mask ≡ 4
    → All IsByte mask
    → All IsByte p
    → parse_frame (make_frame op p mask ++ rest) ≡ frame true op p rest
unfolding parse_frame make_frame HeaderReads
parse_frame-make_frame op p mask rest ho hl h4 hm hp =
    let tail = mask ++ (apply_mask mask 0 p ++ rest) in
    let lf = length_field (length p) in
    ground (
      arith,
      opcode_byte op ho,
      and_low4 (128 + op) (omega arith),
      and_top (128 + op) (omega arith),
      and_reserved (128 + op) (omega arith),
      append_assoc lf (mask ++ apply_mask mask 0 p) rest,
      append_assoc mask (apply_mask mask 0 p) rest,
      header_reads (128 + op) (length p) tail hl,
      length-append lf tail,
      length-append mask (apply_mask mask 0 p ++ rest),
      read_sized_masked op (suc (length lf)) ((128 + op) ∷ lf) mask p rest refl h4 hl hm hp,
    )
