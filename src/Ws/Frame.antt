-- ===== src/Ws/Frame.antt =====
-- src/websocket.cpp: `make_frame` and `parse_frame`.
use Prim.Native.Nat.{bit_and, bit_or, bit_xor}
use haiku_mgmt_agent.Prelude.{
  ℕ, ◌+◌, ◌*◌, ◌%◌, Bool, not, Option, none, some, [], ◌∷◌, ◌++◌, ltb, leb, ◌==◌, if◌then◌else◌,
  length, get_or, take, drop,
}
use haiku_mgmt_agent.Prelude.Text.{Bytes}
use haiku_mgmt_agent.Prelude.BigEndian.{be_bytes, be_value}

-- `kMaxFrameSize`
abbrev pub max_frame_size : ℕ
max_frame_size = 1024 * 1024

-- `payload[i] ^ mask[i % 4]` for each byte, from position `i` on.
unfoldable pub apply_mask : Bytes → ℕ → Bytes → Bytes
apply_mask mask i [] = []
apply_mask mask i (c ∷ cs) = bit_xor c (get_or mask (i % 4) 0) ∷ apply_mask mask (i + 1) cs

-- The length field of a client frame, with the MASK bit.
unfoldable pub length_field : ℕ → Bytes
length_field len =
    if ltb len 126
    then bit_or 0x80 len ∷ []
    else if leb len 0xFFFF
    then bit_or 0x80 126 ∷ be_bytes 2 len
    else bit_or 0x80 127 ∷ be_bytes 8 len

unfoldable pub make_frame : ℕ → Bytes → Bytes → Bytes
unfolding length_field apply_mask
make_frame opcode payload mask =
    bit_or 0x80 (bit_and opcode 0x0F)
    ∷ (length_field (length payload) ++ (mask ++ apply_mask mask 0 payload))

-- What `err` says.
pub data FrameError : Type 0 where
  reserved_bits : FrameError
  frame_too_large : ℕ → FrameError

-- The result of `parse_frame`: 0, -1 with the error, or 1 with the frame and what is left of `buf`.
pub data Parsed : Type 0 where
  need_more : Parsed
  protocol_error : FrameError → Parsed
  frame : (fin : Bool) (opcode : ℕ) (payload rest : Bytes) → Parsed

-- The payload length and the position behind it, or `none` where `buf` does not hold it yet.
unfoldable pub frame_length : Bytes → ℕ → Option (ℕ × ℕ)
frame_length buf len =
    if len == 126
    then (if ltb (length buf) 4 then none else some (be_value 64 0 (take 2 (drop 2 buf)), 4))
    else if len == 127
    then (if ltb (length buf) 10 then none else some (be_value 64 0 (take 8 (drop 2 buf)), 10))
    else some (len, 2)

-- The payload at `at`, unmasked by `key` where the frame is masked.
unfoldable pub take_payload : Bool → ℕ → Option Bytes → Bytes → ℕ → ℕ → Parsed
unfolding apply_mask
take_payload fin opcode key buf at len =
    let raw = take len (drop at buf) in
    if ltb (length buf) (at + len)
    then need_more
    else frame fin opcode (elim key [ none ↦ raw | some mask ↦ apply_mask mask 0 raw ])
        (drop (at + len) buf)

unfoldable pub read_sized : Bool → ℕ → Bool → Bytes → Option (ℕ × ℕ) → Parsed
unfolding take_payload
read_sized fin opcode masked buf none = need_more
read_sized fin opcode masked buf (some (len, at)) =
    if ltb max_frame_size len
    then protocol_error (frame_too_large len)
    else if masked
    then (if ltb (length buf) (at + 4)
        then need_more
        else take_payload fin opcode (some (take 4 (drop at buf))) buf (at + 4) len)
    else take_payload fin opcode none buf at len

unfoldable pub parse_frame : Bytes → Parsed
parse_frame buf =
    let b0 = get_or buf 0 0 in
    let b1 = get_or buf 1 0 in
    if ltb (length buf) 2
    then need_more
    else if not (bit_and b0 0x70 == 0)
    then protocol_error reserved_bits
    else read_sized (not (bit_and b0 0x80 == 0)) (bit_and b0 0x0F) (not (bit_and b1 0x80 == 0)) buf
        (frame_length buf (bit_and b1 0x7F))
