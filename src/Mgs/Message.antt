-- ===== src/Mgs/Message.antt =====
-- src/mgs.cpp: `serialize` and `deserialize`. The digest is mbedTLS's SHA-256, a parameter.
use haiku_mgmt_agent.Prelude.{
  ℕ, zero, suc, ◌+◌, ◌%◌, ◌^◌, Bool, not, ◌||◌, ◌&&◌, Option, none, some, [], ◌∷◌, ◌++◌, ltb, ◌==◌,
  if◌then◌else◌, length, take, drop, replicate,
}
use haiku_mgmt_agent.Prelude.Text.{Bytes}
use haiku_mgmt_agent.Prelude.BigEndian.{be_bytes, be_value}
use haiku_mgmt_agent.Mgs.Uuid.{uuid_to_wire, uuid_from_wire}

-- `sequence` is an `int64_t`, kept here as the 64-bit pattern that both casts leave alone.
pub record AgentMessage : Type 0 where
  pub message_type : Bytes
  pub schema_version : ℕ
  pub created_ms : ℕ
  pub sequence : ℕ
  pub flags : ℕ
  pub message_id : Bytes
  pub payload_type : ℕ
  pub payload : Bytes

abbrev pub header_length : ℕ
header_length = 116

-- The type field: `i < size ? type[i] : ' '` for each of its places.
unfoldable pub pad_type : ℕ → Bytes → Bytes
pad_type zero s = []
pad_type (suc n) [] = b' ' ∷ pad_type n []
pad_type (suc n) (c ∷ s) = c ∷ pad_type n s

-- `pop_back` while the last byte is a space or NUL.
abbrev pub is_pad : ℕ → Bool
is_pad c = c == b' ' || c == 0

unfoldable pub strip_type : Bytes → Bytes
strip_type [] = []
strip_type (c ∷ s) = elim (strip_type s) [
  | [] ↦ if is_pad c then [] else c ∷ []
  | d ∷ t ↦ c ∷ d ∷ t
]

-- The sixteen bytes stay zero where the text is no UUID: the result of `uuid_to_wire` is dropped.
abbrev wire_id : Option Bytes → Bytes
wire_id none = replicate 16 0
wire_id (some w) = w

module _ (sha256_raw : Bytes → Bytes) where
  -- The fields in the order of their offsets.
  unfoldable pub serialize : AgentMessage → Bytes
  unfolding pad_type
  serialize m =
      be_bytes 4 header_length
      ++ (pad_type 32 m.message_type
          ++ (be_bytes 4 m.schema_version
              ++ (be_bytes 8 m.created_ms
                  ++ (be_bytes 8 m.sequence
                      ++ (be_bytes 8 m.flags
                          ++ (wire_id (uuid_to_wire m.message_id)
                              ++ (take 32 (sha256_raw m.payload)
                                  ++ (be_bytes 4 m.payload_type
                                      ++ (be_bytes 4 (length m.payload) ++ m.payload)))))))))

-- What `err` says, and the exception that `substr` throws.
pub data Deserialized : Type 0 where
  ok : AgentMessage → Deserialized
  too_short : ℕ → Deserialized
  bad_header_length : ℕ → Deserialized
  throws_out_of_range : Deserialized

-- The message, with `raw.substr(payload_at)`, which throws behind the end.
unfoldable pub read_message : Bytes → ℕ → Deserialized
unfolding strip_type
read_message raw payload_at =
    if ltb (length raw) payload_at
    then throws_out_of_range
    else ok (record {
      message_type = strip_type (take 32 (drop 4 raw));
      schema_version = be_value 32 0 (take 4 (drop 36 raw));
      created_ms = be_value 64 0 (take 8 (drop 40 raw));
      sequence = be_value 64 0 (take 8 (drop 48 raw));
      flags = be_value 64 0 (take 8 (drop 56 raw));
      message_id = uuid_from_wire (take 16 (drop 64 raw));
      payload_type = be_value 32 0 (take 4 (drop 112 raw));
      payload = drop payload_at raw;
    })

-- The test of the declared header length; `header_len + 4` is a 32-bit sum here.
unfoldable pub rejects_header : ℕ → ℕ → Bool
rejects_header header_len size =
    not (header_len == header_length)
    && (ltb header_len header_length || ltb size ((header_len + 4) % 2 ^ 32))

-- `payload_at` is a 64-bit sum.
unfoldable pub deserialize : Bytes → Deserialized
deserialize raw =
    let header_len = be_value 32 0 (take 4 raw) in
    if ltb (length raw) 120
    then too_short (length raw)
    else if rejects_header header_len (length raw)
    then bad_header_length header_len
    else read_message raw (header_len + 4)
