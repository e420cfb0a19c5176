-- ===== src/Tests/Wire.antt =====
-- Runs of the frames, the messages, the encoders and the retransmission buffer.
use haiku_mgmt_agent.Prelude.{
  ℕ, zero, suc, ◌+◌, ◌*◌, ◌/◌, ◌^◌, ◌-◌, ◌≤◌, ◌≡◌, ◌↔◌, refl, arith, true, false, none, some, [],
  ◌∷◌, ◌++◌, length, All, replicate,
}
use haiku_mgmt_agent.Prelude.Int.{pos}
use haiku_mgmt_agent.Prelude.Text.{Bytes, IsByte, codes}
use haiku_mgmt_agent.Prelude.BigEndian.{be_value}
use haiku_mgmt_agent.Ws.Frame.{
  apply_mask, length_field, frame_length, read_sized, take_payload, make_frame, parse_frame, frame,
  need_more,
}
use haiku_mgmt_agent.Ws.RoundTrip.{parse_frame-make_frame}
use haiku_mgmt_agent.Ws.Stream.{parse_frame-append, parse_frame_partial, extend, IsDone}
use haiku_mgmt_agent.Mgs.Uuid.{uuid_to_wire, uuid_from_wire, uuid_to_wire-uuid_from_wire}
use haiku_mgmt_agent.Mgs.Message.{
  AgentMessage, strip_type, serialize, deserialize, ok, throws_out_of_range,
}
use haiku_mgmt_agent.Mgs.RoundTrip.{IsWire, deserialize-serialize, deserialize_throws}
use haiku_mgmt_agent.Util.Codec.{base64_encode, uri_encode}
use haiku_mgmt_agent.Util.Codec.Decode.{base64_decode, base64_decode-base64_encode}
use haiku_mgmt_agent.Util.Codec.Uri.{IsUriByte, uri_length, uri_decode, uri_decode-uri_encode}
use haiku_mgmt_agent.Json.Strings.{string_, escape}
use haiku_mgmt_agent.Json.Strings.RoundTrip.{string_-escape}
use haiku_mgmt_agent.Json.Strings
use haiku_mgmt_agent.Session.Outbox.{Entry, Outbox, max_buffered, ack, add, due_resend}
use haiku_mgmt_agent.Session.Outbox.Laws.{
  unacked, Rising, IsOutbox, ack-unacked, Outbox_keeps, pump, pump_silent,
}

abbrev key : Bytes
key = 1 ∷ 2 ∷ 3 ∷ 4 ∷ []

abbrev hi : Bytes
hi = codes "hi"

parse_frame-make_frame_example :
    parse_frame (make_frame 1 hi key ++ codes "x") ≡ frame true 1 hi (codes "x")
parse_frame-make_frame_example =
    parse_frame-make_frame 1 hi key (codes "x") (omega arith) (omega arith) refl
      (omega arith, (omega arith, (omega arith, (omega arith, tt))))
      (omega arith, (omega arith, tt))

abbrev close_frame : Bytes
close_frame = 0x88 ∷ 0 ∷ []

close_frame-IsDone : IsDone (parse_frame close_frame)
unfolding parse_frame frame_length read_sized take_payload
close_frame-IsDone = tt

parse_frame-append_example : parse_frame (close_frame ++ hi) ≡ extend (parse_frame close_frame) hi
parse_frame-append_example = parse_frame-append close_frame hi close_frame-IsDone

hi_frame : make_frame 1 hi key ≡ 0x81 ∷ 0x82 ∷ 1 ∷ 2 ∷ 3 ∷ 4 ∷ 105 ∷ 107 ∷ []
unfolding make_frame apply_mask length_field
hi_frame = refl

parse_frame_partial_example : parse_frame (0x81 ∷ 0x82 ∷ 1 ∷ 2 ∷ 3 ∷ 4 ∷ []) ≡ need_more
parse_frame_partial_example =
    parse_frame_partial 1 hi key (0x81 ∷ 0x82 ∷ 1 ∷ 2 ∷ 3 ∷ 4 ∷ []) (107 ∷ []) 105 (omega arith)
      (omega arith) refl (omega arith, (omega arith, (omega arith, (omega arith, tt))))
      (omega arith, (omega arith, tt)) hi_frame

base64_example :
    (base64_decode (base64_encode hi) ≡ hi) × (length (base64_encode hi) ≡ (length hi + 2) / 3 * 4)
base64_example = base64_decode-base64_encode hi (omega arith, (omega arith, tt))

uri_example :
    (uri_decode 3 (uri_encode (codes "a/") false) ≡ codes "a/")
    × (All (IsUriByte false) (uri_encode (codes "a/") false)
        × (length (uri_encode (codes "a/") false) ≡ uri_length false (codes "a/")))
uri_example = uri_decode-uri_encode (codes "a/") false (omega arith, (omega arith, tt))

string_-escape_example :
    string_ (escape (codes "a\"b") ++ codes ",") ≡ Strings.ok (codes "a\"b") (codes ",")
string_-escape_example = string_-escape (codes "a\"b") (codes ",")

replicate_bytes : (n b : ℕ) → IsByte b → All IsByte (replicate n b)
replicate_bytes zero b h = tt
replicate_bytes (suc n) b h = (h, replicate_bytes n b h)

abbrev sixteen : Bytes
sixteen = replicate 16 7

sixteen_bytes : All IsByte sixteen
sixteen_bytes = replicate_bytes 16 7 (omega arith)

uuid_example : uuid_to_wire (uuid_from_wire sixteen) ≡ some sixteen
uuid_example = uuid_to_wire-uuid_from_wire sixteen refl sixteen_bytes

abbrev message : AgentMessage
message = record {
  message_type = codes "input_stream_data";
  schema_version = 1;
  created_ms = 5;
  sequence = 3;
  flags = 0;
  message_id = uuid_from_wire sixteen;
  payload_type = 1;
  payload = hi;
}

message-IsWire : IsWire message
unfolding strip_type
message-IsWire = record {
  type_fits = omega arith;
  type_bare = refl;
  schema_fits = omega arith;
  created_fits = omega arith;
  sequence_fits = omega arith;
  flags_fits = omega arith;
  payload_type_fits = omega arith;
  id = sixteen;
  id_length = refl;
  id_bytes = sixteen_bytes;
  id_text = refl;
}

abbrev digest : Bytes → Bytes
digest s = replicate 32 0

deserialize-serialize_example : deserialize (serialize digest message) ≡ ok message
deserialize-serialize_example = deserialize-serialize digest (λ s. refl) message message-IsWire

abbrev huge_header : Bytes
huge_header = 255 ∷ 255 ∷ 255 ∷ 255 ∷ replicate 116 0

huge_header_bytes : All IsByte huge_header
huge_header_bytes =
    (omega arith, (omega arith, (omega arith, (omega arith, replicate_bytes 116 0 (omega arith)))))

deserialize_throws_example :
    (deserialize huge_header ≡ throws_out_of_range)
    ↔ ((120 ≤ length huge_header) × (2 ^ 32 - 4 ≤ be_value 32 0 (255 ∷ 255 ∷ 255 ∷ 255 ∷ [])))
deserialize_throws_example = deserialize_throws huge_header (omega arith) huge_header_bytes

abbrev entry : ℕ → Entry
entry n = record { seq = pos n; frame = hi; last_sent_ms = 0; resends = 0 }

abbrev two_frames : Outbox
two_frames = entry 1 ∷ entry 2 ∷ []

two_frames-Rising : Rising (pos 0) two_frames
two_frames-Rising = (refl, (refl, tt))

ack-unacked_example : ack two_frames (pos 1) ≡ unacked two_frames (pos 1)
ack-unacked_example = ack-unacked (pos 0) (pos 1) two_frames two_frames-Rising

Outbox_keeps_example :
    IsOutbox (pos 0) (add two_frames (pos 3) hi 9)
    × (IsOutbox (pos 0) (ack two_frames (pos 3))
        × IsOutbox (pos 0) (due_resend two_frames 9).buffer)
unfolding max_buffered
Outbox_keeps_example =
    Outbox_keeps (pos 0) (pos 3) two_frames hi 9
      (record {
        rising = two_frames-Rising;
        bounded = omega arith;
        resent = (omega arith, (omega arith, tt));
      })
      refl

-- A frame that may be resent twice more, in rounds that are not evenly spaced.
abbrev old_frame : Entry
old_frame = record { seq = pos 1; frame = hi; last_sent_ms = 0; resends = 238 }

pump_silent_example :
    ((pump 250 (500 ∷ 900 ∷ []) (old_frame ∷ [])).dead ≡ true)
    × ((pump 250 (500 ∷ 900 ∷ []) (old_frame ∷ [])).resend ≡ none)
pump_silent_example =
    pump_silent (500 ∷ 900 ∷ []) 250 old_frame [] (omega arith) (omega arith, (omega arith, tt))
      (omega arith)
