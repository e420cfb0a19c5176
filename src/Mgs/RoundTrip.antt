-- ===== src/Mgs/RoundTrip.antt =====
-- src/mgs.cpp: what `deserialize` makes of a serialized message, and of a header length it cannot add to.
use haiku_mgmt_agent.Prelude.{
  ℕ, zero, suc, ◌+◌, ◌-◌, ◌*◌, ◌%◌, ◌^◌, ◌≤◌, ◌<◌, ◌≡◌, refl, ap, ◌∙◌, false, ◌↔◌, some, List, [],
  ◌∷◌, ◌++◌, arith, ltb, length, take, drop, All, Bool-cases, inl, inr, length-append, length-take,
  take-append, drop-append, drop-drop, le→ltb, All-take,
}
use haiku_mgmt_agent.Prelude.Text.{Bytes, IsByte}
use haiku_mgmt_agent.Prelude.BigEndian.{
  be_bytes, be_value, length-be_bytes, be_value-be_bytes_32, be_value-be_bytes_64,
}
use haiku_mgmt_agent.Mgs.Uuid.{uuid_to_wire, uuid_from_wire, uuid_to_wire-uuid_from_wire}
use haiku_mgmt_agent.Mgs.Message.{
  AgentMessage, pad_type, strip_type, serialize, ok, throws_out_of_range, rejects_header,
  read_message, deserialize,
}

length-pad_type : (n : ℕ) (s : Bytes) → length (pad_type n s) ≡ n
unfolding pad_type
length-pad_type zero s = refl
length-pad_type (suc n) [] = ap suc (length-pad_type n [])
length-pad_type (suc n) (c ∷ s) = ap suc (length-pad_type n s)

strip_cons :
    (c : ℕ) (s t : Bytes) → strip_type s ≡ strip_type t → strip_type (c ∷ s) ≡ strip_type (c ∷ t)
unfolding strip_type
strip_cons c s t e = rw (e, strip_type)

strip_blank : strip_type (b' ' ∷ []) ≡ strip_type []
unfolding strip_type
strip_blank = refl

strip_type-pad_type : (n : ℕ) (s : Bytes) → length s ≤ n → strip_type (pad_type n s) ≡ strip_type s
unfolding pad_type
strip_type-pad_type zero [] h = refl
strip_type-pad_type zero (c ∷ s) h = absurd (omega arith)
strip_type-pad_type (suc n) [] h =
    strip_cons b' ' (pad_type n []) [] (strip_type-pad_type n [] (omega arith)) ∙ strip_blank
strip_type-pad_type (suc n) (c ∷ s) h =
    strip_cons c (pad_type n s) s (strip_type-pad_type n s (omega arith))

-- One field behind another.
drop_next {ℓ} :
    {A : Type ℓ} (i n : ℕ) (raw xs ys : List A)
    → drop i raw ≡ xs ++ ys
    → length xs ≡ n
    → drop (i + n) raw ≡ ys
drop_next i n raw xs ys e h = drop-drop i n raw ∙ ap (drop n) e ∙ drop-append n xs ys h

field_at {ℓ} :
    {A : Type ℓ} (i n : ℕ) (raw xs ys : List A)
    → drop i raw ≡ xs ++ ys
    → length xs ≡ n
    → take n (drop i raw) ≡ xs
field_at i n raw xs ys e h = ap (take n) e ∙ take-append n xs ys h

-- Ten fields of the lengths that the format gives them, and the payload.
module _ (h ty sv cr sq fl id dg pt pl p : Bytes) (hh : length h ≡ 4) (hty : length ty ≡ 32)
    (hsv : length sv ≡ 4) (hcr : length cr ≡ 8) (hsq : length sq ≡ 8) (hfl : length fl ≡ 8)
    (hid : length id ≡ 16) (hdg : length dg ≡ 32) (hpt : length pt ≡ 4) (hpl : length pl ≡ 4) where
  raw : Bytes
  raw = h ++ (ty ++ (sv ++ (cr ++ (sq ++ (fl ++ (id ++ (dg ++ (pt ++ (pl ++ p)))))))))

  length-raw : length raw ≡ 120 + length p
  unfolding raw
  length-raw = omega (arith, length-append {0})

  long_enough : ltb (length raw) 120 ≡ false
  long_enough = le→ltb (length raw) 120 (omega (arith, length-raw))

  -- Every slice that `deserialize` takes is the field that stands there.
  read_layout :
      read_message raw 120
      ≡ ok (record {
        message_type = strip_type ty;
        schema_version = be_value 32 0 sv;
        created_ms = be_value 64 0 cr;
        sequence = be_value 64 0 sq;
        flags = be_value 64 0 fl;
        message_id = uuid_from_wire id;
        payload_type = be_value 32 0 pt;
        payload = p;
      })
  unfolding raw read_message
  read_layout =
      let r9 = pl ++ p in
      let r8 = pt ++ r9 in
      let r7 = dg ++ r8 in
      let r6 = id ++ r7 in
      let r5 = fl ++ r6 in
      let r4 = sq ++ r5 in
      let r3 = cr ++ r4 in
      let r2 = sv ++ r3 in
      let r1 = ty ++ r2 in
      let r = h ++ r1 in
      let d4 : drop 4 r ≡ r1 = drop-append 4 h r1 hh in
      let d36 : drop 36 r ≡ r2 = drop_next 4 32 r ty r2 d4 hty in
      let d40 : drop 40 r ≡ r3 = drop_next 36 4 r sv r3 d36 hsv in
      let d48 : drop 48 r ≡ r4 = drop_next 40 8 r cr r4 d40 hcr in
      let d56 : drop 56 r ≡ r5 = drop_next 48 8 r sq r5 d48 hsq in
      let d64 : drop 64 r ≡ r6 = drop_next 56 8 r fl r6 d56 hfl in
      let d80 : drop 80 r ≡ r7 = drop_next 64 16 r id r7 d64 hid in
      let d112 : drop 112 r ≡ r8 = drop_next 80 32 r dg r8 d80 hdg in
      let d116 : drop 116 r ≡ r9 = drop_next 112 4 r pt r9 d112 hpt in
      let d120 : drop 120 r ≡ p = drop_next 116 4 r pl p d116 hpl in
      let long : ltb (length r) 120 ≡ false = long_enough in
      rw (
        long,
        field_at 4 32 r ty r2 d4 hty,
        field_at 36 4 r sv r3 d36 hsv,
        field_at 40 8 r cr r4 d40 hcr,
        field_at 48 8 r sq r5 d48 hsq,
        field_at 56 8 r fl r6 d56 hfl,
        field_at 64 16 r id r7 d64 hid,
        field_at 112 4 r pt r9 d112 hpt,
        d120,
      )

  header_of : be_value 32 0 (take 4 raw) ≡ be_value 32 0 h
  unfolding raw
  header_of = ap (be_value 32 0) (take-append 4 h _ hh)

  deserialize_layout : be_value 32 0 h ≡ 116 → deserialize raw ≡ read_message raw 120
  unfolding deserialize
  deserialize_layout e = rw (long_enough, header_of ∙ e) (unfold rejects_header in refl)

-- What a message must satisfy to survive the trip: each number fits its field, the type is at most
-- 32 bytes with no padding at its end, and the identifier is a UUID in lower-case canonical form.
pub record IsWire (m : AgentMessage) : Type 0 where
  pub type_fits : length m.message_type ≤ 32
  pub type_bare : strip_type m.message_type ≡ m.message_type
  pub schema_fits : m.schema_version < 2 ^ 32
  pub created_fits : m.created_ms < 2 ^ 64
  pub sequence_fits : m.sequence < 2 ^ 64
  pub flags_fits : m.flags < 2 ^ 64
  pub payload_type_fits : m.payload_type < 2 ^ 32
  pub id : Bytes
  pub id_length : length id ≡ 16
  pub id_bytes : All IsByte id
  pub id_text : m.message_id ≡ uuid_from_wire id

-- For a digest of 32 bytes, `deserialize` gives back every message that `serialize` wrote, if its
-- fields fit the wire format.
pub deserialize-serialize :
    (sha256_raw : Bytes → Bytes)
    → ((s : Bytes) → length (sha256_raw s) ≡ 32)
    → (m : AgentMessage) → IsWire m
    → deserialize (serialize sha256_raw m) ≡ ok m
unfolding raw serialize
deserialize-serialize sha hs m w =
    let wire : uuid_to_wire m.message_id ≡ some w.id =
      rw w.id_text (uuid_to_wire-uuid_from_wire w.id w.id_length w.id_bytes) in
    let digest = take 32 (sha m.payload) in
    let digest_length : length digest ≡ 32 =
      omega (arith, length-take 32 (sha m.payload), hs m.payload) in
    let ty = pad_type 32 m.message_type in
    let sv = be_bytes 4 m.schema_version in
    let cr = be_bytes 8 m.created_ms in
    let sq = be_bytes 8 m.sequence in
    let fl = be_bytes 8 m.flags in
    let pt = be_bytes 4 m.payload_type in
    let pl = be_bytes 4 (length m.payload) in
    let layout =
      deserialize_layout (be_bytes 4 116) ty sv cr sq fl w.id digest pt pl m.payload
        (length-be_bytes 4 116) (length-pad_type 32 m.message_type)
        (length-be_bytes 4 m.schema_version) (length-be_bytes 8 m.created_ms)
        (length-be_bytes 8 m.sequence) (length-be_bytes 8 m.flags) w.id_length digest_length
        (length-be_bytes 4 m.payload_type) (length-be_bytes 4 (length m.payload))
        (be_value-be_bytes_32 116 (omega arith)) in
    let fields =
      read_layout (be_bytes 4 116) ty sv cr sq fl w.id digest pt pl m.payload
        (length-be_bytes 4 116) (length-pad_type 32 m.message_type)
        (length-be_bytes 4 m.schema_version) (length-be_bytes 8 m.created_ms)
        (length-be_bytes 8 m.sequence) (length-be_bytes 8 m.flags) w.id_length digest_length
        (length-be_bytes 4 m.payload_type) (length-be_bytes 4 (length m.payload)) in
    rw wire (
      layout
      ∙ fields
      ∙ rw (
        strip_type-pad_type 32 m.message_type w.type_fits ∙ w.type_bare,
        be_value-be_bytes_32 m.schema_version w.schema_fits,
        be_value-be_bytes_64 m.created_ms w.created_fits,
        be_value-be_bytes_64 m.sequence w.sequence_fits,
        be_value-be_bytes_64 m.flags w.flags_fits,
        be_value-be_bytes_32 m.payload_type w.payload_type_fits,
        ← w.id_text,
      ))

read_message-throws :
    (bytes : Bytes) (at : ℕ) → (read_message bytes at ≡ throws_out_of_range) ↔ (length bytes < at)
unfolding read_message
read_message-throws bytes at = elim (Bool-cases (ltb (length bytes) at)) [
  | inl beyond ↦ rw beyond ((λ e. ground arith), (λ h. refl))
  | inr inside ↦ rw inside ((λ e. cc), (λ h. absurd (ground arith)))
]

wraps_past :
    (header_len size : ℕ)
    → size < 2 ^ 32
    → header_len < 2 ^ 32
    → ((rejects_header header_len size ≡ false) × (size < header_len + 4) × (120 ≤ size))
      ↔ ((120 ≤ size) × (2 ^ 32 - 4 ≤ header_len))
unfolding rejects_header
wraps_past header_len size small fits = (λ h. ground arith, λ h. ground arith)

be_value-lt : (v : ℕ) (bs : Bytes) → v < 2 ^ 32 → All IsByte bs → be_value 32 v bs < 2 ^ 32
unfolding be_value
be_value-lt v [] h k = h
be_value-lt v (b ∷ bs) h k = be_value-lt (v * 256 % 2 ^ 32 + b) bs (omega arith) k.1

-- For an input of bytes, below 2^32 of them, `deserialize` throws `std::out_of_range` exactly when the
-- input has the 120 bytes of a header and declares a header length of 2^32 - 4 or more: then the 32-bit
-- sum in the length test wraps, the test passes, and the payload starts behind the end.
pub deserialize_throws :
    (bytes : Bytes)
    → length bytes < 2 ^ 32
    → All IsByte bytes
    → (deserialize bytes ≡ throws_out_of_range)
      ↔ ((120 ≤ length bytes) × (2 ^ 32 - 4 ≤ be_value 32 0 (take 4 bytes)))
unfolding deserialize
deserialize_throws bytes small k =
    let header_len = be_value 32 0 (take 4 bytes) in
    let fits = be_value-lt 0 (take 4 bytes) (omega arith) (All-take IsByte 4 bytes k) in
    let exact = wraps_past header_len (length bytes) small fits in
    let reads = read_message-throws bytes (header_len + 4) in
    (λ h. ground (arith, reads, exact, h), λ h. ground (arith, reads, exact, h))
