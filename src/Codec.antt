-- ===== src/Codec.antt =====
-- common/network/protobuf_codec.cpp: frames of a header, a type name and a message body with a
-- check sum. protobuf itself (messages, CodedInputStream) is not part of the repository.
pub mod Crc
pub mod Reference
pub mod Word
pub mod Frames
pub mod Limits
pub mod Detection
mod Tests
use my_chat.Prelude.{
  ℕ, zero, suc, ◌+◌, ◌-◌, ◌*◌, ◌/◌, ◌%◌, ◌^◌, ◌<◌, ◌≤◌, ◌≡◌, Bool, true, false, not, ◌||◌, Option,
  none, some, List, [], ◌∷◌, ◌++◌, nat_comparable, bytes_comparable, ◌==◌, ltb, if◌then◌else◌,
  length, take, drop, Outcome, ok, err, ◌>>=◌,
}
use my_chat.Codec.Crc.{calculate_crc32}

abbrev pub Bytes : Type 0
Bytes = List ℕ

-- What the codec calls of protobuf: `none` where a call returns false. A serialised message is
-- initialised and parses to itself, and a varint reads back.
pub record Protobuf : Type 1 where
  pub Header : Type 0
  pub Body : Type 0
  pub serialize_header : Header → Option Bytes
  pub parse_header : Bytes → Option Header
  pub header_is_initialized : Header → Bool
  pub type_name : Body → Bytes
  pub serialize_body : Body → Option Bytes
  -- parsing into a message object of the given type
  pub parse_body : Bytes → Bytes → Option Body
  pub body_is_initialized : Body → Bool
  pub write_varint : ℕ → Bytes
  pub read_varint : Bytes → Option (ℕ × Bytes)
  pub parse_header-serialize_header :
      (h : Header) (bs : Bytes)
      → serialize_header h ≡ some bs
      → (parse_header bs ≡ some h) × (header_is_initialized h ≡ true)
  pub parse_body-serialize_body :
      (m : Body) (bs : Bytes)
      → serialize_body m ≡ some bs
      → (parse_body (type_name m) bs ≡ some m) × (body_is_initialized m ≡ true)
  pub read_varint-write_varint :
      (n : ℕ) (rest : Bytes) → n < 2 ^ 32 → read_varint (write_varint n ++ rest) ≡ some (n, rest)
  pub read_varint-lt : (n : ℕ) (bs rest : Bytes) → read_varint bs ≡ some (n, rest) → n < 2 ^ 32

-- The four bytes of a `uint32_t`, as `memcpy` copies it on a little-endian machine.
abbrev pub word_bytes : ℕ → Bytes
word_bytes w = w % 256 ∷ w / 256 % 256 ∷ w / 65536 % 256 ∷ w / 16777216 % 256 ∷ []

abbrev pub word_of : Bytes → ℕ
word_of (a ∷ b ∷ c ∷ d ∷ []) = a + 256 * b + 65536 * c + 16777216 * d
word_of _ = 0

unfoldable pub with_crc : Bytes → Bytes
with_crc output = output ++ word_bytes (calculate_crc32 output)

-- A failed decoding: `return false`, or a read beyond the end of the buffer.
pub data Fault : Type 0 where
  refused out_of_bounds : Fault

-- SetTotalBytesLimit(64 << 20)
abbrev pub total_bytes_limit : ℕ
total_bytes_limit = 64 * 2 ^ 20

pub record Sections : Type 0 where
  pub type_bytes : Bytes
  pub header_bytes : Bytes
  pub message_bytes : Bytes

-- What follows the two sizes; `position` is where it starts. The frame is shorter than 2 ^ 31, so
-- that the conversions to `int` keep the sizes of the code.
unfoldable pub cut : ℕ → ℕ → ℕ → Bytes → Outcome Fault Sections
cut position header_size type_name_size rest =
    if (header_size == 0) || (type_name_size == 0)
    then err refused
    else if ltb (length rest) ((header_size + type_name_size) % 2 ^ 32)
    then err refused
    else if ltb (length rest) type_name_size
    then err out_of_bounds
    else if ltb total_bytes_limit (position + type_name_size)
    then err refused
    else if ltb (length rest) (type_name_size + header_size)
    then err out_of_bounds
    else if ltb total_bytes_limit (position + type_name_size + header_size)
    then err refused
    else ok (record {
      type_bytes = take type_name_size rest;
      header_bytes = take header_size (drop type_name_size rest);
      message_bytes = drop (type_name_size + header_size) rest;
    })

module _ (p : Protobuf) where
  open p use {
    Header, Body, serialize_header, parse_header, header_is_initialized, type_name, serialize_body,
    parse_body, body_is_initialized, write_varint, read_varint,
  }

  -- The frame without its check sum.
  unfoldable pub payload : Bytes → Bytes → Bytes → Bytes
  payload header_bytes name message_bytes =
      write_varint (length header_bytes % 2 ^ 32)
      ++ (write_varint (length name % 2 ^ 32) ++ (name ++ (header_bytes ++ message_bytes)))

  unfoldable pub encode : Header → Body → Option Bytes
  encode header message = do
    header_data ← serialize_header header
    message_data ← serialize_body message
    some (with_crc (payload header_data (type_name message) message_data))

  -- The sizes and the checks on them, which `decode` and `decodeEnvelope` share.
  unfoldable pub sections : Bytes → Outcome Fault Sections
  sections data_without_crc = elim (read_varint data_without_crc) [
    | none ↦ err refused
    | some (header_size, after_first) ↦ elim (read_varint after_first) [
      | none ↦ err refused
      | some (type_name_size, rest) ↦
          cut (length data_without_crc - length rest) header_size type_name_size rest
    ]
  ]

  unfoldable pub checked : Bytes → Outcome Fault Sections
  checked input =
      let data_without_crc = take (length input - 4) input in
      if ltb (length input) 4
      then err refused
      else if not (word_of (drop (length input - 4) input) == calculate_crc32 data_without_crc)
      then err refused
      else sections data_without_crc

  unfoldable pub parse_envelope : Sections → Outcome Fault (Header × Bytes × Bytes)
  parse_envelope s = elim (parse_header s.header_bytes) [
    | none ↦ err refused
    | some header ↦
        if header_is_initialized header
        then ok (header, s.type_bytes, s.message_bytes)
        else err refused
  ]

  unfoldable pub decode_envelope : Bytes → Outcome Fault (Header × Bytes × Bytes)
  decode_envelope input = elim (checked input) [ err e ↦ err e | ok s ↦ parse_envelope s ]

  -- The message body, into an object of type `expected`: `ok none` leaves the object as it was.
  unfoldable pub parse_message : Bytes → Sections → Outcome Fault (Option Body)
  parse_message expected s =
      if length s.message_bytes == 0 then ok none else elim (parse_body expected s.message_bytes) [
        | none ↦ err refused
        | some message ↦
            if not (body_is_initialized message)
            then err refused
            else if not (s.type_bytes == type_name message)
            then err refused
            else ok (some message)
      ]

  unfoldable pub parse_both : Bytes → Sections → Outcome Fault (Header × Option Body)
  parse_both expected s = elim (parse_header s.header_bytes) [
    | none ↦ err refused
    | some header ↦ elim (parse_message expected s) [
      | err e ↦ err e
      | ok message ↦ if header_is_initialized header then ok (header, message) else err refused
    ]
  ]

  unfoldable pub decode : Bytes → Bytes → Outcome Fault (Header × Option Body)
  decode expected input = elim (checked input) [ err e ↦ err e | ok s ↦ parse_both expected s ]
