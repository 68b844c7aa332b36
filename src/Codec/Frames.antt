-- ===== src/Codec/Frames.antt =====
-- What encode writes, decodeEnvelope and decode read back.
use my_chat.Prelude.{
  ℕ, zero, suc, ◌+◌, ◌-◌, ◌%◌, ◌^◌, ◌<◌, ◌≤◌, ◌≡◌, ◌≢◌, ◌∙◌, refl, ap, false, none, some, [], ◌∷◌,
  ◌++◌, arith, nat_comparable, bytes_comparable, ◌==◌, ==_iff, ltb, if◌then◌else◌, length, take,
  drop, length-append, take-append, drop-append, ok, inl, inr, Bool-cases,
}
use my_chat.Codec.{
  Bytes, Protobuf, Sections, word_bytes, word_of, with_crc, total_bytes_limit, cut, payload, encode,
  sections, checked, parse_envelope, decode_envelope, parse_message, parse_both, decode,
}
use my_chat.Codec.Crc.{calculate_crc32}
use my_chat.Codec.Word.{calculate_crc32_bound, word_of-word_bytes}

cut_ok :
    (position h t : ℕ) (rest : Bytes)
    → 0 < h
    → 0 < t
    → h + t < 2 ^ 32
    → h + t ≤ length rest
    → position + t + h ≤ total_bytes_limit
    → cut position h t rest
      ≡ ok (record {
        type_bytes = take t rest;
        header_bytes = take h (drop t rest);
        message_bytes = drop (t + h) rest;
      })
unfolding cut
cut_ok position h t rest ph pt small fits limit = ground arith

-- The three parts of a payload.
abbrev parts : Bytes → Bytes → Bytes → Sections
parts hs name ms = record { type_bytes = name; header_bytes = hs; message_bytes = ms }

suc_add : (k l : ℕ) → suc k + l ≡ suc (k + l)
suc_add k l = omega arith

drop-add : (m n : ℕ) (xs : Bytes) → drop (m + n) xs ≡ drop n (drop m xs)
drop-add zero n xs = ap (λ k. drop k xs) (zero_add n)
  where
    zero_add : (k : ℕ) → 0 + k ≡ k
    zero_add k = omega arith
drop-add (suc m) zero [] = ap (λ k. drop k []) (suc_add m 0)
drop-add (suc m) (suc n) [] = ap (λ k. drop k []) (suc_add m (suc n))
drop-add (suc m) n (x ∷ xs) = ap (λ k. drop k (x ∷ xs)) (suc_add m n) ∙ drop-add m n xs

positive : (xs : Bytes) → xs ≢ [] → 0 < length xs
positive [] h = absurd (h refl)
positive (x ∷ xs) h = omega arith

cut-parts :
    (position : ℕ) (hs name ms : Bytes)
    → hs ≢ []
    → name ≢ []
    → length hs + length name < 2 ^ 32
    → position + length name + length hs ≤ total_bytes_limit
    → cut position (length hs) (length name) (name ++ (hs ++ ms)) ≡ ok (parts hs name ms)
cut-parts position hs name ms h n small limit =
    cut_ok position (length hs) (length name) (name ++ (hs ++ ms)) (positive hs h) (positive name n)
      small (omega (arith, length-append name (hs ++ ms), length-append hs ms)) limit
    ∙ rw
        (
          drop-add (length name) (length hs) (name ++ (hs ++ ms)),
          take-append name (hs ++ ms),
          drop-append name (hs ++ ms),
          take-append hs ms,
          drop-append hs ms,
        )
        refl

checked-append :
    (p : Protobuf) (out w : Bytes)
    → length w ≡ 4
    → word_of w ≡ calculate_crc32 out
    → checked p (out ++ w) ≡ sections p out
unfolding checked
checked-append p out w four sum =
    let long : ltb (length (out ++ w)) 4 ≡ false = ground (arith, length-append out w) in
    let size : length (out ++ w) - 4 ≡ length out = omega (arith, length-append out w) in
    let equal = (==_iff (word_of w) (calculate_crc32 out)).1 sum in
    rw (long, size, take-append out w, drop-append out w, equal) refl

pub checked-with_crc : (p : Protobuf) (out : Bytes) → checked p (with_crc out) ≡ sections p out
unfolding with_crc
checked-with_crc p out =
    checked-append p out (word_bytes (calculate_crc32 out)) refl
      (word_of-word_bytes (calculate_crc32 out) (calculate_crc32_bound out))

module _ (p : Protobuf) where
  open p use {
    Header, Body, serialize_header, parse_header, header_is_initialized, type_name, serialize_body,
    parse_body, body_is_initialized, write_varint, read_varint, read_varint-write_varint,
  }

  pub sections-cut :
      (bs after rest : Bytes) (h t : ℕ)
      → read_varint bs ≡ some (h, after)
      → read_varint after ≡ some (t, rest)
      → sections p bs ≡ cut (length bs - length rest) h t rest
  unfolding sections
  sections-cut bs after rest h t e f = rw (e, f, sections) refl

  sections-payload :
      (hs name ms : Bytes)
      → hs ≢ []
      → name ≢ []
      → length hs + length name < 2 ^ 32
      → length (payload p hs name ms) ≤ total_bytes_limit
      → sections p (payload p hs name ms) ≡ ok (parts hs name ms)
  unfolding payload
  sections-payload hs name ms h n small limit =
      let rest = name ++ (hs ++ ms) in
      let second = write_varint (length name % 2 ^ 32) in
      let first = write_varint (length hs % 2 ^ 32) in
      let h_size : length hs % 2 ^ 32 ≡ length hs = omega arith in
      let t_size : length name % 2 ^ 32 ≡ length name = omega arith in
      let start : length (first ++ (second ++ rest)) - length rest + length name + length hs
          ≤ total_bytes_limit =
        omega (
          arith,
          limit,
          length-append first (second ++ rest),
          length-append second rest,
          length-append name (hs ++ ms),
          length-append hs ms,
        ) in
      sections-cut (first ++ (second ++ rest)) (second ++ rest) rest (length hs % 2 ^ 32)
        (length name % 2 ^ 32)
        (read_varint-write_varint (length hs % 2 ^ 32) (second ++ rest) (omega arith))
        (read_varint-write_varint (length name % 2 ^ 32) rest (omega arith))
      ∙ ap
          (λ k.
            cut (length (first ++ (second ++ rest)) - length rest) k (length name % 2 ^ 32) rest)
          h_size
      ∙ ap (λ k. cut (length (first ++ (second ++ rest)) - length rest) (length hs) k rest) t_size
      ∙ cut-parts (length (first ++ (second ++ rest)) - length rest) hs name ms h n small start

  envelope-of :
      (header : Header) (hs name ms input : Bytes)
      → serialize_header header ≡ some hs
      → checked p input ≡ ok (parts hs name ms)
      → decode_envelope p input ≡ ok (header, name, ms)
  unfolding decode_envelope parse_envelope
  envelope-of header hs name ms input eh whole =
      let (parsed, ready) = p.parse_header-serialize_header header hs eh in
      rw (decode_envelope, whole, parse_envelope, parsed, ready) refl

  parse_message-of :
      (message : Body) (hs ms : Bytes)
      → serialize_body message ≡ some ms
      → parse_message p (type_name message) (parts hs (type_name message) ms)
        ≡ ok (if length ms == 0 then none else some message)
  unfolding parse_message
  parse_message-of message hs ms em =
      let (parsed, ready) = p.parse_body-serialize_body message ms em in
      let named = (==_iff (type_name message) (type_name message)).1 refl in
      elim (Bool-cases (length ms == 0)) [
        | inl e ↦ rw (parse_message, e) refl
        | inr e ↦ rw (parse_message, e, parsed, ready, named) refl
      ]

  message-of :
      (header : Header) (message : Body) (hs ms input : Bytes)
      → serialize_header header ≡ some hs
      → serialize_body message ≡ some ms
      → checked p input ≡ ok (parts hs (type_name message) ms)
      → decode p (type_name message) input
        ≡ ok (header, if length ms == 0 then none else some message)
  unfolding decode parse_both
  message-of header message hs ms input eh em whole =
      let (parsed, ready) = p.parse_header-serialize_header header hs eh in
      rw (decode, whole, parse_both, parsed, parse_message-of message hs ms em, ready) refl

  -- A frame that encode has written, up to the limit of 64 MB, and with a header that is not empty
  -- and a type name: decodeEnvelope returns the header, the type name and the bytes of the body.
  pub decode_envelope-encode :
      (header : Header) (message : Body) (hs ms : Bytes)
      → serialize_header header ≡ some hs
      → serialize_body message ≡ some ms
      → hs ≢ []
      → type_name message ≢ []
      → length hs + length (type_name message) < 2 ^ 32
      → length (payload p hs (type_name message) ms) ≤ total_bytes_limit
      → (out : Bytes) × (encode p header message ≡ some out)
        × (decode_envelope p out ≡ ok (header, type_name message, ms))
        × (decode p (type_name message) out
            ≡ ok (header, if length ms == 0 then none else some message))
  unfolding encode
  decode_envelope-encode header message hs ms eh em h n small limit =
      let output = payload p hs (type_name message) ms in
      let whole =
        checked-with_crc p output ∙ sections-payload hs (type_name message) ms h n small limit in
      (
        with_crc output,
        rw (eh, em) refl,
        envelope-of header hs (type_name message) ms (with_crc output) eh whole,
        message-of header message hs ms (with_crc output) eh em whole,
      )
