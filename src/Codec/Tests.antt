-- ===== src/Codec/Tests.antt =====
-- Frames at concrete inputs: messages that are their own bytes, and base-128 varints.
use my_chat.Prelude.{
  ℕ, zero, suc, ◌+◌, ◌-◌, ◌*◌, ◌/◌, ◌%◌, ◌^◌, ◌<◌, ◌≡◌, ◌∙◌, refl, sym, ap, true, false, Option,
  none, some, [], ◌∷◌, ◌++◌, arith, nat_comparable, ltb, if◌then◌else◌, ok, err, Bool-cases, inl,
  inr, ◌>>=◌,
}
use my_chat.Codec.{
  Bytes, Protobuf, out_of_bounds, with_crc, refused, word_bytes, decode_envelope, encode, decode,
  payload,
}
use my_chat.Codec.Crc.{calculate_crc32, crc_loop, crc_byte}
use my_chat.Codec.Reference.{reference_crc32, calculate_crc32-reference_crc32}
use my_chat.Codec.Frames.{decode_envelope-encode}
use my_chat.Codec.Detection.{decode_envelope-one_byte}
use my_chat.Codec.Limits.{Sizes, decode_envelope-sum_wraps}

write_groups : ℕ → ℕ → Bytes
write_groups zero n = n ∷ []
write_groups (suc k) n =
    let rest = write_groups k (n / 128) in if ltb n 128 then n ∷ [] else (n % 128 + 128) ∷ rest

read_groups : ℕ → Bytes → Option (ℕ × Bytes)
read_groups k [] = none
read_groups zero (b ∷ bs) = some (b, bs)
read_groups (suc k) (b ∷ bs) =
    let rest = (do (m, after) ← read_groups k bs; some (b - 128 + 128 * m, after)) in
    if ltb b 128 then some (b, bs) else rest

regroup : (n : ℕ) → n % 128 + 128 - 128 + 128 * (n / 128) ≡ n
regroup n = omega arith

read_groups-write_groups :
    (k n : ℕ) (rest : Bytes) → read_groups k (write_groups k n ++ rest) ≡ some (n, rest)
unfolding read_groups write_groups
read_groups-write_groups zero n rest = refl
read_groups-write_groups (suc k) n rest = elim (Bool-cases (ltb n 128)) [
  | inl e ↦ rw (e, e) refl
  | inr e ↦
      let more : ltb (n % 128 + 128) 128 ≡ false = ground arith in
      rw (e, more, read_groups-write_groups k (n / 128) rest) (ap (λ m. some (m, rest)) (regroup n))
]

-- A value that does not fit 32 bits is refused.
read_small : Option (ℕ × Bytes) → Option (ℕ × Bytes)
read_small none = none
read_small (some (n, rest)) = if ltb n (2 ^ 32) then some (n, rest) else none

read_small-lt :
    (o : Option (ℕ × Bytes)) (n : ℕ) (rest : Bytes) → read_small o ≡ some (n, rest) → n < 2 ^ 32
unfolding read_small
read_small-lt none n rest h = cc
read_small-lt (some (m, after)) n rest h = ground arith

read_written :
    (n : ℕ) (rest : Bytes)
    → n < 2 ^ 32
    → read_small (read_groups 4 (write_groups 4 n ++ rest)) ≡ some (n, rest)
unfolding read_small
read_written n rest small =
    let fits : ltb n (2 ^ 32) ≡ true = ground arith in
    rw (read_groups-write_groups 4 n rest, fits) refl

abbrev named : Bytes → Option Bytes → Option (Bytes × Bytes)
named name none = none
named name (some bs) = some (name, bs)

abbrev raw : Protobuf
raw = record {
  Header = Bytes;
  Body = Bytes × Bytes;
  serialize_header = some;
  parse_header = some;
  header_is_initialized = λ h. true;
  type_name = λ m. m.0;
  serialize_body = λ m. some m.1;
  parse_body = λ name bs. some (name, bs);
  body_is_initialized = λ m. true;
  write_varint = write_groups 4;
  read_varint = λ bs. read_small (read_groups 4 bs);
  parse_header-serialize_header = λ h bs e. (sym e, refl);
  parse_body-serialize_body = λ m bs e. (ap (λ (o : Option Bytes). named m.0 o) (sym e), refl);
  read_varint-write_varint = read_written;
  read_varint-lt = λ n bs rest h. read_small-lt (read_groups 4 bs) n rest h;
}

calculate_crc32-reference_crc32_example :
    calculate_crc32 (0x31 ∷ 0x32 ∷ []) ≡ reference_crc32 (0x31 ∷ 0x32 ∷ [])
calculate_crc32-reference_crc32_example =
    calculate_crc32-reference_crc32 (0x31 ∷ 0x32 ∷ []) (omega arith, (omega arith, tt))

abbrev greeting : Bytes × Bytes
greeting = (77 ∷ [], 104 ∷ 105 ∷ [])

decode_envelope-encode_example :
    (out : Bytes) × (encode raw (8 ∷ 1 ∷ []) greeting ≡ some out)
    × (decode_envelope raw out ≡ ok (8 ∷ 1 ∷ [], 77 ∷ [], 104 ∷ 105 ∷ []))
    × (decode raw (77 ∷ []) out ≡ ok (8 ∷ 1 ∷ [], some greeting))
unfolding payload write_groups
decode_envelope-encode_example =
    decode_envelope-encode raw (8 ∷ 1 ∷ []) greeting (8 ∷ 1 ∷ []) (104 ∷ 105 ∷ []) refl refl
      (λ e. cc) (λ e. cc) (omega arith) (omega arith)

abbrev body : Bytes
body = 2 ∷ 1 ∷ 77 ∷ 8 ∷ 1 ∷ 104 ∷ []

abbrev size_of : Option (ℕ × Bytes) → ℕ
size_of none = 0
size_of (some (n, rest)) = n

abbrev rest_of : Option (ℕ × Bytes) → Bytes
rest_of none = []
rest_of (some (n, rest)) = rest

small-Sizes : (s : Sizes raw body) → s.header_size + s.type_name_size < 2 ^ 32
unfolding read_small read_groups
small-Sizes s =
    let h : 2 ≡ s.header_size = ap size_of s.first in
    let after : 1 ∷ 77 ∷ 8 ∷ 1 ∷ 104 ∷ [] ≡ s.after_first = ap rest_of s.first in
    let t : 1 ≡ s.type_name_size =
      ap (λ bs. size_of (raw.read_varint bs)) after ∙ ap size_of s.second in
    omega (arith, h, t)

decode_envelope-sum_wraps_example :
    let frame = with_crc (write_groups 4 (2 ^ 32 - 1) ++ (write_groups 4 1 ++ 7 ∷ [])) in
    (decode_envelope raw frame ≡ err out_of_bounds)
    × (decode raw (77 ∷ []) frame ≡ err out_of_bounds)
unfolding write_groups
decode_envelope-sum_wraps_example =
    decode_envelope-sum_wraps raw (7 ∷ []) (77 ∷ []) (omega arith) (omega arith) (omega arith)

decode_envelope-one_byte_example :
    let frame = (1 ∷ 7 ∷ 3 ∷ []) ++ word_bytes (calculate_crc32 (1 ∷ 2 ∷ 3 ∷ [])) in
    (decode_envelope raw frame ≡ err refused) × (decode raw (77 ∷ []) frame ≡ err refused)
decode_envelope-one_byte_example =
    decode_envelope-one_byte raw (1 ∷ []) (3 ∷ []) (77 ∷ []) 2 7 (omega arith) (omega arith)
      (omega arith, tt) (λ e. cc)

-- "123456789"
check_value :
    calculate_crc32 (0x31 ∷ 0x32 ∷ 0x33 ∷ 0x34 ∷ 0x35 ∷ 0x36 ∷ 0x37 ∷ 0x38 ∷ 0x39 ∷ []) ≡ 0xcbf43926
unfolding calculate_crc32 crc_loop crc_byte
check_value = refl
