-- ===== src/Codec/Limits.antt =====
-- The bounds of decodeEnvelope and decode: what a frame is refused for, and the sizes whose sum wraps.
use my_chat.Prelude.{
  ℕ, ◌+◌, ◌-◌, ◌%◌, ◌^◌, ◌<◌, ◌≤◌, ◌≡◌, ◌∙◌, refl, sym, true, false, ◌||◌, some, ◌++◌, arith,
  nat_comparable, bytes_comparable, ◌==◌, ltb, length, take, drop, length-append, Outcome, ok, err,
  Bool-cases, inl, inr, Option-cases, Outcome-cases, subst,
}
use my_chat.Codec.{
  Bytes, Protobuf, Fault, refused, out_of_bounds, Sections, word_of, with_crc, total_bytes_limit,
  cut, sections, checked, parse_envelope, decode_envelope, parse_message, parse_both, decode,
}
use my_chat.Codec.Crc.{calculate_crc32}
use my_chat.Codec.Frames.{sections-cut, checked-with_crc}

abbrev pub IsOutside : Fault → Type 0
IsOutside out_of_bounds = Unit
IsOutside refused = ⊥

abbrev pub IsOutOfBounds {ℓ} : {A : Type ℓ} → Outcome Fault A → Type 0
IsOutOfBounds (err fault) = IsOutside fault
IsOutOfBounds (ok a) = ⊥

fault_kept :
    {A : Type 0} (o : Outcome Fault A) (fault : Fault)
    → o ≡ err fault
    → IsOutside fault
    → IsOutOfBounds o
fault_kept o fault e out = subst IsOutOfBounds (sym e) out

fitting : (h t n : ℕ) → h + t < 2 ^ 32 → ltb n ((h + t) % 2 ^ 32) ≡ false → h + t ≤ n
fitting h t n small e = ground arith

cut_bounds :
    (position h t : ℕ) (rest : Bytes) → h + t < 2 ^ 32 → ¬ IsOutOfBounds (cut position h t rest)
unfolding cut
cut_bounds position h t rest small out = elim (Bool-cases ((h == 0) || (t == 0))) [
  | inl e ↦ rw (cut, e) at out
  | inr e₁ ↦ elim (Bool-cases (ltb (length rest) ((h + t) % 2 ^ 32))) [
    | inl e ↦ rw (cut, e₁, e) at out
    | inr e₂ ↦
        let fits : h + t ≤ length rest = fitting h t (length rest) small e₂ in
        let e₃ : ltb (length rest) t ≡ false = ground arith in
        elim (Bool-cases (ltb total_bytes_limit (position + t))) [
          | inl e ↦ rw (cut, e₁, e₂, e₃, e) at out
          | inr e₄ ↦
              let e₅ : ltb (length rest) (t + h) ≡ false = ground arith in
              elim (Bool-cases (ltb total_bytes_limit (position + t + h))) [
                | inl e ↦ rw (cut, e₁, e₂, e₃, e₄, e₅, e) at out
                | inr e ↦ rw (cut, e₁, e₂, e₃, e₄, e₅, e) at out
              ]
        ]
  ]
]

cut_wraps :
    (position : ℕ) (rest : Bytes)
    → 0 < length rest
    → length rest < 2 ^ 32
    → position < total_bytes_limit
    → cut position (2 ^ 32 - 1) 1 rest ≡ err out_of_bounds
unfolding cut
cut_wraps position rest some_rest short limit =
    let e₁ : ltb (length rest) 0 ≡ false = ground arith in
    let e₂ : ltb (length rest) 1 ≡ false = ground arith in
    let e₃ : ltb total_bytes_limit (position + 1) ≡ false = ground arith in
    let e₄ : ltb (length rest) (2 ^ 32) ≡ true = ground arith in rw (e₁, e₂, e₃, e₄) refl

module _ (p : Protobuf) where
  open p use {Header, Body, write_varint, read_varint, read_varint-write_varint}

  -- The two sizes at the head of a frame.
  pub record Sizes (bs : Bytes) : Type 0 where
    pub header_size : ℕ
    pub after_first : Bytes
    pub type_name_size : ℕ
    pub rest : Bytes
    pub first : read_varint bs ≡ some (header_size, after_first)
    pub second : read_varint after_first ≡ some (type_name_size, rest)

  sections_bounds :
      (bs : Bytes)
      → ((s : Sizes bs) → s.header_size + s.type_name_size < 2 ^ 32)
      → ¬ IsOutOfBounds (sections p bs)
  unfolding sections
  sections_bounds bs small out = elim (Option-cases (read_varint bs)) [
    | inl e ↦ rw (sections, e) at out
    | inr ((h, after), e) ↦ elim (Option-cases (read_varint after)) [
      | inl f ↦ rw (sections, e, f) at out
      | inr ((t, rest), f) ↦
          cut_bounds (length bs - length rest) h t rest
            (small (record {
              header_size = h;
              after_first = after;
              type_name_size = t;
              rest = rest;
              first = e;
              second = f;
            }))
            (rw (sections, e, f) at out)
    ]
  ]

  checked_bounds :
      (input : Bytes)
      → ((s : Sizes (take (length input - 4) input)) → s.header_size + s.type_name_size < 2 ^ 32)
      → ¬ IsOutOfBounds (checked p input)
  unfolding checked
  checked_bounds input small out =
      let bs = take (length input - 4) input in
      elim (Bool-cases (ltb (length input) 4)) [
        | inl e ↦ rw (checked, e) at out
        | inr e ↦
            elim (Bool-cases (word_of (drop (length input - 4) input) == calculate_crc32 bs)) [
              | inr f ↦ rw (checked, e, f) at out
              | inl f ↦ sections_bounds bs small (rw (checked, e, f) at out)
            ]
      ]

  parse_envelope_bounds : (s : Sections) → ¬ IsOutOfBounds (parse_envelope p s)
  unfolding parse_envelope
  parse_envelope_bounds s out = elim (Option-cases (p.parse_header s.header_bytes)) [
    | inl e ↦ rw (parse_envelope, e) at out
    | inr (header, e) ↦ elim (Bool-cases (p.header_is_initialized header)) [
      | inl f ↦ rw (parse_envelope, e, f) at out
      | inr f ↦ rw (parse_envelope, e, f) at out
    ]
  ]

  parse_message_bounds :
      (expected : Bytes) (s : Sections) → ¬ IsOutOfBounds (parse_message p expected s)
  unfolding parse_message
  parse_message_bounds expected s out = elim (Bool-cases (length s.message_bytes == 0)) [
    | inl e ↦ rw (parse_message, e) at out
    | inr e ↦ elim (Option-cases (p.parse_body expected s.message_bytes)) [
      | inl f ↦ rw (parse_message, e, f) at out
      | inr (m, f) ↦ elim (Bool-cases (p.body_is_initialized m)) [
        | inr g ↦ rw (parse_message, e, f, g) at out
        | inl g ↦ elim (Bool-cases (s.type_bytes == p.type_name m)) [
          | inl h ↦ rw (parse_message, e, f, g, h) at out
          | inr h ↦ rw (parse_message, e, f, g, h) at out
        ]
      ]
    ]
  ]

  parse_both_bounds : (expected : Bytes) (s : Sections) → ¬ IsOutOfBounds (parse_both p expected s)
  unfolding parse_both
  parse_both_bounds expected s out = elim (Option-cases (p.parse_header s.header_bytes)) [
    | inl e ↦ rw (parse_both, e) at out
    | inr (header, e) ↦ elim (Outcome-cases (parse_message p expected s)) [
      | inr (fault, f) ↦
          parse_message_bounds expected s
            (fault_kept (parse_message p expected s) fault f (rw (parse_both, e, f) at out))
      | inl (m, f) ↦ elim (Bool-cases (p.header_is_initialized header)) [
        | inl g ↦ rw (parse_both, e, f, g) at out
        | inr g ↦ rw (parse_both, e, f, g) at out
      ]
    ]
  ]

  decode_envelope_bounds :
      (input : Bytes)
      → ¬ IsOutOfBounds (checked p input)
      → ¬ IsOutOfBounds (decode_envelope p input)
  unfolding decode_envelope
  decode_envelope_bounds input inside out = elim (Outcome-cases (checked p input)) [
    | inl (s, e) ↦ parse_envelope_bounds s (rw (decode_envelope, e) at out)
    | inr (fault, e) ↦
        inside (fault_kept (checked p input) fault e (rw (decode_envelope, e) at out))
  ]

  decode_bounds :
      (expected input : Bytes)
      → ¬ IsOutOfBounds (checked p input)
      → ¬ IsOutOfBounds (decode p expected input)
  unfolding decode
  decode_bounds expected input inside out = elim (Outcome-cases (checked p input)) [
    | inl (s, e) ↦ parse_both_bounds expected s (rw (decode, e) at out)
    | inr (fault, e) ↦ inside (fault_kept (checked p input) fault e (rw (decode, e) at out))
  ]

  -- Where the two sizes of a frame do not sum to 2 ^ 32 or more, neither decodeEnvelope nor decode
  -- reads beyond the end of the frame.
  pub decode_envelope-IsOutOfBounds :
      (input expected : Bytes)
      → ((s : Sizes (take (length input - 4) input)) → s.header_size + s.type_name_size < 2 ^ 32)
      → (¬ IsOutOfBounds (decode_envelope p input)) × (¬ IsOutOfBounds (decode p expected input))
  decode_envelope-IsOutOfBounds input expected small =
      let inside = checked_bounds input small in
      (decode_envelope_bounds input inside, decode_bounds expected input inside)

  -- A header size of 2 ^ 32 - 1 and a type name size of 1 pass the check on their sum, which wraps to
  -- 0: with a right check sum and at least one more byte, decodeEnvelope and decode read beyond the
  -- end of the frame.
  pub decode_envelope-sum_wraps :
      (rest expected : Bytes)
      → 0 < length rest
      → length rest < 2 ^ 32
      → length (write_varint (2 ^ 32 - 1) ++ (write_varint 1 ++ rest)) ≤ total_bytes_limit
      → let frame = with_crc (write_varint (2 ^ 32 - 1) ++ (write_varint 1 ++ rest)) in
        (decode_envelope p frame ≡ err out_of_bounds)
        × (decode p expected frame ≡ err out_of_bounds)
  unfolding decode_envelope decode
  decode_envelope-sum_wraps rest expected some_rest short limit =
      let bs = write_varint (2 ^ 32 - 1) ++ (write_varint 1 ++ rest) in
      let start : length bs - length rest < total_bytes_limit = omega (
        arith,
        length-append (write_varint (2 ^ 32 - 1)) (write_varint 1 ++ rest),
        length-append (write_varint 1) rest,
      ) in
      let e =
        checked-with_crc p bs
        ∙ sections-cut p bs (write_varint 1 ++ rest) rest (2 ^ 32 - 1) 1
            (read_varint-write_varint (2 ^ 32 - 1) (write_varint 1 ++ rest) (omega arith))
            (read_varint-write_varint 1 rest (omega arith))
        ∙ cut_wraps (length bs - length rest) rest some_rest short start in
      (rw (decode_envelope, e) refl, rw (decode, e) refl)
