-- ===== src/Push/Context.antt =====
-- The JSON text that push_runtime.cpp builds for a push: json_escape and build_context_ext, on bytes.
use my_chat.Prelude.{
  ℕ, ◌≡◌, ◌∙◌, refl, sym, subst, ap, Bool, true, false, Option, none, some, List, [], ◌∷◌, ◌++◌,
  inl, inr, nat_comparable, ◌&&◌, ◌||◌, not, ltb, ◌==◌, ==_iff, if◌then◌else◌, Bool-cases, length,
}
use mathlib.Core.List.{append_assoc}

-- One turn of the switch.
unfoldable pub escape_char : ℕ → List ℕ
escape_char c =
    if c == 92
    then 92 ∷ 92 ∷ []
    else if c == 34
    then 92 ∷ 34 ∷ []
    else if c == 10
    then 92 ∷ 110 ∷ []
    else if c == 13
    then 92 ∷ 114 ∷ []
    else if c == 9
    then 92 ∷ 116 ∷ []
    else c ∷ []

unfoldable pub json_escape : List ℕ → List ℕ
json_escape [] = []
json_escape (c ∷ cs) = escape_char c ++ json_escape cs

pub record PushContext : Type 0 where
  pub sender_uid : List ℕ
  pub conversation_type : List ℕ
  pub conversation_id : List ℕ

-- The lambda `append` of build_context_ext: what is in the stream, and whether it needs a comma.
unfoldable pub append_member : List ℕ → List ℕ → List ℕ × Bool → List ℕ × Bool
append_member key value (out, needs_comma) = if length value == 0 then (out, needs_comma) else (
  (if needs_comma then out ++ 44 ∷ [] else out)
      ++ (34 ∷ key ++ (34 ∷ 58 ∷ 34 ∷ json_escape value ++ 34 ∷ [])),
  true,
)

-- "sender_uid", "conversation_type" and "conversation_id"
abbrev pub sender_uid_key : List ℕ
sender_uid_key = 115 ∷ 101 ∷ 110 ∷ 100 ∷ 101 ∷ 114 ∷ 95 ∷ 117 ∷ 105 ∷ 100 ∷ []

abbrev pub conversation_key : List ℕ
conversation_key = 99 ∷ 111 ∷ 110 ∷ 118 ∷ 101 ∷ 114 ∷ 115 ∷ 97 ∷ 116 ∷ 105 ∷ 111 ∷ 110 ∷ 95 ∷ []

unfoldable pub build_context_ext : PushContext → List ℕ
build_context_ext context =
    let (out, needs_comma) =
      append_member (conversation_key ++ 105 ∷ 100 ∷ []) context.conversation_id (
        append_member (conversation_key ++ 116 ∷ 121 ∷ 112 ∷ 101 ∷ []) context.conversation_type
          (append_member sender_uid_key context.sender_uid (123 ∷ [], false))) in
    if needs_comma then out ++ 125 ∷ [] else []

-- The strings of RFC 8259, to which json_escape is compared: the text up to the closing quote, and
-- what follows it. `escaped` says that a backslash came before. A control character below U+0020 must
-- not stand by itself; escapes with \u, of which json_escape writes none, are left out.
abbrev pub unescape : ℕ → Option ℕ
unescape c =
    if c == 110
    then some 10
    else if c == 114
    then some 13
    else if c == 116
    then some 9
    else if c == 98
    then some 8
    else if c == 102
    then some 12
    else if (c == 34) || ((c == 92) || (c == 47))
    then some c
    else none

abbrev with_char : ℕ → Option (List ℕ × List ℕ) → Option (List ℕ × List ℕ)
with_char c none = none
with_char c (some (text, rest)) = some (c ∷ text, rest)

abbrev unescaped : Option ℕ → Option (List ℕ × List ℕ) → Option (List ℕ × List ℕ)
unescaped none read = none
unescaped (some c) read = with_char c read

pub read_text : Bool → List ℕ → Option (List ℕ × List ℕ)
read_text escaped [] = none
read_text true (c ∷ cs) = unescaped (unescape c) (read_text false cs)
read_text false (c ∷ cs) =
    let plain = read_text false cs in
    let quoted = read_text true cs in
    if c == 34
    then some ([], cs)
    else if c == 92
    then quoted
    else if ltb c 32
    then none
    else with_char c plain

-- A control character that json_escape leaves as it is.
abbrev pub is_raw_control : ℕ → Bool
is_raw_control c = ltb c 32 && not ((c == 10) || ((c == 13) || (c == 9)))

unfoldable pub has_raw_control : List ℕ → Bool
has_raw_control [] = false
has_raw_control (c ∷ cs) = is_raw_control c || has_raw_control cs

-- A character reads back from its escape, or is refused.
abbrev ReadsBack : List ℕ → ℕ → Type 0
ReadsBack cs c =
    read_text false (escape_char c ++ cs)
    ≡ (if is_raw_control c then none else with_char c (read_text false cs))

ReadsBack-same : (cs : List ℕ) (c k : ℕ) → (c == k) ≡ true → ReadsBack cs k → ReadsBack cs c
ReadsBack-same cs c k e h = subst (ReadsBack cs) (sym ((==_iff c k).0 e)) h

read_char : (c : ℕ) (cs : List ℕ) → ReadsBack cs c
unfolding read_text escape_char
read_char c cs = elim (Bool-cases (c == 92)) [
  | inl e ↦ ReadsBack-same cs c 92 e refl
  | inr e₁ ↦ elim (Bool-cases (c == 34)) [
    | inl e ↦ ReadsBack-same cs c 34 e refl
    | inr e₂ ↦ elim (Bool-cases (c == 10)) [
      | inl e ↦ ReadsBack-same cs c 10 e refl
      | inr e₃ ↦ elim (Bool-cases (c == 13)) [
        | inl e ↦ ReadsBack-same cs c 13 e refl
        | inr e₄ ↦ elim (Bool-cases (c == 9)) [
          | inl e ↦ ReadsBack-same cs c 9 e refl
          | inr e₅ ↦ elim (Bool-cases (ltb c 32)) [
            | inl low ↦ rw (e₁, e₂, e₃, e₄, e₅, low) (rw (e₂, e₁) refl)
            | inr high ↦ rw (e₁, e₂, e₃, e₄, e₅, high) (rw (e₂, e₁) refl)
          ]
        ]
      ]
    ]
  ]
]

-- By the grammar of RFC 8259, an escaped text with a quote behind it reads back as the very text, up
-- to that quote, if the text has no control character but \n, \r and \t; it is no JSON string if it
-- has one, as json_escape leaves these as they are.
pub read_text-json_escape :
    (text rest : List ℕ)
    → read_text false (json_escape text ++ 34 ∷ rest)
      ≡ (if has_raw_control text then none else some (text, rest))
unfolding json_escape read_text has_raw_control
read_text-json_escape [] rest = refl
read_text-json_escape (c ∷ cs) rest =
    ap (read_text false) (append_assoc (escape_char c) (json_escape cs) (34 ∷ rest))
    ∙ read_char c (json_escape cs ++ 34 ∷ rest)
    ∙ ap (λ r. if is_raw_control c then none else with_char c r) (read_text-json_escape cs rest)
    ∙ joined (is_raw_control c) (has_raw_control cs)
  where
    joined :
        (a b : Bool)
        → (if a then none else with_char c (if b then none else some (cs, rest)))
          ≡ (if a || b then none else some (c ∷ cs, rest))
    joined true b = refl
    joined false true = refl
    joined false false = refl
