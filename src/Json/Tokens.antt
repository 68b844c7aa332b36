-- ===== src/Json/Tokens.antt =====
-- A writer and a reader of objects: the interface of the JSON library can be met.
use my_chat.Prelude.{
  ℕ, zero, suc, ◌≡◌, ◌∙◌, refl, ap, true, false, some, List, [], ◌∷◌, ◌++◌, append-nil,
}
use my_chat.Prelude.Int.{pos, negsuc}
use my_chat.Json.{Bytes, JsonValue, text, number, boolean, Object, Json}

-- The tokens of an object: 1 opens an entry, 0 a text, 2 and 3 a number, 4 and 5 a Boolean; a character is 6 more than
-- its code.
unfoldable pub characters : Bytes → List ℕ
characters [] = []
characters (c ∷ cs) = suc (suc (suc (suc (suc (suc c))))) ∷ characters cs

unfoldable pub value_tokens : JsonValue → List ℕ
value_tokens (text t) = 0 ∷ characters t
value_tokens (boolean true) = 4 ∷ []
value_tokens (boolean false) = 5 ∷ []
value_tokens (number (pos n)) = 2 ∷ characters (n ∷ [])
value_tokens (number (negsuc n)) = 3 ∷ characters (n ∷ [])

unfoldable pub write : Object → List ℕ
write [] = []
write ((k, v) ∷ o) = 1 ∷ characters k ++ (value_tokens v ++ write o)

-- What has been read, from the right: the characters before a tag, the value, the entries.
pub record Reading : Type 0 where
  pub pending : Bytes
  pub value : JsonValue
  pub entries : Object

abbrev pub first : Bytes → ℕ
first [] = 0
first (c ∷ cs) = c

unfoldable pub token : ℕ → Reading → Reading
token zero r = record { pending = []; value = text r.pending; entries = r.entries }
token (suc zero) r = record {
  pending = [];
  value = r.value;
  entries = (r.pending, r.value) ∷ r.entries;
}
token (suc (suc zero)) r = record {
  pending = [];
  value = number (pos (first r.pending));
  entries = r.entries;
}
token (suc (suc (suc zero))) r = record {
  pending = [];
  value = number (negsuc (first r.pending));
  entries = r.entries;
}
token (suc (suc (suc (suc zero)))) r = record {
  pending = [];
  value = boolean true;
  entries = r.entries;
}
token (suc (suc (suc (suc (suc zero))))) r = record {
  pending = [];
  value = boolean false;
  entries = r.entries;
}
token (suc (suc (suc (suc (suc (suc c)))))) r = record {
  pending = c ∷ r.pending;
  value = r.value;
  entries = r.entries;
}

unfoldable pub read : List ℕ → Reading
read [] = record { pending = []; value = text []; entries = [] }
read (t ∷ ts) = token t (read ts)

unfoldable pub prepend : Bytes → Reading → Reading
prepend cs r = record { pending = cs ++ r.pending; value = r.value; entries = r.entries }

read-characters : (cs : Bytes) (ts : List ℕ) → read (characters cs ++ ts) ≡ prepend cs (read ts)
unfolding read characters token prepend
read-characters [] ts = refl
read-characters (c ∷ cs) ts =
    ap (token (suc (suc (suc (suc (suc (suc c))))))) (read-characters cs ts)

abbrev pub holds : JsonValue → Object → Reading
holds v o = record { pending = []; value = v; entries = o }

read-value_tokens :
    (v : JsonValue) (ts : List ℕ)
    → (read ts).pending ≡ []
    → read (value_tokens v ++ ts) ≡ holds v (read ts).entries
unfolding read value_tokens token prepend
read-value_tokens (text t) ts e =
    ap (token 0) (read-characters t ts)
    ∙ ap (λ cs. holds (text cs) (read ts).entries) (ap (λ cs. t ++ cs) e ∙ append-nil t)
read-value_tokens (boolean true) ts e = refl
read-value_tokens (boolean false) ts e = refl
read-value_tokens (number (pos n)) ts e = ap (token 2) (read-characters (n ∷ []) ts)
read-value_tokens (number (negsuc n)) ts e = ap (token 3) (read-characters (n ∷ []) ts)

pub read-write : (o : Object) → ((read (write o)).pending ≡ []) × ((read (write o)).entries ≡ o)
unfolding read write token prepend
read-write [] = (refl, refl)
read-write ((k, v) ∷ o) =
    let (e, q) = read-write o in
    let run : read (write ((k, v) ∷ o)) ≡ holds v ((k, v) ∷ o) =
      ap (token 1) (
        read-characters k (value_tokens v ++ write o)
        ∙ ap (prepend k) (read-value_tokens v (write o) e))
      ∙ ap (λ (p : Bytes × Object). holds v ((p.0, v) ∷ p.1)) (pair (append-nil k) q) in
    (ap (λ (r : Reading). r.pending) run, ap (λ (r : Reading). r.entries) run)
  where
    pair : {a b : Bytes} {x y : Object} → a ≡ b → x ≡ y → ◌≡◌ {A = Bytes × Object} (a, x) (b, y)
    pair e q = cc

abbrev pub tokens : Json
tokens = record {
  dump = write;
  parse = λ ts. some (read ts).entries;
  parse-dump = λ o. (o, ap some (read-write o).1, λ k. refl);
}

-- The value of an entry by its place.
abbrev pub nth : ℕ → Object → JsonValue
nth n [] = text []
nth zero ((k, v) ∷ o) = v
nth (suc n) ((k, v) ∷ o) = nth n o

abbrev pub text_of : JsonValue → Bytes
text_of (text t) = t
text_of (number n) = []
text_of (boolean b) = []

abbrev pub nat_of : JsonValue → ℕ
nat_of (text t) = 0
nat_of (number (pos n)) = n
nat_of (number (negsuc n)) = 0
nat_of (boolean b) = 0
