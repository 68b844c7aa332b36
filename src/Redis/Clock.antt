-- ===== src/Redis/Clock.antt =====
-- A Redis server of texts in memory, with their expiry, which answers every command: the interface of
-- the commands on texts can be met.
use my_chat.Prelude.{
  Bool, ℕ, ◌+◌, ◌-◌, ◌*◌, ◌/◌, ◌≤◌, true, ◌≡◌, refl, ◌⊎◌, inl, inr, Option, none, some,
  bytes_comparable, ◌==◌, if◌then◌else◌, ltb, has_value, arith, Bool-cases, ap, ◌∙◌,
}
use my_chat.Prelude.Int.{ℤ, pos, negsuc}
use my_chat.Json.{Bytes}
use my_chat.Redis.Texts.{Texts, Answers, second}

-- A text and its deadline.
abbrev pub Entry : Type 0
Entry = Bytes × Option ℕ

abbrev pub Store : Type 0
Store = Bytes → Option Entry

abbrev pub visible : Option Entry → ℕ → Option Bytes
visible none t = none
visible (some (v, none)) t = some v
visible (some (v, some e)) t = if ltb t e then some v else none

abbrev pub with_entry : Bytes → Option Entry → Store → Store
with_entry key e d = λ k. if k == key then e else d k

abbrev pub until : Option Bytes → ℕ → Option Entry
until none deadline = none
until (some v) deadline = some (v, some deadline)

abbrev pub left : Option Entry → ℕ → ℤ
left none now = negsuc 1
left (some (v, none)) now = negsuc 0
left (some (v, some e)) now = if ltb now e then pos ((e - now) / second) else negsuc 1

pub visible-later :
    (e : Option Entry) (t t' : ℕ) → t ≤ t' → (visible e t' ≡ visible e t) ⊎ (visible e t' ≡ none)
visible-later none t t' le = inl refl
visible-later (some (v, none)) t t' le = inl refl
visible-later (some (v, some e)) t t' le = elim (Bool-cases (ltb t' e)) [
  | inl q ↦ inl (ground (arith, q))
  | inr q ↦ inr (ground (arith, q))
]

pub visible-with_entry :
    (key : Bytes) (e : Option Entry) (d : Store) (k : Bytes) (t : ℕ)
    → visible (with_entry key e d k) t ≡ (if k == key then visible e t else visible (d k) t)
visible-with_entry key e d k t = elim (Bool-cases (k == key)) [
  | inl q ↦ ground (arith, q)
  | inr q ↦ ground (arith, q)
]

pub visible-until :
    (o : Option Bytes) (deadline t : ℕ)
    → visible (until o deadline) t ≡ (if ltb t deadline then o else none)
visible-until none deadline t = elim (Bool-cases (ltb t deadline)) [
  | inl q ↦ ground (arith, q)
  | inr q ↦ ground (arith, q)
]
visible-until (some v) deadline t = refl

pub same_answer : (o o' : Option Bytes) → some o ≡ some o' → o' ≡ o
same_answer o o' e = ground (arith, e)

pub same_test : (b b' : Bool) → some b ≡ some b' → b' ≡ b
same_test b b' e = ground (arith, e)

abbrev pub clock : Texts
clock = record {
  Db = Store;
  text_at = λ k t d. visible (d k) t;
  set = λ k v now d. (true, with_entry k (some (v, none)) d);
  del = λ k now d. (true, with_entry k none d);
  expire = λ k s now d. (true, with_entry k (until (visible (d k) now) (now + s * second)) d);
  sadd = λ k x now d. (true, d);
  srem = λ k x now d. (true, d);
  get = λ k now d. some (visible (d k) now);
  ttl = λ k now d. some (left (d k) now);
  exists = λ k now d. some (has_value (visible (d k) now));
  exists_lem = λ k now d b e. same_test (has_value (visible (d k) now)) b e;
  text_lem = λ k t t' d le. visible-later (d k) t t' le;
  set_lem = λ k v now d _ j t le. visible-with_entry k (some (v, none)) d j t;
  del_lem = λ k now d _ j t le. visible-with_entry k none d j t;
  expire_lem = λ k s now d _ j t le.
      visible-with_entry k (until (visible (d k) now) (now + s * second)) d j t
      ∙ ap (λ o. if j == k then o else visible (d j) t)
          (visible-until (visible (d k) now) (now + s * second) t);
  sadd_lem = λ k x now d _ j t le. refl;
  srem_lem = λ k x now d _ j t le. refl;
  get_lem = λ k now d o e. same_answer (visible (d k) now) o e;
}

pub clock-Answers : Answers clock
clock-Answers = record {
  set_ok = λ k v now d. refl;
  del_ok = λ k now d. refl;
  expire_ok = λ k s now d. refl;
  sadd_ok = λ k x now d. refl;
  srem_ok = λ k x now d. refl;
  get_ok = λ k now d. (visible (d k) now, refl);
  ttl_ok = λ k now d. (left (d k) now, refl);
  exists_ok = λ k now d. (has_value (visible (d k) now), refl);
}

abbrev pub nothing : Store
nothing = λ k. none
