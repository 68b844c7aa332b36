-- ===== src/Redis/Memory.antt =====
-- A Redis server in memory, which answers every command: the interface of the commands can be met.
use my_chat.Prelude.{
  ℕ, Bool, true, false, ◌&&◌, ◌||◌, length, ◌≡◌, ◌≢◌, ◌∙◌, refl, sym, ap, ◌↔◌, Option, none, some,
  List, [], ◌∷◌, IsIn, bytes_comparable, ◌==◌, ==_iff, if◌then◌else◌, inl, inr, Bool-cases,
  if_cases, arith, subst, ◌⊎◌,
}
use my_chat.Prelude.Tables.{lookup}
use my_chat.Json.{Bytes}
use my_chat.Redis.{Redis, Answers}

abbrev pub Entries : Type 0
Entries = List (Bytes × Bytes)

pub record Store : Type 0 where
  pub tables : Bytes → Entries
  pub sets : Bytes → List Bytes

unfoldable pub is_member : Bytes → List Bytes → Bool
is_member x [] = false
is_member x (y ∷ ys) = (y == x) || is_member x ys

unfoldable pub without_member : Bytes → List Bytes → List Bytes
without_member x [] = []
without_member x (y ∷ ys) = let rest = without_member x ys in if y == x then rest else y ∷ rest

is_member-without_member :
    (x y : Bytes) (ys : List Bytes)
    → is_member y (without_member x ys) ≡ (if y == x then false else is_member y ys)
unfolding is_member without_member
is_member-without_member x y [] = elim (Bool-cases (y == x)) [
  | inl e ↦ ground (arith, e)
  | inr e ↦ ground (arith, e)
]
is_member-without_member x y (z ∷ ys) =
    ground (arith, is_member-without_member x y ys, ==_iff z x, ==_iff y x, ==_iff z y)

pub IsIn-is_member : (x : Bytes) (xs : List Bytes) → IsIn x xs ↔ (is_member x xs ≡ true)
unfolding is_member
IsIn-is_member x [] = (λ m. absurd m, λ e. absurd (cc e))
IsIn-is_member x (y ∷ xs) = (
  λ m. elim m [
    | inl e ↦ ground (arith, e, ==_iff y x)
    | inr n ↦ ground (arith, (IsIn-is_member x xs).0 n)
  ],
  λ e. elim (Bool-cases (y == x)) [
    | inl q ↦ inl (sym ((==_iff y x).0 q))
    | inr q ↦ inr ((IsIn-is_member x xs).1 (ground (arith, e, q)))
  ],
)

unfoldable pub without : Bytes → Entries → Entries
without f [] = []
without f ((g, v) ∷ t) = let rest = without f t in if g == f then rest else (g, v) ∷ rest

-- The first entry of each field.
unfoldable pub firsts : Entries → Entries
firsts [] = []
firsts ((f, v) ∷ t) = (f, v) ∷ without f (firsts t)

pub lookup-without :
    (f g : Bytes) (t : Entries) → lookup g (without f t) ≡ (if g == f then none else lookup g t)
unfolding without lookup
lookup-without f g [] = elim (Bool-cases (g == f)) [
  | inl e ↦ ground (arith, e)
  | inr e ↦ ground (arith, e)
]
lookup-without f g ((h, v) ∷ t) = elim (Bool-cases (h == f)) [
  | inl e ↦ ground (arith, e, lookup-without f g t, ==_iff h f, ==_iff g f, ==_iff h g)
  | inr e ↦ ground (arith, e, lookup-without f g t, ==_iff h f, ==_iff g f, ==_iff h g)
]

same_field : (f v g w : Bytes) → ◌≡◌ {A = Bytes × Bytes} (f, v) (g, w) → f ≡ g
same_field f v g w q = ap (λ (p : Bytes × Bytes). p.0) q

IsIn-without : (f g v : Bytes) (t : Entries) → IsIn (g, v) (without f t) ↔ ((g ≢ f) × IsIn (g, v) t)
unfolding without
IsIn-without f g v [] = (λ m. absurd m, λ (_, m). m)
IsIn-without f g v ((h, w) ∷ t) =
    let (there, back) = IsIn-without f g v t in
    if_cases (λ r. IsIn (g, v) r ↔ ((g ≢ f) × IsIn (g, v) ((h, w) ∷ t))) (h == f) {x = without f t}
      {y = (h, w) ∷ without f t}
      (λ e. (
        λ m. ((there m).0, inr (there m).1),
        λ (ne, m). elim m [
          | inl q ↦ absurd (ne (same_field g v h w q ∙ (==_iff h f).0 e))
          | inr n ↦ back (ne, n)
        ],
      ))
      (λ e. (
        λ m. elim m [
          | inl q ↦ (λ p. absurd (cc (e, (==_iff h f).1 (sym (same_field g v h w q) ∙ p))), inl q)
          | inr n ↦ ((there n).0, inr (there n).1)
        ],
        λ (ne, m). elim m [ inl q ↦ inl q | inr n ↦ inr (back (ne, n)) ],
      ))

pub IsIn-firsts : (f v : Bytes) (t : Entries) → IsIn (f, v) (firsts t) ↔ (lookup f t ≡ some v)
unfolding firsts lookup
IsIn-firsts f v [] = (λ m. absurd m, λ e. absurd (cc e))
IsIn-firsts f v ((g, w) ∷ t) =
    let (there, back) = IsIn-firsts f v t in
    let (apart, joined) = IsIn-without g f v (firsts t) in
    if_cases
      (λ (r : Option Bytes).
        (◌≡◌ {A = Bytes × Bytes} (f, v) (g, w) ⊎ IsIn (f, v) (without g (firsts t))) ↔ (r ≡ some v))
      (g == f) {x = some w} {y = lookup f t}
      (λ e. (
        λ m. elim m [
          | inl q ↦ ap (λ (p : Bytes × Bytes). some p.1) (sym q)
          | inr n ↦ absurd ((apart n).0 (sym ((==_iff g f).0 e)))
        ],
        λ q. inl (ground (arith, q, e, ==_iff g f)),
      ))
      (λ e. (
        λ m. elim m [
          | inl q ↦ absurd (cc (e, (==_iff g f).1 (sym (same_field f v g w q))))
          | inr n ↦ there (apart n).1
        ],
        λ q. inr (joined (ground (arith, e, ==_iff g f), back q)),
      ))

unfoldable pub with_table : Bytes → Entries → Store → Store
with_table key t d = record { tables = λ k. if k == key then t else d.tables k; sets = d.sets }

unfoldable pub with_member : Bytes → Bytes → Bool → Store → Store
with_member key x is_in d =
    let others = without_member x (d.sets key) in
    let changed = if is_in then x ∷ others else others in
    record { tables = d.tables; sets = λ k. if k == key then changed else d.sets k }

pub lookup-put :
    (f v : Bytes) (t : Entries) (g : Bytes)
    → lookup g ((f, v) ∷ t) ≡ (if g == f then some v else lookup g t)
unfolding lookup
lookup-put f v t g = ground (arith, ==_iff f g, ==_iff g f)

pub cleared :
    (j k f : Bytes) (d : Store)
    → lookup f (if j == k then [] else d.tables j)
      ≡ (if j == k then none else lookup f (d.tables j))
unfolding lookup
cleared j k f d = elim (Bool-cases (j == k)) [
  | inl e ↦ ground (arith, e)
  | inr e ↦ ground (arith, e)
]

pub read :
    (k f : Bytes) (d : Store) (o : Option Bytes)
    → ◌≡◌ {A = Option (Option Bytes)} (some (lookup f (d.tables k))) (some o)
    → o ≡ lookup f (d.tables k)
read k f d o e = ground (arith, e)

pub got :
    (k : Bytes) (d : Store) (entries : Entries)
    → ◌≡◌ {A = Option Entries} (some (firsts (d.tables k))) (some entries)
    → firsts (d.tables k) ≡ entries
got k d entries e = ground (arith, e)

pub member-SetsMember :
    (key x : Bytes) (is_in : Bool) (d : Store)
    → ((k f : Bytes) → lookup f ((with_member key x is_in d).tables k) ≡ lookup f (d.tables k))
      × ((k y : Bytes)
          → is_member y ((with_member key x is_in d).sets k)
            ≡ (if (k == key) && (y == x) then is_in else is_member y (d.sets k)))
unfolding with_member is_member
member-SetsMember key x is_in d = (
  λ k f. refl,
  λ k y. elim (Bool-cases (k == key)) [
    | inl e ↦
        ground (
          arith,
          e,
          is_member-without_member x y (d.sets key),
          ==_iff k key,
          ==_iff x y,
          ==_iff y x,
        )
    | inr e ↦ ground (arith, e)
  ],
)

pub cleared_set :
    (j k x : Bytes) (d : Store)
    → is_member x (if j == k then [] else d.sets j)
      ≡ (if j == k then false else is_member x (d.sets j))
unfolding is_member
cleared_set j k x d = elim (Bool-cases (j == k)) [
  | inl e ↦ ground (arith, e)
  | inr e ↦ ground (arith, e)
]

pub listed :
    (k : Bytes) (d : Store) (xs : List Bytes)
    → ◌≡◌ {A = Option (List Bytes)} (some (d.sets k)) (some xs)
    → d.sets k ≡ xs
listed k d xs e = ground (arith, e)

pub counted :
    (k : Bytes) (d : Store) (xs : List Bytes) (n : ℕ)
    → ◌≡◌ {A = Option (List Bytes)} (some (d.sets k)) (some xs)
    → some (length (d.sets k)) ≡ some n
    → n ≡ length xs
counted k d xs n e q = ground (arith, q, listed k d xs e)

-- A table with one changed entry, among the others.
pub table-SetsField :
    (key field : Bytes) (value : Option Bytes) (t : Entries) (d : Store)
    → ((f : Bytes) → lookup f t ≡ (if f == field then value else lookup f (d.tables key)))
    → ((k f : Bytes)
        → lookup f ((with_table key t d).tables k)
          ≡ (if (k == key) && (f == field) then value else lookup f (d.tables k)))
      × ((k x : Bytes) → is_member x ((with_table key t d).sets k) ≡ is_member x (d.sets k))
unfolding with_table
table-SetsField key field value t d changed = (
  λ k f. elim (Bool-cases (k == key)) [
    | inl e ↦ ground (arith, e, changed f, ==_iff k key)
    | inr e ↦ ground (arith, e)
  ],
  λ k x. refl,
)

abbrev pub memory : Redis
memory = record {
  Db = Store;
  views = record {
    hash = λ k f d. lookup f (d.tables k);
    member = λ k x d. is_member x (d.sets k);
  };
  hset = λ k f v d. (true, with_table k ((f, v) ∷ d.tables k) d);
  hdel = λ k f d. (true, with_table k (without f (d.tables k)) d);
  sadd = λ k x d. (true, with_member k x true d);
  srem = λ k x d. (true, with_member k x false d);
  del = λ k d. (
    true,
    record {
      tables = λ j. if j == k then [] else d.tables j;
      sets = λ j. if j == k then [] else d.sets j;
    },
  );
  hget = λ k f d. some (lookup f (d.tables k));
  hgetall = λ k d. some (firsts (d.tables k));
  smembers = λ k d. some (d.sets k);
  scard = λ k d. some (length (d.sets k));
  smembers_lem = λ k d xs e x.
      subst (λ t. IsIn x t ↔ (is_member x (d.sets k) ≡ true)) (listed k d xs e)
        (IsIn-is_member x (d.sets k));
  scard_lem = λ k d xs n e q. counted k d xs n e q;
  hset_lem = λ k f v d _.
      table-SetsField k f (some v) ((f, v) ∷ d.tables k) d (lookup-put f v (d.tables k));
  hdel_lem = λ k f d _.
      table-SetsField k f none (without f (d.tables k)) d (λ g. lookup-without f g (d.tables k));
  sadd_lem = λ k x d _. member-SetsMember k x true d;
  srem_lem = λ k x d _. member-SetsMember k x false d;
  del_lem = λ k d _. (λ j f. cleared j k f d, λ j x. cleared_set j k x d);
  hget_lem = λ k f d o e. read k f d o e;
  hgetall_lem = λ k d entries e f v.
      subst (λ t. IsIn (f, v) t ↔ (lookup f (d.tables k) ≡ some v)) (got k d entries e)
        (IsIn-firsts f v (d.tables k));
}

pub memory-Answers : Answers memory
memory-Answers = record {
  hset_ok = λ k f v d. refl;
  hdel_ok = λ k f d. refl;
  sadd_ok = λ k x d. refl;
  srem_ok = λ k x d. refl;
  del_ok = λ k d. refl;
  hget_ok = λ k f d. (lookup f (d.tables k), refl);
  hgetall_ok = λ k d. (firsts (d.tables k), refl);
  smembers_ok = λ k d. (d.sets k, refl);
  scard_ok = λ k d. (length (d.sets k), refl);
}

abbrev pub empty : Store
empty = record { tables = λ k. []; sets = λ k. [] }
