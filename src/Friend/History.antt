-- ===== src/Friend/History.antt =====
-- Friend requests over time: histories of calls, and the life of one row.
use my_chat.Prelude.{
  ℕ, String, ◌≡◌, refl, sym, subst, ◌∙◌, inl, inr, Bool, true, false, Option, List, [], ◌∷◌, IsIn,
  IsIn-append_left, nat_comparable, string_comparable, ◌==◌, ==_iff, if◌then◌else◌, Bool-cases,
}
use my_chat.Prelude.Int.{ℤ}
use my_chat.Storage.{Database}
use my_chat.Storage.Replace.{replace-IsIn}
use my_chat.User.{UserProfile}
use my_chat.Friend.{
  Friend, FriendStatus, FriendRequest, FriendTable, pending, accepted, rejected, blocked,
  is_pending, friend_schema, send_request, respond_to_request,
}
use my_chat.Friend.Sending.{send_request_effect}
use my_chat.Friend.Invariant.{
  IsSound, ReadsSucceed, one_row, send_request-IsSound, respond_to_request-IsSound,
  respond_to_request-Responded,
}

pub data Call : Type 0 where
  sends : FriendRequest → ℤ → Call
  responds : ℕ → String → Bool → Call

-- How the status of a row may change.
pub data Moves : FriendStatus → FriendStatus → Type 0 where
  stays : (s : FriendStatus) → Moves s s
  accepts : Moves pending accepted
  rejects : Moves pending rejected

Moves-trans : {s t u : FriendStatus} → Moves s t → Moves t u → Moves s u
Moves-trans (stays s) m = m
Moves-trans accepts (stays t) = accepts
Moves-trans rejects (stays t) = rejects

pub pending-Moves :
    (s : FriendStatus) (accept : Bool)
    → is_pending s ≡ true
    → Moves s (if accept then accepted else rejected)
pending-Moves pending true e = accepts
pending-Moves pending false e = rejects
pending-Moves accepted a e = cc
pending-Moves rejected a e = cc
pending-Moves blocked a e = cc

-- `y` is the row `x` at a later time.
pub record Becomes (x y : Friend) : Type 0 where
  pub id : x.friend_id ≡ y.friend_id
  pub requester : x.requester_uid ≡ y.requester_uid
  pub target : x.target_uid ≡ y.target_uid
  pub time : x.created_at ≡ y.created_at
  pub status : Moves x.status y.status

Becomes-refl : (x : Friend) → Becomes x x
Becomes-refl x = record {
  id = refl;
  requester = refl;
  target = refl;
  time = refl;
  status = stays x.status;
}

Becomes-trans : {x y z : Friend} → Becomes x y → Becomes y z → Becomes x z
Becomes-trans p q = record {
  id = p.id ∙ q.id;
  requester = p.requester ∙ q.requester;
  target = p.target ∙ q.target;
  time = p.time ∙ q.time;
  status = Moves-trans p.status q.status;
}

-- The row `x` after an answer to the pending row `old`.
answered-Becomes :
    (xs : List Friend) (old x : Friend) (accept : Bool)
    → IsSound xs
    → IsIn old xs
    → IsIn x xs
    → is_pending old.status ≡ true
    → Becomes x (
        if x.friend_id == old.friend_id
        then record old { status = if accept then accepted else rejected }
        else x)
answered-Becomes xs old x accept v mo m waits = elim (Bool-cases (x.friend_id == old.friend_id)) [
  | inr other ↦ rw other (Becomes-refl x)
  | inl hit ↦
      let same = one_row xs x old v.ids m mo ((==_iff x.friend_id old.friend_id).0 hit) in
      rw hit (
        subst
          (λ (z : Friend).
            Becomes z (record old { status = if accept then accepted else rejected }))
          (sym same)
          (record {
            id = refl;
            requester = refl;
            target = refl;
            time = refl;
            status = pending-Moves old.status accept waits;
          }))
]

module _ (db : Database) (friends : FriendTable db) (profile_of : String → Option UserProfile) where
  open db use {Db}
  open friends use {rows}

  pub step : Call → Db → Db
  step (sends request clock) d = (send_request db friends profile_of request clock d).1
  step (responds id uid accept) d = (respond_to_request db friends profile_of id uid accept d).1

  pub run : List Call → Db → Db
  run [] d = d
  run (c ∷ cs) d = run cs (step c d)

  step-IsSound :
      ReadsSucceed db friends → (c : Call) (d : Db) → IsSound (rows d) → IsSound (rows (step c d))
  unfolding step
  step-IsSound reads (sends request clock) d v =
      send_request-IsSound db friends profile_of reads request clock d v
  step-IsSound reads (responds id uid accept) d v =
      respond_to_request-IsSound db friends profile_of id uid accept d v

  -- If reads succeed, calls made one after another keep the table sound.
  pub run-IsSound :
      ReadsSucceed db friends
      → (cs : List Call) (d : Db) → IsSound (rows d)
      → IsSound (rows (run cs d))
  unfolding run
  run-IsSound reads [] d v = v
  run-IsSound reads (c ∷ cs) d v = run-IsSound reads cs (step c d) (step-IsSound reads c d v)

  -- The row `x`, one call later.
  step-Becomes :
      (c : Call) (d : Db)
      → IsSound (rows d)
      → (x : Friend) → IsIn x (rows d)
      → (y : Friend) × IsIn y (rows (step c d)) × Becomes x y
  unfolding step
  step-Becomes (sends request clock) d v x m =
      elim (send_request_effect db friends profile_of request clock d) [
        | inl (_, same) ↦ (x, subst (λ t. IsIn x (rows t)) (sym same) m, Becomes-refl x)
        | inr (can, inl (_, same)) ↦ (x, subst (λ t. IsIn x (rows t)) (sym same) m, Becomes-refl x)
        | inr (can, inr (k, t, done, appended, new)) ↦ (
          x,
          subst (λ r. IsIn x (rows r.1)) (sym done)
              (subst (IsIn x) (sym appended) (IsIn-append_left x (rows d) _ m)),
          Becomes-refl x,
        )
      ]
  step-Becomes (responds id uid accept) d v x m =
      elim (respond_to_request-Responded db friends profile_of id uid accept d v) [
        | inl (_, same) ↦ (x, subst (λ t. IsIn x (rows t)) (sym same) m, Becomes-refl x)
        | inr (old, mo, key, addressed, waits, done, after) ↦ (
          _,
          subst (IsIn _) (sym after) (replace-IsIn friend_schema _ (rows d) x m),
          answered-Becomes (rows d) old x accept v mo m waits,
        )
      ]

  -- A row is never lost: after any calls from a sound table, where the reads succeed, it is there
  -- with its id, its users and its time, and its
  -- status has changed at most once, from pending to accepted or rejected.
  pub run-Becomes :
      ReadsSucceed db friends
      → (cs : List Call) (d : Db) → IsSound (rows d)
      → (x : Friend) → IsIn x (rows d)
      → (y : Friend) × IsIn y (rows (run cs d)) × Becomes x y
  unfolding run
  run-Becomes reads [] d v x m = (x, m, Becomes-refl x)
  run-Becomes reads (c ∷ cs) d v x m =
      let (y, my, p) = step-Becomes c d v x m in
      let (z, mz, q) = run-Becomes reads cs (step c d) (step-IsSound reads c d v) y my in
      (z, mz, Becomes-trans p q)
