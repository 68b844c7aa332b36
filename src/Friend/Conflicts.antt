-- ===== src/Friend/Conflicts.antt =====
-- Requests between users who already have a row, and two requests at the same time.
use my_chat.Prelude.{
  ℕ, String, ◌≡◌, refl, sym, ap, subst, ◌∙◌, inl, inr, Bool-cases, none, IsIn-append_cases, true,
  false, Option, List, [], ◌∷◌, ◌++◌, arith, IsIn, IsIn-append_right, Apart, Apart-last,
  string_comparable, ==_iff, ok, failed,
}
use my_chat.Prelude.Int.{ℤ}
use my_chat.Storage.{Database}
use my_chat.User.{UserProfile}
use my_chat.Friend.{
  Friend, FriendRequest, FriendResult, FriendTable, relates, sent, same_pair, create,
  find_relationship, send_request, persist_request,
}
use my_chat.Friend.Sending.{send_request_effect, create-Created, CanSend, request_row}
use my_chat.Friend.Invariant.{IsSound, OtherPair, ReadsSucceed, find_relationship-some}
use my_chat.Friend.History.{Call, run, run-Becomes}

module _ (db : Database) (friends : FriendTable db) (profile_of : String → Option UserProfile) where
  open db use {Db}
  open friends use {rows}

  -- Two users who ever had a row cannot send each other a new request, in either direction,
  -- whatever happened to the row since: a rejection is final.
  pub resend_refused :
      ReadsSucceed db friends
      → (cs : List Call) (d : Db) (x : Friend) (request : FriendRequest) (clock : ℤ)
      → IsSound (rows d)
      → IsIn x (rows d)
      → relates request.requester_uid request.target_uid x ≡ true
      → let d' = run db friends profile_of cs d in
        (failed (send_request db friends profile_of request clock d').0 ≡ true)
        × ((send_request db friends profile_of request clock d').1 ≡ d')
  resend_refused reads cs d x request clock v m related =
      let d' = run db friends profile_of cs d in
      let (y, my, later) = run-Becomes db friends profile_of reads cs d v x m in
      elim (send_request_effect db friends profile_of request clock d') [
        | inl refused ↦ refused
        | inr (can, _) ↦ absurd (
            find_relationship-some db friends reads request.requester_uid request.target_uid d' y my
              (ground (arith, later.requester, later.target)) can.4)
      ]

  -- A row that clashes with no stored one in the unique index is stored.
  abbrev pub Stores : Type 0
  Stores =
      (f : Friend) (d : Db)
      → ((x : Friend) → IsIn x (rows d) → same_pair x f ≡ false)
      → (create db friends f d).0 ≡ true

  persist_request-sent :
      (r : FriendRequest) (clock : ℤ) (d : Db)
      → (create db friends (request_row r clock 0) d).0 ≡ true
      → ((persist_request db friends profile_of r clock d).0 ≡ ok sent)
        × ((k : ℕ) × (rows (persist_request db friends profile_of r clock d).1
              ≡ rows d ++ request_row r clock k ∷ []))
  unfolding persist_request
  persist_request-sent r clock d made = elim (create-Created db friends (request_row r clock 0) d) [
    | inl e ↦ absurd (ground (arith, made, e))
    | inr (k, t, e, appended, _) ↦
        let run : persist_request db friends profile_of r clock d ≡ (ok sent, t) = rw e refl in
        (
          ap (λ (p : FriendResult × Db). p.0) run,
          (k, ap (λ (p : FriendResult × Db). rows p.1) run ∙ appended),
        )
  ]

  unrelated :
      ReadsSucceed db friends
      → (r : FriendRequest) (clock : ℤ) (k : ℕ) (d : Db)
      → find_relationship db friends r.requester_uid r.target_uid d ≡ none
      → (x : Friend) → IsIn x (rows d)
      → same_pair x (request_row r clock k) ≡ false
  unrelated reads r clock k d absent x m = elim (Bool-cases (same_pair x (request_row r clock k))) [
    | inr e ↦ e
    | inl e ↦ absurd (
        find_relationship-some db friends reads r.requester_uid r.target_uid d x m
          (ground (arith, e)) absent)
  ]

  passes :
      (r : FriendRequest) (clock : ℤ) (d : Db)
      → CanSend db friends profile_of r d
      → send_request db friends profile_of r clock d
        ≡ persist_request db friends profile_of r clock d
  unfolding send_request
  passes r clock d (asker, target, other, known, absent) = ground (
    arith,
    asker,
    target,
    other,
    known,
    absent,
    ==_iff r.requester_uid "",
    ==_iff r.target_uid "",
    ==_iff r.requester_uid r.target_uid,
  )

  -- Two opposite requests whose checks were both made before either was written: both pass them, and
  -- both are then stored, where the reads succeed and a row that clashes with none in the unique
  -- index is stored. The two users have two rows, as the index covers one direction only.
  pub send_race :
      (r s : FriendRequest) (clock : ℤ) (d : Db)
      → ReadsSucceed db friends
      → Stores
      → r.requester_uid ≡ s.target_uid
      → r.target_uid ≡ s.requester_uid
      → CanSend db friends profile_of r d
      → CanSend db friends profile_of s d
      → (let first = persist_request db friends profile_of r clock d in
          let second = persist_request db friends profile_of s clock first.1 in
          (send_request db friends profile_of r clock d ≡ first)
          × (send_request db friends profile_of s clock d
              ≡ persist_request db friends profile_of s clock d)
          × (first.0 ≡ ok sent)
          × (second.0 ≡ ok sent)
          × ¬ IsSound (rows second.1))
  send_race r s clock d reads stores e₁ e₂ can₁ can₂ =
      let d₁ = (persist_request db friends profile_of r clock d).1 in
      let (sent₁, (j, first_row)) =
        persist_request-sent r clock d
          (stores (request_row r clock 0) d (unrelated reads r clock 0 d can₁.4)) in
      let x = request_row r clock j in
      let opposite : same_pair x (request_row s clock 0) ≡ false =
        ground (arith, e₁, e₂, can₁.2, ==_iff r.requester_uid s.requester_uid) in
      let free : (y : Friend) → IsIn y (rows d₁) → same_pair y (request_row s clock 0) ≡ false =
        λ y m. elim (IsIn-append_cases y (rows d) (x ∷ []) (subst (IsIn y) first_row m)) [
          | inl old ↦ unrelated reads s clock 0 d can₂.4 y old
          | inr (inl e) ↦ subst (λ z. same_pair z (request_row s clock 0) ≡ false) (sym e) opposite
          | inr (inr none_left) ↦ absurd none_left
        ] in
      let (sent₂, (k, second_row)) =
        persist_request-sent s clock d₁ (stores (request_row s clock 0) d₁ free) in
      let y = request_row s clock k in
      let here : IsIn x (rows d₁) =
        subst (IsIn x) (sym first_row) (IsIn-append_right x (rows d) (x ∷ []) (inl refl)) in
      (
        passes r clock d can₁,
        passes s clock d can₂,
        sent₁,
        sent₂,
        λ v.
            let apart : OtherPair x y =
              Apart-last OtherPair (rows d₁) x y (subst (Apart OtherPair) second_row v.pairs)
                here in
            ground (
              arith,
              apart,
              ==_iff r.requester_uid s.target_uid,
              ==_iff r.target_uid s.requester_uid,
            ),
      )
