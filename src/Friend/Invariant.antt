-- ===== src/Friend/Invariant.antt =====
-- What the table of friend requests keeps: one row for each id and for each unordered pair of
-- users, and none of a user with itself. Histories of requests and answers.
use my_chat.Prelude.{
  ℕ, String, ◌≡◌, ◌≢◌, ◌⊎◌, sym, ap, subst, ◌∙◌, inl, inr, Bool, true, false, Option, none, List,
  [], ◌∷◌, ◌++◌, arith, IsIn, All, Apart, All-append_one, Apart-append_one, Apart-eq, All-IsIn,
  nat_comparable, string_comparable, ◌==◌, ==_iff, if◌then◌else◌, Option-cases, Bool-cases, first,
  ok, failed,
}
use my_chat.Prelude.Int.{ℤ}
use my_chat.Storage.{Database, replace, fetched, updated, loaded}
use my_chat.Storage.Replace.{Apart-replace, All-replace}
use my_chat.Storage.Laws.{IsIn-fetched, rows-updated, loaded_row}
use my_chat.User.{UserProfile}
use my_chat.Friend.{
  Friend, FriendStatus, FriendRequest, FriendResult, FriendTable, accepted, rejected, is_pending,
  relates, friend_schema, find_relationship, find_by_id, update_status, send_request, respond_to,
  respond_to_request, request_accepted, request_rejected,
}
use my_chat.Friend.Sending.{send_request_effect, request_row}

abbrev pub OtherId : Friend → Friend → Type 0
OtherId x y = (x.friend_id == y.friend_id) ≡ false

abbrev pub OtherPair : Friend → Friend → Type 0
OtherPair x y = relates y.requester_uid y.target_uid x ≡ false

abbrev pub NotSelf : Friend → Type 0
NotSelf x = x.requester_uid ≢ x.target_uid

pub record IsSound (rows : List Friend) : Type 0 where
  pub ids : Apart OtherId rows
  pub pairs : Apart OtherPair rows
  pub others : All NotSelf rows

not_first : (x : Friend) (xs : List Friend) → IsIn x xs → first xs ≢ none
not_first x (y ∷ xs) m e = cc
not_first x [] m e = absurd m

-- A new row of an id and a pair that no row has keeps the table sound.
append-IsSound :
    (xs : List Friend) (y : Friend)
    → IsSound xs
    → ((x : Friend) → IsIn x xs → OtherId x y)
    → ((x : Friend) → IsIn x xs → OtherPair x y)
    → NotSelf y
    → IsSound (xs ++ y ∷ [])
append-IsSound xs y v id pair self = record {
  ids = Apart-append_one OtherId xs y v.ids id;
  pairs = Apart-append_one OtherPair xs y v.pairs pair;
  others = All-append_one NotSelf xs y self v.others;
}

pub one_row :
    (xs : List Friend) (x y : Friend)
    → Apart OtherId xs
    → IsIn x xs
    → IsIn y xs
    → x.friend_id ≡ y.friend_id
    → x ≡ y
one_row xs x y h mx my e =
    Apart-eq OtherId xs x y h mx my (λ n. ground (arith, ==_iff x.friend_id y.friend_id))
      (λ n. ground (arith, ==_iff y.friend_id x.friend_id))

-- Changing the status of one row keeps the table sound.
replace-IsSound :
    (xs : List Friend) (old : Friend) (status : FriendStatus)
    → IsSound xs
    → IsIn old xs
    → IsSound (replace friend_schema (record old { status = status }) xs)
replace-IsSound xs old status v m =
    let new : Friend = record old { status = status } in
    let unique = λ (x : Friend) (mx : IsIn x xs) (h : x.friend_id ≡ old.friend_id).
      one_row xs x old v.ids mx m h in
    record {
      ids = Apart-replace friend_schema OtherId old new xs unique (λ x h. h) (λ x h. h) v.ids;
      pairs = Apart-replace friend_schema OtherPair old new xs unique (λ x h. h) (λ x h. h) v.pairs;
      others =
          All-replace friend_schema NotSelf new xs (All-IsIn NotSelf xs old v.others m) v.others;
    }

module _ (db : Database) (friends : FriendTable db) where
  open db use {Db}
  open friends use {rows}

  -- Reads succeed: a query that fails is taken for an empty answer by find_relationship.
  abbrev pub ReadsSucceed : Type 0
  ReadsSucceed = (p : Friend → Bool) (d : Db) → fetched friends p d ≢ none

  -- Where reads succeed, `none` means that no row relates the two users.
  pub find_relationship-none :
      ReadsSucceed
      → (a b : String) (d : Db) → find_relationship db friends a b d ≡ none
      → (x : Friend) → IsIn x (rows d)
      → relates a b x ≡ false
  unfolding find_relationship
  find_relationship-none reads a b d e x m = elim (Option-cases (fetched friends (relates a b) d)) [
    | inl failure ↦ absurd (reads (relates a b) d failure)
    | inr (rs, found) ↦ elim (Bool-cases (relates a b x)) [
      | inr other ↦ other
      | inl related ↦ absurd (
          not_first x rs (IsIn-fetched friends (relates a b) d rs found x m related)
            (rw found at e))
    ]
  ]

  -- Where reads succeed, a row that relates two users is found.
  pub find_relationship-some :
      ReadsSucceed
      → (a b : String) (d : Db) (x : Friend) → IsIn x (rows d)
      → relates a b x ≡ true
      → find_relationship db friends a b d ≢ none
  find_relationship-some reads a b d x m e missing =
      cc (e, find_relationship-none reads a b d missing x m)

  -- `update_status` fails and changes nothing, or replaces the one row of that id.
  pub update_status_cases :
      (id : ℕ) (status : FriendStatus) (d : Db)
      → (update_status db friends id status d ≡ (false, d))
        ⊎ ((old : Friend) × (t : Db) × IsIn old (rows d)
            × (old.friend_id ≡ id)
            × (update_status db friends id status d ≡ (true, t))
            × (rows t ≡ replace friend_schema (record old { status = status }) (rows d)))
  unfolding update_status
  update_status_cases id status d =
      elim (Option-cases (updated friends id (λ f. record f { status = status }) d)) [
        | inl e ↦ inl (rw e)
        | inr (s, e) ↦
            let (old, m, key, change, after) = rows-updated friends id _ d s.0 s.1 e in
            inr (old, s.1, m, key, rw e, after ∙ ap (λ r. replace friend_schema r (rows d)) change)
      ]

  module _ (profile_of : String → Option UserProfile) where
    pub send_request-IsSound :
        ReadsSucceed
        → (request : FriendRequest) (clock : ℤ) (d : Db) → IsSound (rows d)
        → IsSound (rows (send_request db friends profile_of request clock d).1)
    send_request-IsSound reads request clock d v =
        elim (send_request_effect db friends profile_of request clock d) [
          | inl (_, same) ↦ subst (λ t. IsSound (rows t)) (sym same) v
          | inr (can, inl (_, same)) ↦ subst (λ t. IsSound (rows t)) (sym same) v
          | inr (can, inr (k, t, done, appended, new)) ↦
              subst (λ r. IsSound (rows r.1)) (sym done)
                (subst IsSound (sym appended) (
                  append-IsSound (rows d) (request_row request clock k) v new
                    (find_relationship-none reads request.requester_uid request.target_uid d can.4)
                    can.2))
        ]

    -- What answering a request does: nothing, or one pending row that awaits the caller is
    -- accepted or rejected.
    abbrev pub Responded : ℕ → String → Bool → Db → FriendResult × Db → Type 0
    Responded id uid accept d r =
        ((failed r.0 ≡ true) × (r.1 ≡ d))
        ⊎ ((old : Friend) × IsIn old (rows d)
            × (old.friend_id ≡ id)
            × (old.target_uid ≡ uid)
            × (is_pending old.status ≡ true)
            × (r.0 ≡ ok (if accept then request_accepted else request_rejected))
            × (rows r.1
                ≡ replace friend_schema
                    (record old { status = if accept then accepted else rejected }) (rows d)))

    respond_to-Responded :
        (f : Friend) (id : ℕ) (uid : String) (accept : Bool) (d : Db)
        → IsSound (rows d)
        → IsIn f (rows d)
        → f.friend_id ≡ id
        → Responded id uid accept d (respond_to db friends profile_of f id uid accept d)
    unfolding respond_to
    respond_to-Responded f id uid accept d v m key =
        let new_status : FriendStatus = if accept then accepted else rejected in
        elim (Bool-cases (f.target_uid == uid)) [
          | inr other ↦ inl (rw other, rw other)
          | inl addressed ↦ elim (Bool-cases (is_pending f.status)) [
            | inr settled ↦ inl (rw (addressed, settled), rw (addressed, settled))
            | inl waits ↦ elim (update_status_cases id new_status d) [
              | inl e ↦ inl (rw (addressed, waits, e), rw (addressed, waits, e))
              | inr (old, t, mo, ko, e, after) ↦
                  let same : old ≡ f = one_row (rows d) old f v.ids mo m (ko ∙ sym key) in
                  inr (
                    f,
                    m,
                    key,
                    (==_iff f.target_uid uid).0 addressed,
                    waits,
                    rw (addressed, waits, e),
                    rw (addressed, waits, e)
                        (subst
                          (λ g.
                            rows t
                            ≡ replace friend_schema (record g { status = new_status }) (rows d))
                          same after),
                  )
            ]
          ]
        ]

    -- An answer is refused with the database untouched, or the caller is the target of a pending
    -- row of that id, and exactly that row's status changes.
    pub respond_to_request-Responded :
        (id : ℕ) (uid : String) (accept : Bool) (d : Db)
        → IsSound (rows d)
        → Responded id uid accept d (respond_to_request db friends profile_of id uid accept d)
    unfolding respond_to_request find_by_id
    respond_to_request-Responded id uid accept d v = elim (Option-cases (loaded friends id d)) [
      | inl e ↦ inl (rw (e, respond_to_request), rw (e, respond_to_request))
      | inr (f, e) ↦
          let (m, key) = loaded_row friends id d f e in
          rw (e, respond_to_request) (respond_to-Responded f id uid accept d v m key)
    ]

    pub respond_to_request-IsSound :
        (id : ℕ) (uid : String) (accept : Bool) (d : Db)
        → IsSound (rows d)
        → IsSound (rows (respond_to_request db friends profile_of id uid accept d).1)
    respond_to_request-IsSound id uid accept d v =
        elim (respond_to_request-Responded id uid accept d v) [
          | inl (_, same) ↦ subst (λ t. IsSound (rows t)) (sym same) v
          | inr (old, m, _, _, _, _, after) ↦
              subst IsSound (sym after) (replace-IsSound (rows d) old _ v m)
        ]
