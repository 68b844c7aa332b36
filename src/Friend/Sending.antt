-- ===== src/Friend/Sending.antt =====
-- send_request of services/friend/friend_service.cpp: when it succeeds, and what it writes.
use my_chat.Prelude.{
  ℕ, String, ◌≡◌, ◌≢◌, refl, ◌↔◌, ◌⊎◌, inl, inr, Bool, true, false, Option, none, [], ◌∷◌, ◌++◌,
  arith, IsIn, ◌==◌, ==_iff, nat_comparable, string_comparable, Option-cases, has_value, ok, failed,
}
use my_chat.Prelude.Int.{ℤ, positive_or}
use my_chat.Storage.{Database, persisted}
use my_chat.Storage.Laws.{rows-persisted}
use my_chat.User.{UserProfile}
use my_chat.Friend.{
  Friend, FriendRequest, FriendResult, pending, sent, FriendTable, same_pair, create,
  find_relationship, persist_request, send_request,
}

-- The row that a successful request adds.
abbrev pub request_row : FriendRequest → ℤ → ℕ → Friend
request_row request clock id = record {
  friend_id = id;
  requester_uid = request.requester_uid;
  target_uid = request.target_uid;
  status = pending;
  created_at = positive_or request.now_ms clock;
}

module _ (db : Database) (friends : FriendTable db) where
  open db use {Db}
  open friends use {rows}

  -- `create` fails and changes nothing, or appends the row under an id of its own.
  abbrev pub Created : Friend → Db → Bool × Db → Type 0
  Created f d r =
      (r ≡ (false, d))
      ⊎ ((k : ℕ) × (t : Db) × (r ≡ (true, t))
          × (rows t ≡ rows d ++ record f { friend_id = k } ∷ [])
          × ((x : Friend)
              → IsIn x (rows d)
              → ((x.friend_id == k) ≡ false) × (same_pair x f ≡ false)))

  pub create-Created : (f : Friend) (d : Db) → Created f d (create db friends f d)
  unfolding create
  create-Created f d = elim (Option-cases (persisted friends f d)) [
    | inl e ↦ inl (rw e)
    | inr (s, e) ↦
        let (appended, new) = rows-persisted friends f d s.0 s.1 e in
        inr (s.0, s.1, rw e, appended, new)
  ]

  module _ (profile_of : String → Option UserProfile) where
    abbrev pub Persisted : FriendRequest → ℤ → Db → FriendResult × Db → Type 0
    Persisted request clock d r =
        ((failed r.0 ≡ true) × (r.1 ≡ d))
        ⊎ ((k : ℕ) × (t : Db) × (r ≡ (ok sent, t))
            × (rows t ≡ rows d ++ request_row request clock k ∷ [])
            × ((x : Friend) → IsIn x (rows d) → (x.friend_id == k) ≡ false))

    pub persist_request-Persisted :
        (request : FriendRequest) (clock : ℤ) (d : Db)
        → Persisted request clock d (persist_request db friends profile_of request clock d)
    unfolding persist_request
    persist_request-Persisted request clock d =
        elim (create-Created (request_row request clock 0) d) [
          | inl e ↦ inl (rw e refl, rw e refl)
          | inr (k, t, e, appended, new) ↦ inr (k, t, rw e refl, appended, λ x m. (new x m).0)
        ]

    -- What a request must satisfy to be sent.
    abbrev pub CanSend : FriendRequest → Db → Type 0
    CanSend request d =
        (request.requester_uid ≢ "")
        × (request.target_uid ≢ "")
        × (request.requester_uid ≢ request.target_uid)
        × (has_value (profile_of request.target_uid) ≡ true)
        × (find_relationship db friends request.requester_uid request.target_uid d ≡ none)

    -- A request is refused with the database untouched, or it meets every condition and one
    -- pending row is added.
    pub send_request_effect :
        (request : FriendRequest) (clock : ℤ) (d : Db)
        → ((failed (send_request db friends profile_of request clock d).0 ≡ true)
            × ((send_request db friends profile_of request clock d).1 ≡ d))
          ⊎ (CanSend request d
              × Persisted request clock d (send_request db friends profile_of request clock d))
    unfolding send_request
    send_request_effect request clock d = ground (
      arith,
      ==_iff request.requester_uid "",
      ==_iff request.target_uid "",
      ==_iff request.requester_uid request.target_uid,
      persist_request-Persisted request clock d,
    )

    -- send_request refuses and changes nothing, or adds one pending row; it succeeds exactly if both uids are non-empty and differ, the target is a known
    -- user, no relationship of the two is found, and the pending row can be stored.
    pub send_request_lem :
        (request : FriendRequest) (clock : ℤ) (d : Db)
        → (((failed (send_request db friends profile_of request clock d).0 ≡ true)
              × ((send_request db friends profile_of request clock d).1 ≡ d))
            ⊎ Persisted request clock d (send_request db friends profile_of request clock d))
          × ((failed (send_request db friends profile_of request clock d).0 ≡ false) ↔ (
              (request.requester_uid ≢ "")
              × (request.target_uid ≢ "")
              × (request.requester_uid ≢ request.target_uid)
              × (has_value (profile_of request.target_uid) ≡ true)
              × (has_value (find_relationship db friends request.requester_uid request.target_uid d)
                  ≡ false)
              × ((create db friends (request_row request clock 0) d).0 ≡ true)))
    unfolding send_request persist_request
    send_request_lem request clock d = (
      elim (send_request_effect request clock d) [
        | inl refused ↦ inl refused
        | inr (_, added) ↦ inr added
      ],
      ground (
        arith,
        ==_iff request.requester_uid "",
        ==_iff request.target_uid "",
        ==_iff request.requester_uid request.target_uid,
      ),
    )
