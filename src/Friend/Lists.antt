-- ===== src/Friend/Lists.antt =====
-- get_friends and get_pending_requests of services/friend/friend_service.cpp.
use my_chat.Prelude.{
  ℕ, String, ◌≡◌, ◌↔◌, ◌⊎◌, refl, sym, ap, subst, ◌∙◌, inl, inr, Bool, true, Option, arith, IsIn,
  IsIn-map, IsIn-map_inv, nat_comparable, string_comparable, ==_iff, Option-cases, or_empty, ok,
  failed,
}
use my_chat.Storage.{Database, queried}
use my_chat.Storage.Laws.{IsIn-queried, queried-IsIn, fetched-none}
use my_chat.Storage.Replace.{new-IsIn-replace}
use my_chat.User.{UserProfile}
use my_chat.Friend.{
  Friend, FriendInfo, FriendTable, accepted, is_accepted, befriends, find_friends, get_friends,
  to_friend_info, respond_to_request, request_accepted, friend_schema,
}
use my_chat.Friend.Invariant.{IsSound, ReadsSucceed, one_row, respond_to_request-Responded}

module _ (db : Database) (friends : FriendTable db) where
  open db use {Db}
  open friends use {rows}

  query_IsIn :
      ReadsSucceed db friends
      → (p : Friend → Bool) (d : Db) (f : Friend)
      → (IsIn f (or_empty (queried friends p d)) ↔ (IsIn f (rows d) × (p f ≡ true)))
  query_IsIn reads p d f = elim (Option-cases (queried friends p d)) [
    | inl failure ↦ absurd (reads p d (fetched-none friends p d failure))
    | inr (rs, found) ↦ (
      λ m. queried-IsIn friends p d rs found f (rw found at m),
      λ h. rw found (IsIn-queried friends p d rs found f h.0 h.1),
    )
  ]

  module _ (profile_of : String → Option UserProfile) where
    -- `b` stands in the friend list of `a`.
    abbrev pub Lists : String → String → Db → Type 0
    Lists a b d =
        (i : FriendInfo) × IsIn i (get_friends db friends profile_of a d) × (i.friend_uid ≡ b)

    -- `a` and `b` are the two users of a row.
    abbrev pub Joins : Friend → String → String → Type 0
    Joins f a b =
        ((f.requester_uid ≡ a) × (f.target_uid ≡ b)) ⊎ ((f.requester_uid ≡ b) × (f.target_uid ≡ a))

    Joins-of_listed :
        (a b : String) (f : Friend)
        → befriends a f ≡ true
        → (to_friend_info db friends profile_of a f).friend_uid ≡ b
        → (is_accepted f.status ≡ true) × Joins f a b
    unfolding to_friend_info
    Joins-of_listed a b f e o = ground (arith, ==_iff f.requester_uid a, ==_iff f.target_uid a)

    listed_of_Joins :
        (a b : String) (f : Friend)
        → is_accepted f.status ≡ true
        → Joins f a b
        → (befriends a f ≡ true) × ((to_friend_info db friends profile_of a f).friend_uid ≡ b)
    unfolding to_friend_info
    listed_of_Joins a b f e joins = ground (arith, ==_iff f.requester_uid a, ==_iff f.target_uid a)

    -- A friend list holds exactly the other users of the accepted rows of its owner.
    pub Lists-iff :
        ReadsSucceed db friends
        → (a b : String) (d : Db)
        → Lists a b d
          ↔ ((f : Friend) × IsIn f (rows d) × (is_accepted f.status ≡ true) × Joins f a b)
    unfolding get_friends find_friends
    Lists-iff reads a b d = (
      λ (i, m, e).
          let info = to_friend_info db friends profile_of a in
          let (f, mf, ei) = IsIn-map_inv info i (find_friends db friends a d) m in
          let (mr, test) = (query_IsIn reads (befriends a) d f).0 mf in
          let (acc, joins) =
            Joins-of_listed a b f test (ap (λ (j : FriendInfo). j.friend_uid) (sym ei) ∙ e) in
          (f, mr, acc, joins),
      λ (f, m, acc, joins).
          let info = to_friend_info db friends profile_of a in
          let (test, other) = listed_of_Joins a b f acc joins in
          (
            info f,
            IsIn-map info f (find_friends db friends a d)
                ((query_IsIn reads (befriends a) d f).1 (m, test)),
            other,
          ),
    )

    Joins-swap : (f : Friend) (a b : String) → Joins f a b → Joins f b a
    Joins-swap f a b (inl (x, y)) = inr (x, y)
    Joins-swap f a b (inr (x, y)) = inl (x, y)

    -- Friendship is mutual: `b` stands in the list of `a` exactly if `a` stands in the list of `b`.
    pub Lists-symm : ReadsSucceed db friends → (a b : String) (d : Db) → Lists a b d → Lists b a d
    Lists-symm reads a b d h =
        let (f, m, acc, joins) = (Lists-iff reads a b d).0 h in
        (Lists-iff reads b a d).1 (f, m, acc, Joins-swap f a b joins)

    -- In a sound table and where the reads succeed, a request that respond_to_request has accepted puts
    -- both users in each other's list.
    pub accept-Lists :
        ReadsSucceed db friends
        → (id : ℕ) (uid : String) (d : Db) (f : Friend) → IsSound (rows d)
        → IsIn f (rows d)
        → f.friend_id ≡ id
        → let r = respond_to_request db friends profile_of id uid true d in
          r.0 ≡ ok request_accepted → Lists f.requester_uid uid r.1 × Lists uid f.requester_uid r.1
    accept-Lists reads id uid d f v m key done =
        elim (respond_to_request-Responded db friends profile_of id uid true d v) [
          | inl (refused, _) ↦ cc (ap failed done)
          | inr (old, mo, ko, addressed, waits, _, after) ↦
              let new : Friend = record old { status = accepted } in
              let d' = (respond_to_request db friends profile_of id uid true d).1 in
              let same : old ≡ f = one_row (rows d) old f v.ids mo m (ko ∙ sym key) in
              let there : IsIn new (rows d') =
                subst (IsIn new) (sym after)
                  (new-IsIn-replace friend_schema old new (rows d) mo refl) in
              let mutual_lists =
                (Lists-iff reads f.requester_uid uid d').1
                  (new, there, refl, inl (ap (λ (x : Friend). x.requester_uid) same, addressed)) in
              (mutual_lists, Lists-symm reads f.requester_uid uid d' mutual_lists)
        ]
