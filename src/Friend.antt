-- ===== src/Friend.antt =====
-- services/friend and services/odb/friend.hpp: friend requests and their repository.
pub mod Sending
pub mod Invariant
pub mod History
pub mod Lists
pub mod Conflicts
mod Tests
use mathlib.Core.Option
use my_chat.Prelude.{
  ℕ, String, ◌≡◌, refl, Bool, true, false, not, ◌&&◌, ◌||◌, Option, none, some, List, map, ◌==◌,
  string_comparable, nat_comparable, if◌then◌else◌, ◌>>=◌, has_value, first, or_empty, Outcome, ok,
  err,
}
use my_chat.Prelude.Int.{ℤ, positive_or}
use my_chat.Storage.{Database, Schema, Table, attempt, persisted, loaded, fetched, queried, updated}
use my_chat.User.{UserProfile}

pub data FriendStatus : Type 0 where
  pending accepted rejected blocked : FriendStatus

abbrev pub is_pending : FriendStatus → Bool
is_pending pending = true
is_pending _ = false

abbrev pub is_accepted : FriendStatus → Bool
is_accepted accepted = true
is_accepted _ = false

pub record Friend : Type 0 where
  pub friend_id : ℕ
  pub requester_uid : String
  pub target_uid : String
  pub status : FriendStatus
  pub created_at : ℤ

-- `#pragma db id auto`, and the unique index over (requester_uid, target_uid).
abbrev pub same_pair : Friend → Friend → Bool
same_pair f g = (f.requester_uid == g.requester_uid) && (f.target_uid == g.target_uid)

pub friend_key-assign : (k : ℕ) (f : Friend) → (record f { friend_id = k }).friend_id ≡ k
friend_key-assign k f = refl

abbrev pub friend_schema : Schema ℕ Friend
friend_schema = record {
  key = λ f. f.friend_id;
  assign = λ k f. record f { friend_id = k };
  conflicts = same_pair;
  key-assign = friend_key-assign;
}

abbrev pub FriendTable : Database → Type 1
FriendTable db = Table friend_schema db

-- The `error_code` of a FriendResult; each goes with one fixed text.
pub data FriendError : Type 0 where
  empty_uid self_request target_not_found already_exists persist_failed : FriendError
  not_found forbidden not_pending update_failed : FriendError

-- The message of a FriendResult whose `ok` is true.
pub data FriendReply : Type 0 where
  sent request_accepted request_rejected : FriendReply

abbrev pub FriendResult : Type 0
FriendResult = Outcome FriendError FriendReply

pub record FriendRequest : Type 0 where
  pub requester_uid : String
  pub target_uid : String
  pub now_ms : ℤ

pub record FriendInfo : Type 0 where
  pub friend_id : ℕ
  pub friend_uid : String
  pub nickname : String
  pub status : FriendStatus
  pub created_at : ℤ

-- The query of find_relationship: the pair in either direction.
abbrev pub relates : String → String → Friend → Bool
relates a b f =
    ((f.requester_uid == a) && (f.target_uid == b))
    || ((f.requester_uid == b) && (f.target_uid == a))

-- The query of find_by_pair.
abbrev pub asks : String → String → Friend → Bool
asks requester target f = (f.requester_uid == requester) && (f.target_uid == target)

-- The query of find_friends.
abbrev pub befriends : String → Friend → Bool
befriends uid f = ((f.requester_uid == uid) || (f.target_uid == uid)) && is_accepted f.status

-- The query of find_pending.
abbrev pub awaits : String → Friend → Bool
awaits uid f = (f.target_uid == uid) && is_pending f.status

module _ (db : Database) (friends : FriendTable db) where
  open db use {Db}

  unfoldable pub create : Friend → Db → Bool × Db
  create f d = attempt d (Option.map (λ s. s.1) (persisted friends f d))

  unfoldable pub find_by_id : ℕ → Db → Option Friend
  find_by_id id d = loaded friends id d

  unfoldable pub find_relationship : String → String → Db → Option Friend
  find_relationship a b d = do rows ← fetched friends (relates a b) d; first rows

  unfoldable pub find_by_pair : String → String → Db → Option Friend
  find_by_pair requester target d = do rows ← fetched friends (asks requester target) d; first rows

  unfoldable pub relationship_exists : String → String → Db → Bool
  relationship_exists a b d = has_value (find_relationship a b d)

  unfoldable pub find_friends : String → Db → List Friend
  find_friends uid d = or_empty (queried friends (befriends uid) d)

  unfoldable pub find_pending : String → Db → List Friend
  find_pending uid d = or_empty (queried friends (awaits uid) d)

  unfoldable pub update_status : ℕ → FriendStatus → Db → Bool × Db
  update_status id status d =
      attempt d (Option.map (λ s. s.1) (updated friends id (λ f. record f { status = status }) d))

  -- user_service_->get_profile_by_uid
  module _ (profile_of : String → Option UserProfile) where
    -- The write that ends send_request, with the time read from the request or from the clock.
    unfoldable pub persist_request : FriendRequest → ℤ → Db → FriendResult × Db
    persist_request request clock d =
        let friend : Friend = record {
          friend_id = 0;
          requester_uid = request.requester_uid;
          target_uid = request.target_uid;
          status = pending;
          created_at = positive_or request.now_ms clock;
        } in
        let (done, d') = create friend d in
        if not done then (err persist_failed, d') else (ok sent, d')

    unfoldable pub send_request : FriendRequest → ℤ → Db → FriendResult × Db
    send_request request clock d =
        if (request.requester_uid == "") || (request.target_uid == "")
        then (err empty_uid, d)
        else if request.requester_uid == request.target_uid
        then (err self_request, d)
        else if not (has_value (profile_of request.target_uid))
        then (err target_not_found, d)
        else if has_value (find_relationship request.requester_uid request.target_uid d)
        then (err already_exists, d)
        else persist_request request clock d

    -- The tail of respond_to_request, once the request has been found.
    unfoldable pub respond_to : Friend → ℕ → String → Bool → Db → FriendResult × Db
    respond_to f friend_id uid accept d =
        if not (f.target_uid == uid)
        then (err forbidden, d)
        else if not (is_pending f.status)
        then (err not_pending, d)
        else let new_status = if accept then accepted else rejected in
          let (done, d') = update_status friend_id new_status d in
          if not done
          then (err update_failed, d')
          else (ok (if accept then request_accepted else request_rejected), d')

    unfoldable pub respond_to_request : ℕ → String → Bool → Db → FriendResult × Db
    respond_to_request friend_id uid accept d = elim (find_by_id friend_id d) [
      | none ↦ (err not_found, d)
      | some f ↦ respond_to f friend_id uid accept d
    ]

    unfoldable pub resolve_nickname : String → String
    resolve_nickname uid = elim (profile_of uid) [ none ↦ uid | some profile ↦ profile.nickname ]

    unfoldable pub to_friend_info : String → Friend → FriendInfo
    to_friend_info uid f =
        let other_uid = if f.requester_uid == uid then f.target_uid else f.requester_uid in
        record {
          friend_id = f.friend_id;
          friend_uid = other_uid;
          nickname = resolve_nickname other_uid;
          status = f.status;
          created_at = f.created_at;
        }

    unfoldable pub get_friends : String → Db → List FriendInfo
    get_friends uid d = map (to_friend_info uid) (find_friends uid d)

    unfoldable pub get_pending_requests : String → Db → List FriendInfo
    get_pending_requests uid d = map (to_friend_info uid) (find_pending uid d)
