-- ===== src/Friend/Tests.antt =====
-- Friend requests at concrete inputs, over the database in memory.
use my_chat.Prelude.{
  String, ◌≡◌, ◌≢◌, has_value, ◌⊎◌, ◌↔◌, refl, inl, true, false, Option, none, some, List, [], ◌∷◌,
  arith, IsIn, select, string_comparable, nat_comparable, ◌==◌, ==_iff, ok, failed, if◌then◌else◌,
}
use my_chat.Prelude.Int.{pos}
use my_chat.Storage.{Database, fetched, persisted, loaded, updated, replace}
use my_chat.Storage.Memory.{memory, table, insert, fresh, clashes, find}
use my_chat.User.{UserProfile, unknown}
use my_chat.Friend.{
  Friend, FriendRequest, FriendTable, friend_schema, same_pair, pending, accepted, sent,
  request_accepted, create, find_relationship, find_by_id, update_status, persist_request,
  send_request, respond_to, respond_to_request,
}
use my_chat.Friend.Sending.{send_request_lem, request_row, Persisted, CanSend}
use my_chat.Friend.Invariant.{IsSound, ReadsSucceed, respond_to_request-Responded, Responded}
use my_chat.Friend.History.{Call, sends, responds, run, run-IsSound, run-Becomes, Becomes}
use my_chat.Prelude.{ℕ, ◌<◌, ap, inr}
use my_chat.Friend.Lists.{Lists, accept-Lists}
use my_chat.Friend.Conflicts.{send_race, Stores}

abbrev store : Database
store = memory (List Friend)

put_back : (xs d : List Friend) → xs ≡ xs
put_back xs d = refl

abbrev friends : FriendTable store
friends = table friend_schema (fresh (λ (f : Friend). f.friend_id)) (λ d. d) (λ xs _. xs) put_back

abbrev profile_of : String → Option UserProfile
profile_of uid =
    if uid == "ghost"
    then none
    else some (record {
      uid = uid;
      account = uid;
      nickname = uid;
      avatar = "";
      gender = unknown;
      signature = "";
      create_time = pos 0;
      last_login = pos 0;
      online = false;
    })

reads : ReadsSucceed store friends
unfolding fetched
reads p d e = cc

abbrev ask : FriendRequest
ask = record { requester_uid = "ann"; target_uid = "bob"; now_ms = pos 7 }

abbrev ask_back : FriendRequest
ask_back = record { requester_uid = "bob"; target_uid = "ann"; now_ms = pos 8 }

abbrev asked : Friend
asked = record {
  friend_id = 1;
  requester_uid = "ann";
  target_uid = "bob";
  status = pending;
  created_at = pos 7;
}

abbrev befriended : Friend
befriended = record asked { status = accepted }

asked-IsSound : IsSound (asked ∷ [])
asked-IsSound = record {
  ids = (λ y m. absurd m, tt);
  pairs = (λ y m. absurd m, tt);
  others = (λ e. ground (arith, ==_iff {T = String} "ann" "bob"), tt);
}

empty-IsSound : IsSound []
empty-IsSound = record { ids = tt; pairs = tt; others = tt }

send_adds : send_request store friends profile_of ask (pos 0) [] ≡ (ok sent, asked ∷ [])
unfolding send_request persist_request create find_relationship fetched persisted insert fresh
    clashes select find
send_adds = refl

answer :
    respond_to_request store friends profile_of 1 "bob" true (asked ∷ [])
    ≡ (ok request_accepted, befriended ∷ [])
unfolding respond_to_request respond_to find_by_id update_status loaded updated find replace
answer = refl

respond_to_request-Responded_example :
    Responded store friends profile_of 1 "bob" true
      (asked ∷ [])
      (respond_to_request store friends profile_of 1 "bob" true (asked ∷ []))
respond_to_request-Responded_example =
    respond_to_request-Responded store friends profile_of 1 "bob" true (asked ∷ []) asked-IsSound

abbrev calls : List Call
calls = sends ask (pos 0) ∷ responds 1 "bob" true ∷ sends ask_back (pos 9) ∷ []

run-IsSound_example : IsSound (run store friends profile_of calls [])
run-IsSound_example = run-IsSound store friends profile_of reads calls [] empty-IsSound

run-Becomes_example :
    (y : Friend) × IsIn y (run store friends profile_of calls (asked ∷ [])) × Becomes asked y
run-Becomes_example =
    run-Becomes store friends profile_of reads calls (asked ∷ []) asked-IsSound asked (inl refl)

can_ask : CanSend store friends profile_of ask []
unfolding find_relationship fetched select
can_ask = (
  (λ e. ground (arith, e, ==_iff {T = String} "ann" "")),
  (λ e. ground (arith, e, ==_iff {T = String} "bob" "")),
  (λ e. ground (arith, e, ==_iff {T = String} "ann" "bob")),
  refl,
  refl,
)

can_ask_back : CanSend store friends profile_of ask_back []
unfolding find_relationship fetched select
can_ask_back = (
  (λ e. ground (arith, e, ==_iff {T = String} "bob" "")),
  (λ e. ground (arith, e, ==_iff {T = String} "ann" "")),
  (λ e. ground (arith, e, ==_iff {T = String} "bob" "ann")),
  refl,
  refl,
)

fresh-lt :
    (r : Friend) (xs : List Friend) (x : Friend)
    → IsIn x xs
    → x.friend_id < fresh (λ (f : Friend). f.friend_id) r xs
unfolding fresh
fresh-lt r [] x m = absurd m
fresh-lt r (y ∷ xs) x (inl e) = ground (arith, ap (λ (f : Friend). f.friend_id) e)
fresh-lt r (y ∷ xs) x (inr m) = ground (arith, fresh-lt r xs x m)

find-above :
    (k : ℕ) (xs : List Friend)
    → ((x : Friend) → IsIn x xs → x.friend_id < k)
    → has_value (find friend_schema k xs) ≡ false
unfolding find
find-above k [] h = refl
find-above k (y ∷ xs) h =
    let below = h y (inl refl) in ground (arith, below, find-above k xs (λ x m. h x (inr m)))

no_clash :
    (f : Friend) (xs : List Friend)
    → ((x : Friend) → IsIn x xs → same_pair x f ≡ false)
    → clashes friend_schema f xs ≡ false
unfolding clashes
no_clash f [] h = refl
no_clash f (y ∷ xs) h =
    let free = h y (inl refl) in ground (arith, free, no_clash f xs (λ x m. h x (inr m)))

stores : Stores store friends profile_of
unfolding create persisted insert
stores f d h =
    rw (find-above (fresh (λ (g : Friend). g.friend_id) f d) d (fresh-lt f d), no_clash f d h) refl

send_race_example :
    let first = persist_request store friends profile_of ask (pos 0) [] in
    let second = persist_request store friends profile_of ask_back (pos 0) first.1 in
    (send_request store friends profile_of ask (pos 0) [] ≡ first)
    × (send_request store friends profile_of ask_back (pos 0) []
        ≡ persist_request store friends profile_of ask_back (pos 0) [])
    × (first.0 ≡ ok sent)
    × (second.0 ≡ ok sent)
    × ¬ IsSound second.1
send_race_example =
    send_race store friends profile_of ask ask_back (pos 0) [] reads stores refl refl can_ask
      can_ask_back

send_request_lem_example :
    (((failed (send_request store friends profile_of ask (pos 0) []).0 ≡ true)
        × ((send_request store friends profile_of ask (pos 0) []).1 ≡ []))
      ⊎ Persisted store friends profile_of ask
          (pos 0)
          []
          (send_request store friends profile_of ask (pos 0) []))
    × ((failed (send_request store friends profile_of ask (pos 0) []).0 ≡ false) ↔ (
        (ask.requester_uid ≢ "")
        × (ask.target_uid ≢ "")
        × (ask.requester_uid ≢ ask.target_uid)
        × (has_value (profile_of "bob") ≡ true)
        × (has_value (find_relationship store friends "ann" "bob" []) ≡ false)
        × ((create store friends (request_row ask (pos 0) 0) []).0 ≡ true)))
send_request_lem_example = send_request_lem store friends profile_of ask (pos 0) []

accept-Lists_example :
    let d = (respond_to_request store friends profile_of 1 "bob" true (asked ∷ [])).1 in
    Lists store friends profile_of "ann" "bob" d × Lists store friends profile_of "bob" "ann" d
unfolding respond_to_request respond_to find_by_id update_status loaded updated find replace
accept-Lists_example =
    accept-Lists store friends profile_of reads 1 "bob" (asked ∷ []) asked asked-IsSound (inl refl)
      refl refl
