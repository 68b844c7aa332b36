-- ===== src/Push.antt =====
-- services/push: which sessions of a user a message is pushed to (fanout_policy.cpp), and the push
-- itself (push_runtime.cpp).
pub mod Fanout
pub mod Delivery
pub mod Context
mod Tests
use my_chat.Prelude.{
  ℕ, suc, ◌+◌, String, Bool, true, false, not, Option, none, some, List, [], ◌∷◌, ◌++◌, map,
  string_comparable, nat_comparable, bytes_comparable, ◌==◌, ltb, if◌then◌else◌, length,
}
use my_chat.Prelude.Int.{ℤ, ltz}

pub record PushSessionInfo : Type 0 where
  pub session_id : String
  pub platform : String
  pub connect_time : ℤ

-- The three policies of the source; PlatformFilterFanoutPolicy keeps its allowed platforms.
pub data FanoutPolicy : Type 0 where
  all_sessions newest_session : FanoutPolicy
  platform_filter : List String → FanoutPolicy

unfoldable pub all_ids : List PushSessionInfo → List String
all_ids [] = []
all_ids (s ∷ ss) = s.session_id ∷ all_ids ss

-- The inner loop, which stops at the first platform that matches.
unfoldable pub is_allowed : String → List String → Bool
is_allowed platform [] = false
is_allowed platform (p ∷ ps) =
    let rest = is_allowed platform ps in if platform == p then true else rest

unfoldable pub filtered_ids : List String → List PushSessionInfo → List String
filtered_ids allowed [] = []
filtered_ids allowed (s ∷ ss) =
    let rest = filtered_ids allowed ss in
    if is_allowed s.platform allowed then s.session_id ∷ rest else rest

-- The loop over the sessions after the first, with the newest so far.
unfoldable pub newest : PushSessionInfo → List PushSessionInfo → PushSessionInfo
newest best [] = best
newest best (s ∷ ss) = newest (if ltz best.connect_time s.connect_time then s else best) ss

unfoldable pub newest_ids : List PushSessionInfo → List String
newest_ids [] = []
newest_ids (s ∷ ss) = (newest s ss).session_id ∷ []

unfoldable pub select_sessions : FanoutPolicy → List PushSessionInfo → List String
select_sessions all_sessions ss = all_ids ss
select_sessions (platform_filter allowed) ss = filtered_ids allowed ss
select_sessions newest_session ss = newest_ids ss

-- How a call of send_payload ends.
pub data Attempt : Type 0 where
  accepted declined threw : Attempt

abbrev pub is_accepted : Attempt → Bool
is_accepted accepted = true
is_accepted _ = false

-- What the runtime does, in order.
pub data Event : Type 0 where
  sent : String → Attempt → Event
  marked : ℕ → Event

-- The answer of send_payload to a session, which may depend on all that was done before.
abbrev pub PushPayloadSender : Type 0
PushPayloadSender = List Event → String → Attempt

unfoldable pub send_all : PushPayloadSender → List String → List Event → ℕ → List Event × ℕ
send_all sender [] log success_count = (log, success_count)
send_all sender (id ∷ ids) log success_count =
    let attempt = sender log id in
    send_all sender ids (log ++ sent id attempt ∷ [])
      (if is_accepted attempt then success_count + 1 else success_count)

-- What push_runtime.cpp is wired with: whether its four pointers are set, the sessions of the
-- receiver (`none` is an exception) and whether the payload could be encoded.
pub record PushRuntime : Type 0 where
  pub is_wired : Bool
  pub sessions : Option (List PushSessionInfo)
  pub policy : FanoutPolicy
  pub sender : PushPayloadSender
  pub has_payload : Bool

unfoldable pub push_to : PushPayloadSender → List String → ℕ → List Event
push_to sender selected msg_id =
    let (log, success_count) = send_all sender selected [] 0 in
    if ltb 0 success_count then log ++ marked msg_id ∷ [] else log

unfoldable pub notify_user : PushRuntime → ℕ → List Event
notify_user runtime msg_id = if not runtime.is_wired then [] else elim runtime.sessions [
  | none ↦ []
  | some sessions ↦
      let selected = select_sessions runtime.policy sessions in
      if length sessions == 0
      then []
      else if length selected == 0
      then []
      else if not runtime.has_payload
      then []
      else push_to runtime.sender selected msg_id
]
