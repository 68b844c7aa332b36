-- ===== src/Push/Tests.antt =====
-- Pushes at concrete inputs.
use my_chat.Prelude.{
  ◌≡◌, refl, true, false, none, some, [], ◌∷◌, ◌++◌, string_comparable, ◌==◌, if◌then◌else◌,
}
use my_chat.Prelude.Int.{pos}
use my_chat.Push.{
  PushSessionInfo, PushRuntime, PushPayloadSender, accepted, declined, sent, marked, all_sessions,
  all_ids, select_sessions, send_all, push_to, notify_user,
}
use my_chat.Push.Delivery.{attempts, outcome, targets, notify_user-outcome}
use my_chat.Push.Context.{json_escape, read_text, has_raw_control, read_text-json_escape}

abbrev phone : PushSessionInfo
phone = record { session_id = "s1"; platform = "android"; connect_time = pos 5 }

abbrev laptop : PushSessionInfo
laptop = record { session_id = "s2"; platform = "web"; connect_time = pos 9 }

abbrev only_web : PushPayloadSender
only_web log id = if id == "s2" then accepted else declined

abbrev runtime : PushRuntime
runtime = record {
  is_wired = true;
  sessions = some (phone ∷ laptop ∷ []);
  policy = all_sessions;
  sender = only_web;
  has_payload = true;
}

pushed : notify_user runtime 3 ≡ sent "s1" declined ∷ sent "s2" accepted ∷ marked 3 ∷ []
unfolding notify_user select_sessions all_ids push_to send_all
pushed = refl

notify_user-outcome_example :
    notify_user runtime 3 ≡ outcome (attempts runtime.sender (targets runtime) []) 3
notify_user-outcome_example = notify_user-outcome runtime 3

read_text-json_escape_example :
    read_text false (json_escape (34 ∷ 104 ∷ 10 ∷ []) ++ 34 ∷ 44 ∷ [])
    ≡ (if has_raw_control (34 ∷ 104 ∷ 10 ∷ []) then none else some (34 ∷ 104 ∷ 10 ∷ [], 44 ∷ []))
read_text-json_escape_example = read_text-json_escape (34 ∷ 104 ∷ 10 ∷ []) (44 ∷ [])

-- The control character 1 stays as it is, and a reader refuses it.
control_refused : read_text false (json_escape (104 ∷ 1 ∷ []) ++ 34 ∷ []) ≡ none
unfolding has_raw_control
control_refused = read_text-json_escape (104 ∷ 1 ∷ []) []
