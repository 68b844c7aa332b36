-- ===== src/Push/Delivery.antt =====
-- When PushRuntime::notify_user sends and when it marks a message delivered.
use mathlib.Core.List.{append-nil, append_assoc}
use my_chat.Prelude.{
  ℕ, suc, ◌+◌, ◌<◌, String, ◌≡◌, ◌∙◌, refl, sym, ap, inl, inr, ◌↔◌, true, false, List, [], ◌∷◌,
  ◌++◌, arith, IsIn, IsIn-append_left, IsIn-append_right, nat_comparable, ◌==◌, ltb, or_empty, ◌&&◌,
  if◌then◌else◌, Bool-cases, Option-cases, length,
}
use my_chat.Push.{
  FanoutPolicy, all_sessions, newest_session, platform_filter, all_ids, filtered_ids, newest_ids,
  PushPayloadSender, PushRuntime, accepted, declined, threw, is_accepted, Event, sent, marked,
  send_all, push_to, select_sessions, notify_user,
}

-- The attempts for a list of sessions, one each, in their order, after `log`.
pub attempts : PushPayloadSender → List String → List Event → List Event
attempts sender [] log = []
attempts sender (id ∷ ids) log =
    sent id (sender log id) ∷ attempts sender ids (log ++ sent id (sender log id) ∷ [])

pub accepted_count : List Event → ℕ
accepted_count [] = 0
accepted_count (sent id attempt ∷ es) =
    let rest = accepted_count es in if is_accepted attempt then suc rest else rest
accepted_count (marked id ∷ es) = accepted_count es

add_zero : (n : ℕ) → n + 0 ≡ n
add_zero n = omega arith

add_suc : (n m : ℕ) → n + 1 + m ≡ n + suc m
add_suc n m = omega arith

send_all-attempts :
    (sender : PushPayloadSender) (ids : List String) (log : List Event) (n : ℕ)
    → send_all sender ids log n
      ≡ (log ++ attempts sender ids log, n + accepted_count (attempts sender ids log))
unfolding send_all attempts accepted_count
send_all-attempts sender [] log n = rw (append-nil log, add_zero n) refl
send_all-attempts sender (id ∷ ids) log n =
    let event = sent id (sender log id) in
    let log' = log ++ event ∷ [] in
    let after = attempts sender ids log' in
    elim (Bool-cases (is_accepted (sender log id))) [
      | inl e ↦ rw e (
          send_all-attempts sender ids log' (n + 1)
          ∙ rw (append_assoc log (event ∷ []) after)
              (ap (λ k. (log ++ event ∷ after, k)) (add_suc n (accepted_count after))))
      | inr e ↦
          rw e (send_all-attempts sender ids log' n ∙ rw (append_assoc log (event ∷ []) after) refl)
    ]

push_to-attempts :
    (sender : PushPayloadSender) (ids : List String) (msg_id : ℕ)
    → push_to sender ids msg_id ≡ (
        let es = attempts sender ids [] in
        if ltb 0 (accepted_count es) then es ++ marked msg_id ∷ [] else es)
unfolding push_to
push_to-attempts sender ids msg_id =
    rw (send_all-attempts sender ids [] 0, zero_add (accepted_count (attempts sender ids []))) refl
  where
    zero_add : (n : ℕ) → 0 + n ≡ n
    zero_add n = omega arith

-- An accepted attempt is counted.
counted : (es : List Event) (id : String) → IsIn (sent id accepted) es → 0 < accepted_count es
unfolding accepted_count
counted [] id m = absurd m
counted (sent i attempt ∷ es) id (inl e) =
    let same : attempt ≡ accepted = cc in rw same (omega arith)
counted (marked k ∷ es) id (inl e) = absurd (cc e)
counted (sent i accepted ∷ es) id (inr m) = omega arith
counted (sent i declined ∷ es) id (inr m) = counted es id m
counted (sent i threw ∷ es) id (inr m) = counted es id m
counted (marked k ∷ es) id (inr m) = counted es id m

found : (es : List Event) → 0 < accepted_count es → (id : String) × IsIn (sent id accepted) es
unfolding accepted_count
found [] h = absurd (omega arith)
found (sent i accepted ∷ es) h = (i, inl refl)
found (sent i declined ∷ es) h = let (id, m) = found es h in (id, inr m)
found (sent i threw ∷ es) h = let (id, m) = found es h in (id, inr m)
found (marked k ∷ es) h = let (id, m) = found es h in (id, inr m)

unmarked :
    (sender : PushPayloadSender) (ids : List String) (log : List Event) (k : ℕ)
    → ¬ IsIn (marked k) (attempts sender ids log)
unfolding attempts
unmarked sender [] log k m = m
unmarked sender (id ∷ ids) log k (inl e) = cc e
unmarked sender (id ∷ ids) log k (inr m) = unmarked sender ids _ k m

-- The sessions that a push is meant for, by an independent description.
abbrev pub targets : PushRuntime → List String
targets runtime =
    if runtime.is_wired && runtime.has_payload
    then select_sessions runtime.policy (or_empty runtime.sessions)
    else []

selected_none : (policy : FanoutPolicy) → select_sessions policy [] ≡ []
unfolding select_sessions all_ids filtered_ids newest_ids
selected_none all_sessions = refl
selected_none newest_session = refl
selected_none (platform_filter ps) = refl

abbrev pub outcome : List Event → ℕ → List Event
outcome es msg_id = if ltb 0 (accepted_count es) then es ++ marked msg_id ∷ [] else es

empty_list : {A : Type 0} (xs : List A) → (length xs == 0) ≡ true → xs ≡ []
empty_list [] e = refl
empty_list (x ∷ xs) e = ground arith

nothing_pushed :
    (sender : PushPayloadSender) (msg_id : ℕ) → outcome (attempts sender [] []) msg_id ≡ []
unfolding attempts accepted_count
nothing_pushed sender msg_id = refl

idle :
    (runtime : PushRuntime) (msg_id : ℕ)
    → targets runtime ≡ []
    → outcome (attempts runtime.sender (targets runtime) []) msg_id ≡ []
idle runtime msg_id e =
    ap (λ ids. outcome (attempts runtime.sender ids []) msg_id) e
    ∙ nothing_pushed runtime.sender msg_id

unselected :
    (runtime : PushRuntime)
    → select_sessions runtime.policy (or_empty runtime.sessions) ≡ []
    → targets runtime ≡ []
unselected runtime e = elim (Bool-cases (runtime.is_wired && runtime.has_payload)) [
  | inl able ↦ rw able e
  | inr unable ↦ rw unable refl
]

none_counted :
    (es : List Event) (id : String)
    → ltb 0 (accepted_count es) ≡ false
    → ¬ IsIn (sent id accepted) es
none_counted es id e m = absurd (ground (arith, counted es id m))

-- notify_user tries every target once and in order, whatever the answers to earlier ones were, and
-- afterwards marks the message delivered once if at least one session accepted it; it does nothing
-- else. The targets are the sessions that the policy selects of the receiver's, and none where a
-- part is not wired, the sessions cannot be read or the payload cannot be encoded.
pub notify_user-outcome :
    (runtime : PushRuntime) (msg_id : ℕ)
    → notify_user runtime msg_id ≡ outcome (attempts runtime.sender (targets runtime) []) msg_id
unfolding notify_user
notify_user-outcome runtime msg_id = elim (Bool-cases runtime.is_wired) [
  | inr e ↦ rw e refl ∙ sym (idle runtime msg_id (rw e refl))
  | inl wired ↦ elim (Option-cases runtime.sessions) [
    | inl e ↦
        rw (wired, e) refl
        ∙ sym (
            idle runtime msg_id (
              unselected runtime (
                ap (λ ss. select_sessions runtime.policy (or_empty ss)) e
                ∙ selected_none runtime.policy)))
    | inr (ss, e) ↦
        let known : select_sessions runtime.policy (or_empty runtime.sessions)
            ≡ select_sessions runtime.policy ss =
          ap (λ o. select_sessions runtime.policy (or_empty o)) e in
        elim (Bool-cases (length ss == 0)) [
          | inl none_there ↦
              rw (wired, e, none_there) refl
              ∙ sym (
                  idle runtime msg_id (
                    unselected runtime (
                      known
                      ∙ ap (select_sessions runtime.policy) (empty_list ss none_there)
                      ∙ selected_none runtime.policy)))
          | inr some_there ↦ elim (Bool-cases (length (select_sessions runtime.policy ss) == 0)) [
            | inl none_chosen ↦
                rw (wired, e, some_there, none_chosen) refl
                ∙ sym (
                    idle runtime msg_id (
                      unselected runtime
                        (known ∙ empty_list (select_sessions runtime.policy ss) none_chosen)))
            | inr some_chosen ↦ elim (Bool-cases runtime.has_payload) [
              | inr f ↦
                  rw (wired, e, some_there, some_chosen, f) refl
                  ∙ sym (idle runtime msg_id (rw (wired, f) refl))
              | inl f ↦
                  let chosen : targets runtime ≡ select_sessions runtime.policy ss =
                    rw (wired, f) known in
                  rw (wired, e, some_there, some_chosen, f) refl
                  ∙ push_to-attempts runtime.sender (select_sessions runtime.policy ss) msg_id
                  ∙ ap (λ ids. outcome (attempts runtime.sender ids []) msg_id) (sym chosen)
            ]
          ]
        ]
  ]
]

outcome-marked :
    (sender : PushPayloadSender) (ids : List String) (msg_id : ℕ)
    → IsIn (marked msg_id) (outcome (attempts sender ids []) msg_id)
      ↔ ((id : String) × IsIn (sent id accepted) (outcome (attempts sender ids []) msg_id))
outcome-marked sender ids msg_id =
    let es = attempts sender ids [] in
    elim (Bool-cases (ltb 0 (accepted_count es))) [
      | inl e ↦ rw e (
        λ m. let (id, here) = found es (ground arith) in (id, IsIn-append_left _ es _ here),
        λ h. IsIn-append_right (marked msg_id) es (marked msg_id ∷ []) (inl refl),
      )
      | inr e ↦ rw e (
        λ m. absurd (unmarked sender ids [] msg_id m),
        λ (id, m). absurd (none_counted es id e m),
      )
    ]

-- A message is marked delivered exactly if some session has accepted it.
pub notify_user-marked :
    (runtime : PushRuntime) (msg_id : ℕ)
    → IsIn (marked msg_id) (notify_user runtime msg_id)
      ↔ ((id : String) × IsIn (sent id accepted) (notify_user runtime msg_id))
notify_user-marked runtime msg_id =
    rw (notify_user-outcome runtime msg_id) (outcome-marked runtime.sender (targets runtime) msg_id)
