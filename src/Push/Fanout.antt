-- ===== src/Push/Fanout.antt =====
-- Which sessions the fan-out policies select.
use my_chat.Prelude.{
  String, ◌≡◌, refl, sym, ap, subst, inl, inr, Bool, true, false, List, [], ◌∷◌, map, arith, IsIn,
  IsIn-map, IsIn-map_inv, IsIn-select, IsIn-select_of, string_comparable, ==_iff, if◌then◌else◌,
  Bool-cases, select, ◌↔◌, ◌≢◌,
}
use my_chat.Prelude.Int.{ltz, ltz_asym, ltz_trans, ltz_irrefl}
use my_chat.Push.{
  PushSessionInfo, newest_session, platform_filter, is_allowed, filtered_ids, newest, newest_ids,
  select_sessions,
}

-- None of the sessions is newer than `best`.
abbrev pub IsNewest : PushSessionInfo → List PushSessionInfo → Type 0
IsNewest best ss = (s : PushSessionInfo) → IsIn s ss → ltz best.connect_time s.connect_time ≡ false

abbrev IsBest : PushSessionInfo → PushSessionInfo → List PushSessionInfo → Type 0
IsBest r best ss =
    IsIn r (best ∷ ss) × (ltz r.connect_time best.connect_time ≡ false) × IsNewest r ss

not_newer :
    (r s : PushSessionInfo) (ss : List PushSessionInfo)
    → ltz r.connect_time s.connect_time ≡ false
    → IsNewest r ss
    → IsNewest r (s ∷ ss)
not_newer r s ss h rest x (inl same) =
    subst (λ (y : PushSessionInfo). ltz r.connect_time y.connect_time ≡ false) (sym same) h
not_newer r s ss h rest x (inr deeper) = rest x deeper

skip_second :
    (r best s : PushSessionInfo) (ss : List PushSessionInfo)
    → IsIn r (best ∷ ss)
    → IsIn r (best ∷ s ∷ ss)
skip_second r best s ss (inl e) = inl e
skip_second r best s ss (inr m) = inr (inr m)

newest-IsBest :
    (best : PushSessionInfo) (ss : List PushSessionInfo) → IsBest (newest best ss) best ss
unfolding newest
newest-IsBest best [] = (inl refl, ltz_irrefl best.connect_time, λ s m. absurd m)
newest-IsBest best (s ∷ ss) = elim (Bool-cases (ltz best.connect_time s.connect_time)) [
  | inl later ↦
      let (here, from, rest) = newest-IsBest s ss in
      let r = newest s ss in
      let step : newest best (s ∷ ss) ≡ newest s ss =
        ap (λ (b : Bool). newest (if b then s else best) ss) later in
      subst (λ t. IsBest t best (s ∷ ss)) (sym step)
        (
          inr here,
          ltz_trans best.connect_time s.connect_time r.connect_time
              (ltz_asym best.connect_time s.connect_time later) from,
          not_newer r s ss from rest,
        )
  | inr older ↦
      let (here, from, rest) = newest-IsBest best ss in
      let r = newest best ss in
      let step : newest best (s ∷ ss) ≡ newest best ss =
        ap (λ (b : Bool). newest (if b then s else best) ss) older in
      subst (λ t. IsBest t best (s ∷ ss)) (sym step)
        (
          skip_second r best s ss here,
          from,
          not_newer r s ss (ltz_trans s.connect_time best.connect_time r.connect_time older from)
              rest,
        )
]

-- NewestSessionFanoutPolicy selects one session of a user who has any, and none of the others
-- connected later than it.
pub select_sessions-IsNewest :
    (ss : List PushSessionInfo)
    → ss ≢ []
    → (best : PushSessionInfo) × IsIn best ss
      × (select_sessions newest_session ss ≡ best.session_id ∷ [])
      × IsNewest best ss
unfolding select_sessions newest_ids
select_sessions-IsNewest [] some_session = absurd (some_session refl)
select_sessions-IsNewest (s ∷ ss) some_session =
    let (here, from, rest) = newest-IsBest s ss in
    (newest s ss, here, refl, not_newer (newest s ss) s ss from rest)

is_allowed_iff :
    (platform : String) (ps : List String) → (is_allowed platform ps ≡ true) ↔ IsIn platform ps
unfolding is_allowed
is_allowed_iff platform [] = (λ e. cc, λ m. absurd m)
is_allowed_iff platform (p ∷ ps) = ground (arith, ==_iff platform p, is_allowed_iff platform ps)

allowed_ids :
    (ps : List String) (ss : List PushSessionInfo)
    → filtered_ids ps ss
      ≡ map
          (λ (s : PushSessionInfo). s.session_id)
          (select (λ (s : PushSessionInfo). is_allowed s.platform ps) ss)
unfolding filtered_ids select
allowed_ids ps [] = refl
allowed_ids ps (s ∷ ss) = elim (Bool-cases (is_allowed s.platform ps)) [
  | inl e ↦ rw e (ap (λ ids. s.session_id ∷ ids) (allowed_ids ps ss))
  | inr e ↦ rw e (allowed_ids ps ss)
]

-- PlatformFilterFanoutPolicy selects exactly the sessions on an allowed platform.
pub select_sessions-platform_filter :
    (ps : List String) (ss : List PushSessionInfo) (id : String)
    → IsIn id (select_sessions (platform_filter ps) ss)
      ↔ ((s : PushSessionInfo) × IsIn s ss × IsIn s.platform ps × (id ≡ s.session_id))
unfolding select_sessions
select_sessions-platform_filter ps ss id = (
  λ m.
      let (s, here, e) =
        IsIn-map_inv (λ (s : PushSessionInfo). s.session_id) id _
          (subst (IsIn id) (allowed_ids ps ss) m) in
      let (known, allowed) = IsIn-select _ s ss here in
      (s, known, (is_allowed_iff s.platform ps).0 allowed, e),
  λ (s, known, listed, e). subst (IsIn id) (sym (allowed_ids ps ss)) (
      subst
        (λ i. IsIn i (
          map (λ (s : PushSessionInfo). s.session_id)
            (select (λ (s : PushSessionInfo). is_allowed s.platform ps) ss)))
        (sym e)
        (IsIn-map (λ (s : PushSessionInfo). s.session_id) s _
          (IsIn-select_of _ s ss known ((is_allowed_iff s.platform ps).1 listed)))),
)
