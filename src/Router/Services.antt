-- ===== src/Router/Services.antt =====
-- What ServiceRouter finds for a command after any loads of its configuration.
use my_chat.Prelude.{
  ℕ, ◌≡◌, ◌≢◌, ◌∙◌, refl, sym, ap, ◌⊎◌, inl, inr, ◌↔◌, true, false, ◌||◌, Option, none, some, List,
  [], ◌∷◌, ◌++◌, String, nat_comparable, string_comparable, ◌==◌, ==_iff, has_value, arith,
  Option-cases, subst, IsIn, IsIn-append_cases, if_cases,
}
use my_chat.Prelude.Tables.{lookup, emplace, lookup-emplace}
use my_chat.Router.Service.{
  ServiceRouteResult, ServiceRouter, ServiceItem, empty_service, malformed_service, service,
  service_route, no_service_route, command_not_found, CmdRange, items, range_comparable, covers,
  read_cmd_range, add_service, load_services, load_config, find_service, find_range,
  find_service_of_cmd,
}

-- A range in the table belongs to a named service that is there.
abbrev pub Served : ServiceRouter → Type 0
Served r =
    (range : CmdRange) (name : String)
    → IsIn (range, name) r.cmds
    → (name ≢ "") × (has_value (lookup name r.services) ≡ true)

emplace_cases :
    (k : CmdRange) (v : String) (m : List (CmdRange × String))
    → (emplace k v m ≡ m) ⊎ (emplace k v m ≡ m ++ (k, v) ∷ [])
unfolding emplace
emplace_cases k v m = ground arith

emplace-has_value :
    (n k : String) (v : ServiceRouteResult) (m : List (String × ServiceRouteResult))
    → has_value (lookup n m) ≡ true
    → has_value (lookup n (emplace k v m)) ≡ true
emplace-has_value n k v m h = ground (arith, lookup-emplace n k v m)

emplace-has_value_self :
    (k : String) (v : ServiceRouteResult) (m : List (String × ServiceRouteResult))
    → has_value (lookup k (emplace k v m)) ≡ true
emplace-has_value_self k v m = ground (arith, lookup-emplace k k v m, ==_iff k k)

add_service-Served :
    (name endpoint : String) (timeout max_conn : ℕ) (range : CmdRange) (r : ServiceRouter)
    → Served r
    → Served (add_service name endpoint timeout max_conn range r)
unfolding add_service
add_service-Served name endpoint timeout max_conn range r h =
    if_cases Served ((name == "") || (endpoint == "")) (λ _. h)
      (λ named range' n m.
        let s = service_route name endpoint timeout max_conn in
        let old : IsIn (range', n) r.cmds
            → (n ≢ "") × (has_value (lookup n (emplace name s r.services)) ≡ true) =
          λ m'. ((h range' n m').0, emplace-has_value n name s r.services (h range' n m').1) in
        elim (emplace_cases range name r.cmds) [
          | inl same ↦ old (subst (IsIn (range', n)) same m)
          | inr more ↦
              elim (IsIn-append_cases (range', n) r.cmds ((range, name) ∷ [])
                (subst (IsIn (range', n)) more m)) [
                  | inl m' ↦ old m'
                  | inr (inl e) ↦
                      let is : n ≡ name = ap (λ (p : CmdRange × String). p.1) e in
                      subst
                        (λ k. (k ≢ "") × (has_value (lookup k (emplace name s r.services)) ≡ true))
                        (sym is)
                        (
                          ground (arith, named, ==_iff name ""),
                          emplace-has_value_self name s r.services,
                        )
                  | inr (inr e) ↦ absurd e
                ]
        ])

load_services-Served :
    (services : List ServiceItem) (r : ServiceRouter)
    → Served r
    → Served (load_services services r).1
unfolding load_services
load_services-Served [] r h = h
load_services-Served (empty_service ∷ rest) r h = load_services-Served rest r h
load_services-Served (malformed_service ∷ rest) r h = h
load_services-Served (service name endpoint timeout max_conn json ∷ rest) r h =
    elim (Option-cases (read_cmd_range json)) [
      | inl e ↦ rw (e, load_services) h
      | inr (range, e) ↦
          rw (e, load_services)
            (load_services-Served rest (add_service name endpoint timeout max_conn range r)
              (add_service-Served name endpoint timeout max_conn range r h))
    ]

abbrev pub no_services : ServiceRouter
no_services = record { services = []; cmds = [] }

-- Every load of the configuration, from the first on.
unfoldable pub load_all : List (Option (List ServiceItem)) → ServiceRouter → ServiceRouter
load_all [] r = r
load_all (config ∷ configs) r = load_all configs (load_config config r).1

load_all-Served :
    (configs : List (Option (List ServiceItem))) (r : ServiceRouter)
    → Served r
    → Served (load_all configs r)
unfolding load_all load_config
load_all-Served [] r h = h
load_all-Served (none ∷ configs) r h = load_all-Served configs r h
load_all-Served (some services ∷ configs) r h =
    load_all-Served configs (load_services services r).1 (load_services-Served services r h)

-- The entry of the table in whose range the command lies.
abbrev pub Covering : ℕ → List (CmdRange × String) → String → Type 0
Covering cmd entries name =
    (range : CmdRange) × IsIn (range, name) entries × (covers range cmd ≡ true)

abbrev Found : ℕ → List (CmdRange × String) → String → Type 0
Found cmd entries n =
    Covering cmd entries n ⊎ ((n ≡ "") × ((name : String) → ¬ Covering cmd entries name))

find_range_cases :
    (cmd : ℕ) (entries : List (CmdRange × String)) → Found cmd entries (find_range cmd entries)
unfolding find_range
find_range_cases cmd [] = inr (refl, λ name (range, m, _). m)
find_range_cases cmd ((range, name) ∷ rest) =
    if_cases (Found cmd ((range, name) ∷ rest)) (covers range cmd) (λ e. inl (range, inl refl, e))
      (λ e. elim (find_range_cases cmd rest) [
        | inl (range', m, c) ↦ inl (range', inr m, c)
        | inr (nothing, absent) ↦ inr (nothing, λ n h. passed n h e (absent n))
      ])
  where
    passed :
        (n : String)
        → Covering cmd ((range, name) ∷ rest) n
        → covers range cmd ≡ false
        → ¬ Covering cmd rest n
        → ⊥
    passed n (range', inl m, c) e absent =
        let same : covers range cmd ≡ true =
          subst (λ (r : CmdRange). covers r cmd ≡ true) (ap (λ (p : CmdRange × String). p.0) m) c in
        cc (same, e)
    passed n (range', inr m, c) e absent = absent (range', m, c)

module _ (order : List (CmdRange × String) → List (CmdRange × String))
    (order_iff : (x : CmdRange × String) (entries : List (CmdRange × String))
      → IsIn x (order entries) ↔ IsIn x entries) where
  uncovered :
      (cmd : ℕ) (r : ServiceRouter)
      → find_range cmd (order r.cmds) ≡ ""
      → find_service_of_cmd order cmd r ≡ (no_service_route (some command_not_found), r)
  unfolding find_service_of_cmd
  uncovered cmd r e = ground (arith, e, ==_iff (find_range cmd (order r.cmds)) "")

  covered :
      (cmd : ℕ) (r : ServiceRouter)
      → find_range cmd (order r.cmds) ≢ ""
      → has_value (lookup (find_range cmd (order r.cmds)) r.services) ≡ true
      → (find_service_of_cmd order cmd r ≡ (find_service (find_range cmd (order r.cmds)) r, r))
        × ((find_service (find_range cmd (order r.cmds)) r).is_valid ≡ true)
  unfolding find_service_of_cmd find_service
  covered cmd r named there = ground (arith, ==_iff (find_range cmd (order r.cmds)) "")

  -- No range holds the command, or one does, and the answer is that of its service.
  abbrev pub Answers : ℕ → ServiceRouter → ServiceRouteResult → Type 0
  Answers cmd r found =
      ((found ≡ no_service_route (some command_not_found))
        × ((name : String) → ¬ Covering cmd r.cmds name))
      ⊎ ((name : String) × Covering cmd r.cmds name
          × (found ≡ find_service name r)
          × (found.is_valid ≡ true))

  -- After any loads, a command is answered by a service whose range holds it, as find_service gives
  -- it under its name, and this answer is valid; a command that no range holds is answered by
  -- "command not found". The table of services stays as it is.
  pub find_service_of_cmd-Answers :
      (cmd : ℕ) (configs : List (Option (List ServiceItem)))
      → ((find_service_of_cmd order cmd (load_all configs no_services)).1
          ≡ load_all configs no_services)
        × Answers cmd
            (load_all configs no_services)
            (find_service_of_cmd order cmd (load_all configs no_services)).0
  find_service_of_cmd-Answers cmd configs =
      let r = load_all configs no_services in
      let served = load_all-Served configs no_services (λ range name m. absurd m) in
      elim (find_range_cases cmd (order r.cmds)) [
        | inr (nothing, absent) ↦
            let e = uncovered cmd r nothing in
            (
              ap (λ p. p.1) e,
              inl (
                ap (λ p. p.0) e,
                λ name (range, m, c). absent name (range, (order_iff (range, name) r.cmds).1 m, c),
              ),
            )
        | inl (range, m, c) ↦
            let name = find_range cmd (order r.cmds) in
            let m' = (order_iff (range, name) r.cmds).0 m in
            let (named, there) = served range name m' in
            let (e, valid) = covered cmd r named there in
            (
              ap (λ p. p.1) e,
              inr (
                name,
                (range, m', c),
                ap (λ p. p.0) e,
                ap (λ (p : ServiceRouteResult × ServiceRouter). p.0.is_valid) e ∙ valid,
              ),
            )
      ]

-- A service without a cmd_range ends the loading, although every other field has a default: it and
-- the services behind it are not added, and load_config fails.
pub load_services_no_range :
    (before after : List ServiceItem) (name endpoint : String) (timeout max_conn : ℕ)
    (r : ServiceRouter)
    → (load_services before r).0 ≡ true
    → load_services (before ++ service name endpoint timeout max_conn (items []) ∷ after) r
      ≡ (false, (load_services before r).1)
unfolding load_services read_cmd_range
load_services_no_range [] after name endpoint timeout max_conn r h = refl
load_services_no_range (empty_service ∷ before) after name endpoint timeout max_conn r h =
    load_services_no_range before after name endpoint timeout max_conn r h
load_services_no_range (malformed_service ∷ before) after name endpoint timeout max_conn r h = cc
load_services_no_range (service n e t m json ∷ before) after name endpoint timeout max_conn r h =
    elim (Option-cases (read_cmd_range json)) [
      | inl bad ↦ ground (arith, bad, h)
      | inr (range, good) ↦ ground (
        arith,
        good,
        load_services_no_range before after name endpoint timeout max_conn
            (add_service n e t m range r),
      )
    ]
