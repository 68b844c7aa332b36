-- ===== src/Router/Requests.antt =====
-- route_request of router.mgr.cpp: the two routers together.
use my_chat.Prelude.{◌≡◌, ◌⊎◌, inl, inr, true, false, arith, Bool-cases, string_comparable}
use my_chat.Router.{CompleteRouteResult, RouterManager, no_complete_route, route_request}
use my_chat.Router.Http.{Bytes, HttpRouter, parse_route}
use my_chat.Router.Service.{find_service}

-- 404: there is no HTTP route. 503: there is one, but not its service. 200: there are both.
abbrev pub Routed : RouterManager → Bytes → CompleteRouteResult → Type 0
Routed m path result =
    let http = parse_route path m.http_router in
    let found = find_service http.service_name m.service_router in
    ((result ≡ no_complete_route 404) × (http.is_valid ≡ false))
    ⊎ (((result ≡ no_complete_route 503) × (http.is_valid ≡ true) × (found.is_valid ≡ false))
        ⊎ ((result.http_status_code ≡ 200)
            × (result.is_valid ≡ true)
            × (http.is_valid ≡ true)
            × (found.is_valid ≡ true)
            × (result.cmd_id ≡ http.cmd_id)
            × (result.service_name ≡ http.service_name)
            × (result.endpoint ≡ found.endpoint)))

parse_route_status :
    (path : Bytes) (r : HttpRouter)
    → (parse_route path r).is_valid ≡ false
    → (parse_route path r).status_code ≡ 404
unfolding parse_route
parse_route_status path r h = ground arith

-- route_request answers with 404 and no route if the path has no HTTP route, with 503 if it has one
-- whose service is not found, and otherwise with 200, the command of the route and the endpoint of
-- its service.
pub route_request-Routed : (path : Bytes) (m : RouterManager) → Routed m path (route_request path m)
unfolding route_request
route_request-Routed path m = elim (Bool-cases (parse_route path m.http_router).is_valid) [
  | inr e ↦ inl (ground (arith, e, parse_route_status path m.http_router e), e)
  | inl e ↦
      elim (Bool-cases
        (find_service (parse_route path m.http_router).service_name m.service_router).is_valid) [
          | inr f ↦ inr (inl (ground (arith, e, f), e, f))
          | inl f ↦ inr (
              inr (
                ground (arith, e, f),
                ground (arith, e, f),
                e,
                f,
                ground (arith, e, f),
                ground (arith, e, f),
                ground (arith, e, f),
              ))
        ]
]
