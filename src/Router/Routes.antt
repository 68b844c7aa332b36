-- ===== src/Router/Routes.antt =====
-- What HttpRouter finds after its configuration has been loaded, and loaded again.
use my_chat.Prelude.{
  ◌≡◌, ◌∙◌, refl, ap, inl, inr, true, ◌||◌, Option, none, some, List, [], ◌∷◌, ◌++◌, nat_comparable,
  string_comparable, bytes_comparable, ◌==◌, if◌then◌else◌, arith, Option-cases,
}
use my_chat.Prelude.Tables.{lookup, or_else, lookup-emplace}
use my_chat.Router.Http.{
  Bytes, HttpRouteResult, HttpRouter, RouteItem, empty_route, malformed_route, route, http_route,
  no_http_route, prefix_mismatch, route_not_found, strip_prefix, with_slash, parse_route, add_route,
  load_routes, load_config,
}

-- The first complete item of a path that is read before the reading fails.
pub first_route : Bytes → List RouteItem → Option HttpRouteResult
first_route p [] = none
first_route p (empty_route ∷ items) = first_route p items
first_route p (malformed_route ∷ items) = none
first_route p (route path id service ∷ items) =
    let later = first_route p items in
    if (path == []) || ((id == 0) || (service == ""))
    then later
    else if path == p
    then some (http_route id service)
    else later

or_else-none : (a : Option HttpRouteResult) → a ≡ or_else a none
or_else-none none = refl
or_else-none (some x) = refl

-- Loading adds the first item of each path that has no route yet.
pub load_routes-lookup :
    (p : Bytes) (items : List RouteItem) (r : HttpRouter)
    → lookup p (load_routes items r).1.routes ≡ or_else (lookup p r.routes) (first_route p items)
unfolding load_routes first_route add_route
load_routes-lookup p [] r = or_else-none (lookup p r.routes)
load_routes-lookup p (empty_route ∷ items) r = load_routes-lookup p items r
load_routes-lookup p (malformed_route ∷ items) r = or_else-none (lookup p r.routes)
load_routes-lookup p (route path id service ∷ items) r = ground (
  arith,
  load_routes-lookup p items (add_route path id service r),
  lookup-emplace p path (http_route id service) r.routes,
)

load_routes-api_prefix :
    (items : List RouteItem) (r : HttpRouter) → (load_routes items r).1.api_prefix ≡ r.api_prefix
unfolding load_routes add_route
load_routes-api_prefix [] r = refl
load_routes-api_prefix (empty_route ∷ items) r = load_routes-api_prefix items r
load_routes-api_prefix (malformed_route ∷ items) r = refl
load_routes-api_prefix (route path id service ∷ items) r =
    ground (arith, load_routes-api_prefix items (add_route path id service r))

strip_prefix-append : (xs ys : Bytes) → strip_prefix xs (xs ++ ys) ≡ some ys
unfolding strip_prefix
strip_prefix-append [] ys = refl
strip_prefix-append (x ∷ xs) ys = ground (arith, strip_prefix-append xs ys)

strip_prefix-some : (xs path rest : Bytes) → strip_prefix xs path ≡ some rest → path ≡ xs ++ rest
unfolding strip_prefix
strip_prefix-some [] path rest h = ground arith
strip_prefix-some (x ∷ xs) [] rest h = cc
strip_prefix-some (x ∷ xs) (c ∷ path) rest h = ground (arith, strip_prefix-some xs path rest)

-- What a router without routes answers once a configuration has been loaded.
pub answer : Bytes → List RouteItem → HttpRouteResult
answer rest items = elim (first_route (with_slash rest) items) [
  | none ↦ no_http_route route_not_found
  | some r ↦ http_route r.cmd_id r.service_name
]

abbrev pub no_routes : HttpRouter
no_routes = record { api_prefix = []; routes = [] }

parse_route-strip :
    (rest : Bytes) (r : HttpRouter) (path : Bytes)
    → strip_prefix r.api_prefix path ≡ some rest
    → parse_route path r ≡ (elim (lookup (with_slash rest) r.routes) [
      | none ↦ no_http_route route_not_found
      | some found ↦ http_route found.cmd_id found.service_name
    ])
unfolding parse_route
parse_route-strip rest r path e = ground (arith, e)

mismatch :
    (path : Bytes) (s : HttpRouter)
    → strip_prefix s.api_prefix path ≡ none
    → parse_route path s ≡ no_http_route prefix_mismatch
unfolding parse_route
mismatch path s e = ground (arith, e)

-- After the first load, a path that begins with the prefix is answered by the first complete item for
-- the rest of the path, with a "/" in front of it if it has none, and by 404 if there is no such
-- item; any other path is answered by 404.
pub load_config-parse_route :
    (prefix : Bytes) (items : List RouteItem)
    → ((rest : Bytes)
        → parse_route (prefix ++ rest) (load_config (some (prefix, items)) no_routes).1
          ≡ answer rest items)
      × ((path : Bytes)
          → ¬ ((rest : Bytes) × (path ≡ prefix ++ rest))
          → parse_route path (load_config (some (prefix, items)) no_routes).1
            ≡ no_http_route prefix_mismatch)
unfolding load_config answer lookup
load_config-parse_route prefix items =
    let r : HttpRouter = record no_routes { api_prefix = prefix } in
    let loaded = (load_routes items r).1 in
    let kept = load_routes-api_prefix items r in
    (
      λ rest.
          parse_route-strip rest loaded (prefix ++ rest)
            (ap (λ p. strip_prefix p (prefix ++ rest)) kept ∙ strip_prefix-append prefix rest)
          ∙ ground (arith, load_routes-lookup (with_slash rest) items r),
      λ path other. elim (Option-cases (strip_prefix prefix path)) [
        | inl e ↦ mismatch path loaded (ap (λ p. strip_prefix p path) kept ∙ e)
        | inr (rest, e) ↦ absurd (other (rest, strip_prefix-some prefix path rest e))
      ],
    )

-- Loading again never changes the answer to a path that has a route, whatever the file says about
-- it now; only the prefix is replaced.
pub load_config-keeps :
    (prefix rest : Bytes) (items : List RouteItem) (r : HttpRouter)
    → (parse_route (r.api_prefix ++ rest) r).is_valid ≡ true
    → parse_route (prefix ++ rest) (load_config (some (prefix, items)) r).1
      ≡ parse_route (r.api_prefix ++ rest) r
unfolding load_config
load_config-keeps prefix rest items r valid =
    let s : HttpRouter = record r { api_prefix = prefix } in
    let before =
      parse_route-strip rest r (r.api_prefix ++ rest) (strip_prefix-append r.api_prefix rest) in
    parse_route-strip rest (load_routes items s).1 (prefix ++ rest) (
      ap (λ p. strip_prefix p (prefix ++ rest)) (load_routes-api_prefix items s)
      ∙ strip_prefix-append prefix rest)
    ∙ ground (arith, before, valid, load_routes-lookup (with_slash rest) items s)
