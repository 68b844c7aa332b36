-- ===== src/Router/Tests.antt =====
-- Routes and services at concrete inputs.
use my_chat.Prelude.{◌≡◌, ◌↔◌, refl, true, some, List, [], ◌∷◌, ◌++◌, String, IsIn}
use my_chat.Prelude.Tables.{lookup, emplace}
use my_chat.Router.Http.{
  Bytes, HttpRouter, RouteItem, empty_route, route, http_route, no_http_route, prefix_mismatch,
  strip_prefix, with_slash, parse_route, add_route, load_routes, load_config,
}
use my_chat.Router.Service.{ServiceItem, service, items, CmdRange, find_service_of_cmd}
use my_chat.Router.{RouterManager}
use my_chat.Router.Routes.{no_routes, answer, load_config-parse_route, load_config-keeps}
use my_chat.Router.Services.{no_services, load_all, Answers, find_service_of_cmd-Answers}

abbrev api : Bytes
api = 47 ∷ 97 ∷ []

abbrev login : Bytes
login = 47 ∷ 108 ∷ []

abbrev route_items : List RouteItem
route_items = route login 1001 "user" ∷ empty_route ∷ route login 7 "other" ∷ []

abbrev http : HttpRouter
http = record { api_prefix = api; routes = (login, http_route 1001 "user") ∷ [] }

loads_once : load_config (some (api, route_items)) no_routes ≡ (true, http)
unfolding load_config load_routes add_route emplace lookup
loads_once = refl

load_config-parse_route_example :
    ((rest : Bytes)
      → parse_route (api ++ rest) (load_config (some (api, route_items)) no_routes).1
        ≡ answer rest route_items)
    × ((path : Bytes)
        → ¬ ((rest : Bytes) × (path ≡ api ++ rest))
        → parse_route path (load_config (some (api, route_items)) no_routes).1
          ≡ no_http_route prefix_mismatch)
load_config-parse_route_example = load_config-parse_route api route_items

finds_login : (parse_route (api ++ login) http).is_valid ≡ true
unfolding parse_route strip_prefix with_slash lookup
finds_login = refl

load_config-keeps_example :
    parse_route (login ++ login) (load_config (some (login, route login 9 "new" ∷ [])) http).1
    ≡ parse_route (api ++ login) http
load_config-keeps_example =
    load_config-keeps login login (route login 9 "new" ∷ []) http finds_login

abbrev users : ServiceItem
users = service "user" "127.0.0.1:50051" 3000 10 (items (some 1000 ∷ some 1999 ∷ []))

same_order : List (CmdRange × String) → List (CmdRange × String)
same_order entries = entries

same_order_iff :
    (x : CmdRange × String) (entries : List (CmdRange × String))
    → IsIn x (same_order entries) ↔ IsIn x entries
unfolding same_order
same_order_iff x entries = (λ m. m, λ m. m)

find_service_of_cmd-Answers_example :
    ((find_service_of_cmd same_order 1001 (load_all (some (users ∷ []) ∷ []) no_services)).1
      ≡ load_all (some (users ∷ []) ∷ []) no_services)
    × Answers same_order same_order_iff 1001
        (load_all (some (users ∷ []) ∷ []) no_services)
        (find_service_of_cmd same_order 1001 (load_all (some (users ∷ []) ∷ []) no_services)).0
find_service_of_cmd-Answers_example =
    find_service_of_cmd-Answers same_order same_order_iff 1001 (some (users ∷ []) ∷ [])

abbrev manager : RouterManager
manager = record { http_router = http; service_router = no_services }
