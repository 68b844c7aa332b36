-- ===== src/Router/Http.antt =====
-- HttpRouter of gateway/router/router.mgr.cpp and router_mgr.hpp. What ConfigManager and the JSON
-- library read from the file is an argument: the items of the array, as the calls of `value` give
-- them.
use my_chat.Prelude.{
  ℕ, Bool, true, false, ◌||◌, Option, none, some, List, [], ◌∷◌, String, nat_comparable,
  string_comparable, bytes_comparable, ◌==◌, if◌then◌else◌,
}
use my_chat.Prelude.Tables.{lookup, emplace}

abbrev pub Bytes : Type 0
Bytes = List ℕ

pub data HttpRouteError : Type 0 where
  prefix_mismatch route_not_found : HttpRouteError

pub record HttpRouteResult : Type 0 where
  pub cmd_id : ℕ
  pub service_name : String
  pub is_valid : Bool
  pub error : Option HttpRouteError
  pub status_code : ℕ

-- The constructors with arguments of HttpRouteResult, and without.
abbrev pub http_route : ℕ → String → HttpRouteResult
http_route id service = record {
  cmd_id = id;
  service_name = service;
  is_valid = true;
  error = none;
  status_code = 200;
}

abbrev pub no_http_route : HttpRouteError → HttpRouteResult
no_http_route e = record {
  cmd_id = 0;
  service_name = "";
  is_valid = false;
  error = some e;
  status_code = 404;
}

pub record HttpRouter : Type 0 where
  pub api_prefix : Bytes
  pub routes : List (Bytes × HttpRouteResult)

-- An item of http_router.routes: an empty one, one whose reading throws, and one with its values or
-- their defaults.
pub data RouteItem : Type 0 where
  empty_route malformed_route : RouteItem
  route : Bytes → ℕ → String → RouteItem

-- `path.starts_with(prefix)`, with the rest.
unfoldable pub strip_prefix : Bytes → Bytes → Option Bytes
strip_prefix [] path = some path
strip_prefix (p ∷ prefix) [] = none
strip_prefix (p ∷ prefix) (c ∷ path) =
    let rest = strip_prefix prefix path in if p == c then rest else none

-- The rest of the path begins with "/".
unfoldable pub with_slash : Bytes → Bytes
with_slash [] = 47 ∷ []
with_slash (c ∷ path) = if c == 47 then c ∷ path else 47 ∷ c ∷ path

-- The method is not looked at.
unfoldable pub parse_route : Bytes → HttpRouter → HttpRouteResult
parse_route path r = elim (strip_prefix r.api_prefix path) [
  | none ↦ no_http_route prefix_mismatch
  | some rest ↦ elim (lookup (with_slash rest) r.routes) [
    | none ↦ no_http_route route_not_found
    | some found ↦ http_route found.cmd_id found.service_name
  ]
]

-- An item without a path, a command or a service is skipped.
unfoldable pub add_route : Bytes → ℕ → String → HttpRouter → HttpRouter
add_route path id service r =
    if (path == []) || ((id == 0) || (service == ""))
    then r
    else record r { routes = emplace path (http_route id service) r.routes }

-- The loop of load_config, which an exception ends.
unfoldable pub load_routes : List RouteItem → HttpRouter → Bool × HttpRouter
load_routes [] r = (true, r)
load_routes (empty_route ∷ items) r = load_routes items r
load_routes (malformed_route ∷ items) r = (false, r)
load_routes (route path id service ∷ items) r = load_routes items (add_route path id service r)

-- `none` where ConfigManager throws; otherwise the prefix, or its default, and the items.
unfoldable pub load_config : Option (Bytes × List RouteItem) → HttpRouter → Bool × HttpRouter
load_config none r = (false, r)
load_config (some (prefix, items)) r = load_routes items (record r { api_prefix = prefix })
