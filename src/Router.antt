-- ===== src/Router.antt =====
-- gateway/router/router.mgr.cpp and router_mgr.hpp: HTTP routes, services, and RouterManager over both.
-- Error texts and logging are left out.
pub mod Http
pub mod Service
pub mod Routes
pub mod Services
pub mod Requests
mod Tests
use my_chat.Prelude.{ℕ, String, Bool, true, false, not, ◌&&◌, Option, List, if◌then◌else◌}
use my_chat.Router.Http
use my_chat.Router.Service
use my_chat.Router.Http.{Bytes, HttpRouteResult, HttpRouter, RouteItem, parse_route}
use my_chat.Router.Service.{ServiceRouteResult, ServiceRouter, ServiceItem, find_service}

pub record CompleteRouteResult : Type 0 where
  pub cmd_id : ℕ
  pub service_name : String
  pub endpoint : String
  pub timeout_ms : ℕ
  pub max_connections : ℕ
  pub is_valid : Bool
  pub http_status_code : ℕ

pub record RouterManager : Type 0 where
  pub http_router : HttpRouter
  pub service_router : ServiceRouter

abbrev pub no_complete_route : ℕ → CompleteRouteResult
no_complete_route status = record {
  cmd_id = 0;
  service_name = "";
  endpoint = "";
  timeout_ms = 3000;
  max_connections = 10;
  is_valid = false;
  http_status_code = status;
}

-- Both routers read the file, one after the other.
unfoldable pub reload_config :
    Option (Bytes × List RouteItem)
    → Option (List ServiceItem)
    → RouterManager
    → Bool × RouterManager
reload_config routes services m =
    let (http_ok, h) = Http.load_config routes m.http_router in
    let (service_ok, s) = Service.load_config services m.service_router in
    (http_ok && service_ok, record { http_router = h; service_router = s })

unfoldable pub route_request : Bytes → RouterManager → CompleteRouteResult
route_request path m =
    let http_result = parse_route path m.http_router in
    let service_result = find_service http_result.service_name m.service_router in
    if not http_result.is_valid
    then no_complete_route http_result.status_code
    else if not service_result.is_valid
    then no_complete_route 503
    else record {
      cmd_id = http_result.cmd_id;
      service_name = http_result.service_name;
      endpoint = service_result.endpoint;
      timeout_ms = service_result.timeout_ms;
      max_connections = service_result.max_connections;
      is_valid = true;
      http_status_code = 200;
    }
