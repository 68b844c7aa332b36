-- ===== src/Router/Service.antt =====
-- ServiceRouter of gateway/router/router.mgr.cpp and router_mgr.hpp, over the items of the array in
-- the file.
use my_chat.Prelude.{
  ℕ, arith, ◌≡◌, ◌↔◌, Bool, true, false, ◌||◌, ◌&&◌, Option, none, some, List, [], ◌∷◌, String,
  nat_comparable, string_comparable, bytes_comparable, ◌==◌, Comparable, leb, if◌then◌else◌,
}
use my_chat.Prelude.Tables.{lookup, emplace}

pub data ServiceRouteError : Type 0 where
  empty_service_name service_not_found command_not_found : ServiceRouteError

pub record ServiceRouteResult : Type 0 where
  pub service_name : String
  pub endpoint : String
  pub timeout_ms : ℕ
  pub max_connections : ℕ
  pub is_valid : Bool
  pub error : Option ServiceRouteError

-- The constructors of ServiceRouteResult.
abbrev pub service_route : String → String → ℕ → ℕ → ServiceRouteResult
service_route name ep timeout max_conn = record {
  service_name = name;
  endpoint = ep;
  timeout_ms = timeout;
  max_connections = max_conn;
  is_valid = true;
  error = none;
}

abbrev pub no_service_route : Option ServiceRouteError → ServiceRouteResult
no_service_route e = record {
  service_name = "";
  endpoint = "";
  timeout_ms = 3000;
  max_connections = 10;
  is_valid = false;
  error = e;
}

abbrev pub CmdRange : Type 0
CmdRange = ℕ × ℕ

pub record ServiceRouter : Type 0 where
  pub services : List (String × ServiceRouteResult)
  pub cmds : List (CmdRange × String)

-- The value of cmd_range: no array, or an array, whose items are numbers or not.
pub data CmdRangeJson : Type 0 where
  not_array : CmdRangeJson
  items : List (Option ℕ) → CmdRangeJson

-- Operator [] fills a short array with nulls, which do not convert to a number.
unfoldable pub read_cmd_range : CmdRangeJson → Option CmdRange
read_cmd_range not_array = some (0, 0)
read_cmd_range (items (some first ∷ some second ∷ rest)) = some (first, second)
read_cmd_range (items _) = none

pub data ServiceItem : Type 0 where
  empty_service malformed_service : ServiceItem
  service : String → String → ℕ → ℕ → CmdRangeJson → ServiceItem

abbrev pub range_beq : CmdRange → CmdRange → Bool
range_beq (a, b) (c, d) = (a == c) && (b == d)

pub range_beq_iff : (r s : CmdRange) → (range_beq r s ≡ true) ↔ (r ≡ s)
range_beq_iff (a, b) (c, d) = ground arith

instance abbrev pub range_comparable : Comparable CmdRange
range_comparable = record { same = range_beq; same_iff = range_beq_iff }

-- The range holds the command.
abbrev pub covers : CmdRange → ℕ → Bool
covers (first, second) cmd = leb first cmd && leb cmd second

unfoldable pub add_service : String → String → ℕ → ℕ → CmdRange → ServiceRouter → ServiceRouter
add_service name endpoint timeout max_conn range r =
    if (name == "") || (endpoint == "") then r else record {
      services = emplace name (service_route name endpoint timeout max_conn) r.services;
      cmds = emplace range name r.cmds;
    }

unfoldable pub load_services : List ServiceItem → ServiceRouter → Bool × ServiceRouter
load_services [] r = (true, r)
load_services (empty_service ∷ rest) r = load_services rest r
load_services (malformed_service ∷ rest) r = (false, r)
load_services (service name endpoint timeout max_conn json ∷ rest) r = elim (read_cmd_range json) [
  | none ↦ (false, r)
  | some range ↦ load_services rest (add_service name endpoint timeout max_conn range r)
]

unfoldable pub load_config : Option (List ServiceItem) → ServiceRouter → Bool × ServiceRouter
load_config none r = (false, r)
load_config (some services) r = load_services services r

-- The result that is found is copied, and valid.
abbrev pub copied : ServiceRouteResult → ServiceRouteResult
copied s = service_route s.service_name s.endpoint s.timeout_ms s.max_connections

-- find_service by its name.
unfoldable pub find_service : String → ServiceRouter → ServiceRouteResult
find_service name r =
    if name == ""
    then no_service_route (some empty_service_name)
    else elim (lookup name r.services) [
      | none ↦ no_service_route (some service_not_found)
      | some s ↦ copied s
    ]

unfoldable pub find_range : ℕ → List (CmdRange × String) → String
find_range cmd [] = ""
find_range cmd ((range, name) ∷ rest) =
    let later = find_range cmd rest in if covers range cmd then name else later

-- find_service by a command. `order` is the order in which the hash table is walked; operator []
-- adds a service that is not valid under a name that is missing.
unfoldable pub find_service_of_cmd :
    (List (CmdRange × String) → List (CmdRange × String))
    → ℕ
    → ServiceRouter
    → ServiceRouteResult × ServiceRouter
find_service_of_cmd order cmd r =
    let name = find_range cmd (order r.cmds) in
    if name == ""
    then (no_service_route (some command_not_found), r)
    else elim (lookup name r.services) [
      | some s ↦ (copied s, r)
      | none ↦ (
        copied (no_service_route none),
        record r { services = emplace name (no_service_route none) r.services },
      )
    ]
