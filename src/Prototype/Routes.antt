-- ===== src/Prototype/Routes.antt =====
-- `parseRoute` and `routeHref` of frontend/app/prototype/model.ts. `URLSearchParams` is the list of its pairs
-- (Workbench/Query); its text, and how a text is read, are the host's.
use Prim.Native.String
use Prim.Native.Char.{code}
use charge_api.Prelude.{
  ℕ, ◌==◌, Option, none, some, String, [], str_eq, decimal, to_number, lookup, is_truthy,
  is_nonzero, get_or, ltb, if◌then◌else◌,
}
use charge_api.Workbench.Query.{Params, set, is_empty}
use charge_api.Prototype.Model.{
  View, piles, reminders, notifications, account, login, register, admin, users, incidents,
  operations, policies, invites, audit, Route,
}

abbrev pub view_name : View → String
view_name piles = "piles"
view_name reminders = "reminders"
view_name notifications = "notifications"
view_name account = "account"
view_name login = "login"
view_name register = "register"
view_name admin = "admin"
view_name users = "users"
view_name incidents = "incidents"
view_name operations = "operations"
view_name policies = "policies"
view_name invites = "invites"
view_name audit = "audit"

-- `Object.hasOwn(viewLabel, rawView)`, and the default.
unfoldable pub view_of : String → View
view_of name =
    if str_eq name "reminders"
    then reminders
    else if str_eq name "notifications"
    then notifications
    else if str_eq name "account"
    then account
    else if str_eq name "login"
    then login
    else if str_eq name "register"
    then register
    else if str_eq name "admin"
    then admin
    else if str_eq name "users"
    then users
    else if str_eq name "incidents"
    then incidents
    else if str_eq name "operations"
    then operations
    else if str_eq name "policies"
    then policies
    else if str_eq name "invites"
    then invites
    else if str_eq name "audit"
    then audit
    else piles

-- The text up to the first mark, and the text between it and the next; `split(mark)` of which two are read.
unfoldable pub up_to : ℕ → String → String
up_to mark String.[] = ""
up_to mark (String.◌∷◌ c s) =
    let rest = up_to mark s in if code c == mark then "" else String.◌∷◌ c rest

unfoldable pub past : ℕ → String → Option String
past mark String.[] = none
past mark (String.◌∷◌ c s) = let rest = past mark s in if code c == mark then some s else rest

abbrev pub second : ℕ → Option String → Option String
second mark none = none
second mark (some s) = some (up_to mark s)

-- `hash.replace(/^#\/?/, "")`.
abbrev without_slash : String → String
without_slash String.[] = ""
without_slash (String.◌∷◌ c s) = if code c == 47 then s else String.◌∷◌ c s

unfoldable pub without_hash : String → String
without_hash String.[] = ""
without_hash (String.◌∷◌ c s) = if code c == 35 then without_slash s else String.◌∷◌ c s

abbrev pub truthy : Option String → Option String
truthy o = if is_truthy o then o else none

-- `Number(params.get("port"))`, where it is a positive integer; a missing one is 0.
abbrev pub port_of : Option String → Option ℕ
port_of none = none
port_of (some text) = elim (to_number text) [
  | none ↦ none
  | some n ↦ if ltb 0 n then some n else none
]

abbrev pub set_tab : Option String → Params → Params
set_tab tab params = if is_truthy tab then set "tab" (get_or tab "") params else params

abbrev pub set_port : Option ℕ → Params → Params
set_port port params =
    if is_nonzero port then set "port" (decimal (get_or port 0)) params else params

unfoldable pub route_params : Route → Params
unfolding set
route_params route = set_port route.port (set_tab route.tab [])

abbrev pub id_text : Option String → String
id_text id = if is_truthy id then String.◌++◌ "/" (get_or id "") else ""

unfoldable pub path_text : View → Option String → String
path_text view id = String.◌++◌ (view_name view) (id_text id)

module _ (parse_params : String → Params) where
  abbrev pub params_of : Option String → Params
  params_of search = parse_params (get_or (second 63 search) "")

  unfoldable pub parse_route : String → Route
  unfolding view_of up_to past without_hash to_number lookup
  parse_route hash =
      let text = without_hash hash in
      let path = up_to 63 text in
      let params = params_of (past 63 text) in
      record {
        view = view_of (up_to 47 path);
        id = truthy (second 47 (past 47 path));
        tab = truthy (lookup "tab" params);
        port = port_of (lookup "port" params);
      }

module _ (to_string : Params → String) where
  abbrev pub query_text : Params → String
  query_text params = if is_empty params then "" else String.◌++◌ "?" (to_string params)

  unfoldable pub route_href : Route → String
  unfolding route_params path_text
  route_href route =
      String.◌++◌ "#/"
        (String.◌++◌ (path_text route.view route.id) (query_text (route_params route)))
