-- ===== src/Workbench/Query.antt =====
-- Queries of the address bar: frontend/lib/dashboard-query.ts, and `dashboardHref` and `updatePageQuery` of
-- frontend/lib/workbench.ts. `URLSearchParams` is the list of its pairs, as its standard describes
-- `get`, `set` and `delete`; its parser and printer are parameters.
use charge_api.Prelude.{
  ℕ, Bool, true, false, Option, none, some, String, List, [], ◌∷◌, str_eq, trim, lookup, concat,
  decimal, is_truthy, is_nonzero, get_or, if◌then◌else◌,
}
use charge_api.Workbench.Selection.{PortFilter, all, only_idle, charging, only_offline}

abbrev pub Params : Type 0
Params = List (String × String)

-- `delete`: every pair of the name.
unfoldable pub delete : String → Params → Params
delete name [] = []
delete name ((k, v) ∷ params) =
    if str_eq k name then delete name params else (k, v) ∷ delete name params

-- `set`: the first pair of the name takes the value and the others go, or a pair is added at the end.
unfoldable pub set : String → String → Params → Params
unfolding delete
set name value [] = (name, value) ∷ []
set name value ((k, v) ∷ params) =
    if str_eq k name then (k, value) ∷ delete name params else (k, v) ∷ set name value params

-- The size of the parameters, as `params.size` is tested.
abbrev pub is_empty : Params → Bool
is_empty [] = true
is_empty (_ ∷ _) = false

pub record DashboardQuery : Type 0 where
  pub search : String
  pub filter : PortFilter

abbrev pub filter_name : PortFilter → String
filter_name all = "all"
filter_name only_idle = "idle"
filter_name charging = "charging"
filter_name only_offline = "offline"

-- `filter && portFilters.has(filter) ? filter : "all"`.
unfoldable pub filter_of : Option String → PortFilter
filter_of none = all
filter_of (some s) =
    if str_eq s "idle"
    then only_idle
    else if str_eq s "charging"
    then charging
    else if str_eq s "offline"
    then only_offline
    else all

-- `params.get("q")?.trim() ?? ""`.
abbrev pub trimmed : Option String → String
trimmed none = ""
trimmed (some s) = trim s

abbrev pub is_all : PortFilter → Bool
is_all all = true
is_all _ = false

-- The parameters after `serializeDashboardQuery`'s changes.
unfoldable pub with_query : DashboardQuery → Params → Params
unfolding set delete
with_query query params =
    let search = trim query.search in
    let searched = if str_eq search "" then delete "q" params else set "q" search params in
    if is_all query.filter
    then delete "status" searched
    else set "status" (filter_name query.filter) searched

-- One round of `updatePageQuery`'s loop, a value given as its text: none and "" delete.
abbrev pub update_param : String × Option String → Params → Params
update_param (key, value) params =
    if is_truthy value then set key (get_or value "") params else delete key params

unfoldable pub update_params : List (String × Option String) → Params → Params
update_params [] params = params
update_params (e ∷ values) params = update_params values (update_param e params)

module _ (parse_params : String → Params) (to_string : Params → String) where
  unfoldable pub parse_dashboard_query : String → DashboardQuery
  unfolding filter_of lookup
  parse_dashboard_query search =
      let params = parse_params search in
      record { search = trimmed (lookup "q" params); filter = filter_of (lookup "status" params) }

  unfoldable pub serialize_dashboard_query : DashboardQuery → String → String
  unfolding with_query
  serialize_dashboard_query query current_search =
      to_string (with_query query (parse_params current_search))

  -- `${path}${params.size ? `?${params}` : ""}${hash}`.
  abbrev pub with_params : String → Params → String → String
  with_params path params hash =
      concat
        (path ∷ (if is_empty params then "" else concat ("?" ∷ to_string params ∷ [])) ∷ hash ∷ [])

  unfoldable pub dashboard_href : Option String → Option ℕ → String
  unfolding set decimal
  dashboard_href pile_id port_id =
      let piled = if is_truthy pile_id then set "pile" (get_or pile_id "") [] else [] in
      let ported =
        if is_nonzero port_id then set "port" (decimal (get_or port_id 0)) piled else piled in
      with_params "/dashboard" ported ""

  -- The address that `updatePageQuery` pushes or replaces.
  unfoldable pub updated_url :
      List (String × Option String) → (pathname search hash : String) → String
  unfolding update_params
  updated_url values pathname search hash =
      with_params pathname (update_params values (parse_params search)) hash
