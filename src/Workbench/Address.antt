-- ===== src/Workbench/Address.antt =====
-- The address bar keeps what it is told, and nothing else changes.
use charge_api.Prelude.{
  ◌≡◌, ◌≢◌, refl, ap, ◌∙◌, arith, Option, none, some, String, List, [], ◌∷◌, str_eq, eq_iff, trim,
  trim_idempotent, lookup, is_truthy, get_or, if◌then◌else◌,
}
use charge_api.Workbench.Selection.{PortFilter, all, only_idle, charging, only_offline}
use charge_api.Workbench.Query.{
  Params, delete, set, DashboardQuery, filter_name, filter_of, trimmed, is_all, with_query,
  parse_dashboard_query, serialize_dashboard_query, update_param, update_params,
}

lookup-delete :
    (name k : String) (ps : Params)
    → lookup k (delete name ps) ≡ (if str_eq name k then none else lookup k ps)
unfolding lookup delete
lookup-delete name k [] = ground arith
lookup-delete name k ((j, v) ∷ ps) =
    ground (arith, lookup-delete name k ps, eq_iff j name, eq_iff j k, eq_iff name k)

lookup-set :
    (name k v : String) (ps : Params)
    → lookup k (set name v ps) ≡ (if str_eq name k then some v else lookup k ps)
unfolding lookup set
lookup-set name k v [] = refl
lookup-set name k v ((j, w) ∷ ps) = ground (
  arith,
  lookup-set name k v ps,
  lookup-delete name k ps,
  eq_iff j name,
  eq_iff j k,
  eq_iff name k,
)

with_query-q :
    (query : DashboardQuery) (ps : Params)
    → trimmed (lookup "q" (with_query query ps)) ≡ trim query.search
unfolding with_query
with_query-q query ps = ground (
  arith,
  lookup-delete "status" "q" (delete "q" ps),
  lookup-delete "status" "q" (set "q" (trim query.search) ps),
  lookup-set "status" "q" (filter_name query.filter) (delete "q" ps),
  lookup-set "status" "q" (filter_name query.filter) (set "q" (trim query.search) ps),
  lookup-delete "q" "q" ps,
  lookup-set "q" "q" (trim query.search) ps,
  eq_iff (trim query.search) "",
  trim_idempotent query.search,
)

filter_of-filter_name : (f : PortFilter) → filter_of (some (filter_name f)) ≡ f
unfolding filter_of
filter_of-filter_name all = refl
filter_of-filter_name only_idle = refl
filter_of-filter_name charging = refl
filter_of-filter_name only_offline = refl

status_of :
    (f : PortFilter) (ps : Params)
    → filter_of
        (lookup "status" (if is_all f then delete "status" ps else set "status" (filter_name f) ps))
      ≡ f
unfolding filter_of
status_of all ps = rw (lookup-delete "status" "status" ps)
status_of only_idle ps = rw (lookup-set "status" "status" "idle" ps)
status_of charging ps = rw (lookup-set "status" "status" "charging" ps)
status_of only_offline ps = rw (lookup-set "status" "status" "offline" ps)

with_query-status :
    (query : DashboardQuery) (ps : Params)
    → filter_of (lookup "status" (with_query query ps)) ≡ query.filter
unfolding with_query
with_query-status query ps =
    let search = trim query.search in
    status_of query.filter (if str_eq search "" then delete "q" ps else set "q" search ps)

with_query-others :
    (query : DashboardQuery) (ps : Params) (k : String)
    → k ≢ "q"
    → k ≢ "status"
    → lookup k (with_query query ps) ≡ lookup k ps
unfolding with_query
with_query-others query ps k q s = ground (
  arith,
  lookup-delete "status" k (delete "q" ps),
  lookup-delete "status" k (set "q" (trim query.search) ps),
  lookup-set "status" k (filter_name query.filter) (delete "q" ps),
  lookup-set "status" k (filter_name query.filter) (set "q" (trim query.search) ps),
  lookup-delete "q" k ps,
  lookup-set "q" k (trim query.search) ps,
  eq_iff "q" k,
  eq_iff "status" k,
)

query_path : (a b : DashboardQuery) → a.search ≡ b.search → a.filter ≡ b.filter → a ≡ b
query_path a b p q = λ i. record { search = p i; filter = q i }

-- A query that is written into the address, over whatever stood there, is read back with its search
-- trimmed, and every parameter but the two of the query keeps its value. Condition: the parser reads
-- back the parameters that the printer wrote.
pub parse-serialize_dashboard_query :
    (parse_params : String → Params) (to_string : Params → String) (query : DashboardQuery)
    (current : String)
    → let params = with_query query (parse_params current) in
      parse_params (to_string params) ≡ params
      → (parse_dashboard_query parse_params to_string
            (serialize_dashboard_query parse_params to_string query current)
          ≡ record { search = trim query.search; filter = query.filter })
        × ((k : String)
            → k ≢ "q"
            → k ≢ "status"
            → lookup k
                (parse_params (serialize_dashboard_query parse_params to_string query current))
              ≡ lookup k (parse_params current))
unfolding parse_dashboard_query serialize_dashboard_query
parse-serialize_dashboard_query parse_params to_string query current law =
    let params = with_query query (parse_params current) in
    (
      query_path _ _
          (ap (λ ps. trimmed (lookup "q" ps)) law ∙ with_query-q query (parse_params current))
          (ap (λ ps. filter_of (lookup "status" ps)) law
            ∙ with_query-status query (parse_params current)),
      λ k q s. ap (lookup k) law ∙ with_query-others query (parse_params current) k q s,
    )

-- What a list of changes asks of a parameter, the last change deciding.
abbrev pub asked : String → List (String × Option String) → Option String → Option String
asked k [] old = old
asked k ((key, value) ∷ values) old =
    asked k values
      (if str_eq key k then (if is_truthy value then some (get_or value "") else none) else old)

-- After `updatePageQuery`'s loop every parameter is what the changes ask: the last value given for it,
-- gone if that is absent or empty, and as it was if no change names it.
pub lookup-update_params :
    (values : List (String × Option String)) (ps : Params) (k : String)
    → lookup k (update_params values ps) ≡ asked k values (lookup k ps)
unfolding update_params
lookup-update_params [] ps k = refl
lookup-update_params ((key, value) ∷ values) ps k =
    lookup-update_params values (update_param (key, value) ps) k
    ∙ ap (asked k values)
        (ground (arith, lookup-set key k (get_or value "") ps, lookup-delete key k ps))
