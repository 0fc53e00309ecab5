-- ===== src/Requests/History.antt =====
-- frontend/lib/history-api.ts.
use charge_api.Prelude.{
  ℕ, Option, String, [], ◌∷◌, concat, decimal, is_truthy, get_or, str_eq, if◌then◌else◌,
}
use charge_api.Workbench.Query.{Params, set}
use charge_api.Requests.{ApiRequest, get, plain}

-- `range` is one of "24h", "7d" and "30d".
pub record HistoryQuery : Type 0 where
  pub range : Option String
  pub timezone : Option String

abbrev set_some : String → Option String → Params → Params
set_some key value params = if is_truthy value then set key (get_or value "") params else params

unfoldable pub history_params : HistoryQuery → Params
unfolding set
history_params query = set_some "timezone" query.timezone (set_some "range" query.range [])

module _ (encode : String → String) (to_string : Params → String) where
  unfoldable pub history_path : String → HistoryQuery → String
  unfolding history_params
  history_path path query =
      let suffix = to_string (history_params query) in
      if str_eq suffix "" then path else concat (path ∷ "?" ∷ suffix ∷ [])

  unfoldable pub device : String → HistoryQuery → ApiRequest (Unit {0})
  unfolding history_path
  device device_id query =
      plain get (history_path (concat ("/api/piles/" ∷ encode device_id ∷ "/history" ∷ [])) query)
        "加载充电桩历史失败"

  unfoldable pub port : String → ℕ → HistoryQuery → ApiRequest (Unit {0})
  unfolding history_path decimal
  port device_id port_id query =
      plain get
        (history_path
          (concat
            ("/api/piles/" ∷ encode device_id ∷ "/ports/" ∷ decimal port_id ∷ "/history" ∷ []))
          query)
        "加载充电口历史失败"
