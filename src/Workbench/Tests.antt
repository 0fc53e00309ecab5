-- ===== src/Workbench/Tests.antt =====
-- Searches of one pile, and an address.
use charge_api.Prelude.{
  ℕ, ◌≡◌, ◌≢◌, refl, true, none, String, [], ◌∷◌, inl, lookup, trim, str_eq, if◌then◌else◌,
}
use charge_api.Types.{PortStatus, idle, in_use, offline, Port, Pile}
use charge_api.Workbench.Selection.{charging, only_idle, select_workbench_piles, filter_piles}
use charge_api.Workbench.Query.{
  Params, with_query, parse_dashboard_query, serialize_dashboard_query,
}
use charge_api.Workbench.Agreement.{select_workbench_piles-filter_piles}
use charge_api.Workbench.Address.{parse-serialize_dashboard_query}

abbrev port : ℕ → PortStatus → Port
port id status = record {
  id = id;
  status = status;
  power_kw = record { mantissa = 0; scale = 0 };
  energy_kwh = record { mantissa = 0; scale = 0 };
  updated_at = "";
  started_at = none;
  session_min = 0;
  used_seconds = 0;
  used_text = none;
  remaining_text = none;
}

abbrev pile : Pile
pile = record {
  id = "p1";
  number = "10001";
  name = "east";
  status = "";
  address = "gate";
  open_num = 0;
  online = true;
  created_at = "";
  updated_at = "";
  source = "";
  ports = port 1 idle ∷ port 2 in_use ∷ port 3 offline ∷ port 4 idle ∷ [];
  used_port_ids = [];
  sort_order = none;
}

-- A host whose texts are in lower case already.
abbrev same : String → String
same s = s

select_workbench_piles-filter_piles_example :
    select_workbench_piles same (pile ∷ []) "  " charging
    ≡ filter_piles same (pile ∷ []) "  " charging
unfolding trim
select_workbench_piles-filter_piles_example =
    select_workbench_piles-filter_piles same same (pile ∷ []) "  " charging refl (inl refl)
      ((refl, refl), tt)

-- A host that knows two addresses: the one before, and the one that is written.
abbrev parse_params : String → Params
parse_params s =
    if str_eq s "?page=2"
    then ("page", "2") ∷ []
    else ("page", "2") ∷ ("q", "east") ∷ ("status", "idle") ∷ []

abbrev to_string : Params → String
to_string ps = "?page=2&q=east&status=idle"

parse-serialize_dashboard_query_example :
    (parse_dashboard_query parse_params to_string (
        serialize_dashboard_query parse_params to_string
          (record { search = " east "; filter = only_idle })
          "?page=2")
      ≡ record { search = "east"; filter = only_idle })
    × ((k : String)
        → k ≢ "q"
        → k ≢ "status"
        → lookup k (
            parse_params (
              serialize_dashboard_query parse_params to_string
                (record { search = " east "; filter = only_idle })
                "?page=2"))
          ≡ lookup k (("page", "2") ∷ []))
unfolding with_query trim
parse-serialize_dashboard_query_example =
    parse-serialize_dashboard_query parse_params to_string
      (record { search = " east "; filter = only_idle }) "?page=2" refl
