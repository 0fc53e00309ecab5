-- ===== src/Cards/Tests.antt =====
-- A pile whose update time alone has changed.
use charge_api.Prelude.{true, none, String, []}
use charge_api.Types.{Pile}

abbrev pile : String → Pile
pile updated_at = record {
  id = "p1";
  number = "10001";
  name = "east";
  status = "";
  address = "gate";
  open_num = 0;
  online = true;
  created_at = "";
  updated_at = updated_at;
  source = "";
  ports = [];
  used_port_ids = [];
  sort_order = none;
}
