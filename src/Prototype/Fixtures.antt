-- ===== src/Prototype/Fixtures.antt =====
-- The sample ports and piles of frontend/app/prototype/model.ts.
use charge_api.Prelude.{
  ℕ, zero, suc, ◌+◌, ◌*◌, ◌/◌, ◌%◌, Bool, true, false, not, none, some, String, List, [], ◌∷◌,
  length, any, all, concat, decimal,
}
use charge_api.Types.{PortStatus, idle, in_use, offline, Port, Pile}

abbrev pub storage_key : String
storage_key = "charge.prototype.v2"

abbrev pub snapshot_at : String
snapshot_at = "2026-09-10T18:42:00+08:00"

-- `[…][i % 5]`, in hundredths of a kilowatt.
abbrev power_hundredths : ℕ → ℕ
power_hundredths zero = 12
power_hundredths (suc zero) = 18
power_hundredths (suc (suc zero)) = 26
power_hundredths (suc (suc (suc zero))) = 31
power_hundredths _ = 22

abbrev remaining : ℕ → String
remaining zero = "2 小时 08 分钟"
remaining (suc zero) = "1 小时 46 分钟"
remaining (suc (suc zero)) = "约 38 分钟"
remaining (suc (suc (suc zero))) = "2 小时 12 分钟"
remaining _ = "约 56 分钟"

-- `Number(((i + 2) * 0.083).toFixed(2))`, in hundredths: the nearest.
abbrev energy_hundredths : ℕ → ℕ
energy_hundredths i = (83 * (i + 2) + 5) / 10

abbrev pub is_in_use : PortStatus → Bool
is_in_use in_use = true
is_in_use _ = false

abbrev pub is_offline : PortStatus → Bool
is_offline offline = true
is_offline _ = false

-- One round of `statuses.map`: the port at the index i.
abbrev port_at : ℕ → PortStatus → Port
port_at i in_use = record {
  id = i + 1;
  status = in_use;
  power_kw = record { mantissa = power_hundredths (i % 5); scale = 2 };
  energy_kwh = record { mantissa = energy_hundredths i; scale = 2 };
  updated_at = snapshot_at;
  started_at = some "2026-09-10T16:10:00+08:00";
  session_min = 240;
  used_seconds = (52 + i * 17) * 60;
  used_text =
      some (
        concat (decimal ((52 + i * 17) / 60) ∷ " 小时 " ∷ decimal ((52 + i * 17) % 60) ∷ " 分钟" ∷ []));
  remaining_text = some (remaining (i % 5));
}
port_at i status = record {
  id = i + 1;
  status = status;
  power_kw = record { mantissa = 0; scale = 0 };
  energy_kwh = record { mantissa = 0; scale = 0 };
  updated_at = snapshot_at;
  started_at = none;
  session_min = 0;
  used_seconds = 0;
  used_text = none;
  remaining_text = none;
}

abbrev ports_from : ℕ → List PortStatus → List Port
ports_from i [] = []
ports_from i (status ∷ statuses) = port_at i status ∷ ports_from (i + 1) statuses

abbrev ports : List PortStatus → List Port
ports statuses = ports_from 0 statuses

abbrev used_from : ℕ → List PortStatus → List ℕ
used_from i [] = []
used_from i (in_use ∷ statuses) = (i + 1) ∷ used_from (i + 1) statuses
used_from i (_ ∷ statuses) = used_from (i + 1) statuses

abbrev status_text : Bool → String
status_text true = "offline"
status_text false = "online"

abbrev pile : (id number name address : String) (statuses : List PortStatus) (sort_order : ℕ) → Pile
pile id number name address statuses sort_order = record {
  id = id;
  number = number;
  name = name;
  address = address;
  sort_order = some sort_order;
  status = status_text (all is_offline statuses);
  online = any (λ s. not (is_offline s)) statuses;
  open_num = length statuses;
  created_at = "2026-09-01T12:00:00+08:00";
  updated_at = snapshot_at;
  source = "prototype-fixture";
  ports = ports statuses;
  used_port_ids = used_from 0 statuses;
}

abbrev pub first_sample : Pile
first_sample =
    pile "202609100001" "608201" "桂园 · 北门车棚" "北门入口右侧，第一排车棚"
      (idle ∷ in_use ∷ idle ∷ in_use ∷ in_use ∷ idle ∷ in_use ∷ in_use ∷ idle ∷ offline ∷ []) 0

abbrev pub piles : List Pile
piles =
    first_sample
    ∷ (pile "202609100002" "608202" "桂园 · 3 号楼" "3 号楼东侧，非机动车停放区"
        (in_use ∷ in_use ∷ in_use ∷ in_use ∷ in_use ∷ in_use ∷ in_use ∷ in_use ∷ []) 1)
    ∷ (pile "202609100003" "608203" "桂园 · 南门车棚" "南门内侧，靠近快递柜"
        (in_use ∷ idle ∷ in_use ∷ in_use ∷ idle ∷ in_use ∷ in_use ∷ idle ∷ []) 2)
    ∷ (pile "202609100004" "608204" "科创园 · B 座" "B 座负一层，自行车入口旁"
        (offline ∷ offline ∷ offline ∷ offline ∷ offline ∷ offline ∷ []) 3)
    ∷ []
