-- ===== src/Prototype/Plays.antt =====
-- The recipes of frontend/app/prototype that are written at once, without `commit`: those of the preview's own
-- dialog, the theme, the sign-in, and the notice that is opened.
use charge_api.Prelude.{
  ℕ, Bool, true, false, not, ◌&&◌, Option, none, some, String, List, [], ◌∷◌, map, length, str_eq,
  concat, decimal, if◌then◌else◌,
}
use charge_api.Types.{Port, Pile, idle}
use charge_api.Prototype.Model.{
  Role, user, admin, notified, pile_available, pile_offline, pile_recovered, DemoWatch, DemoNotice,
  Delivery, submitted, no_delivery, Theme, PrototypeData,
}
use charge_api.Prototype.Fixtures.{first_sample}
use charge_api.Prototype.Update.{update_first, update_all, find}
use charge_api.Prototype.Change.{is_active, end_watch, is_type, resolve, read_notice, used_ids}

pub data Play : Type 0 where
  set_role : Role → Play
  found_idle recovered first_observation : Play
  set_theme : Theme → Play
  set_motion : (reduced : Bool) → Play
  sign_in : (username : String) → Play
  open_notice : (id : String) → Play

-- The first port, as it is when it becomes free.
abbrev pub freed : Port → Port
freed port = record port {
  status = idle;
  power_kw = record { mantissa = 0; scale = 0 };
  energy_kwh = record { mantissa = 0; scale = 0 };
  used_seconds = 0;
  used_text = none;
  remaining_text = none;
}

abbrev pub with_ports : List Port → Pile → Pile
with_ports ports p = record p { online = true; ports = ports; used_port_ids = used_ids ports }

-- The first port of a pile becomes free.
abbrev pub free_first : List Port → Pile → Pile
free_first [] p = p
free_first (port ∷ ports) p = with_ports (freed port ∷ ports) p

abbrev delivery_of : Bool → Delivery
delivery_of true = submitted
delivery_of false = no_delivery

abbrev pub has_id : String → Pile → Bool
has_id id p = str_eq p.id id

-- `event("available")` where the first active watch has this pile, with these ports; `none` where nothing
-- is done.
unfoldable pub found_on : (stamp : ℕ) → Pile → List Port → PrototypeData → Option PrototypeData
unfolding update_first
found_on stamp p [] d = none
found_on stamp p (port ∷ ports) d = some (record d {
  watches = update_first is_active (end_watch notified) d.watches;
  piles = update_first (has_id p.id) (λ (x : Pile). free_first x.ports x) d.piles;
  notices =
      record {
        id = concat ("notice-" ∷ decimal stamp ∷ []);
        type = pile_available;
        device_id = some p.id;
        port_id = some port.id;
        title = concat (p.name ∷ "有空闲口了" ∷ []);
        message = concat (decimal port.id ∷ " 号口已空闲，这次提醒已自动结束。出发前请再确认状态。" ∷ []);
        created_at = d.snapshot_at;
        read = false;
        resolved = false;
        delivery = delivery_of (d.wx_enabled && d.wx_bound);
      }
      ∷ d.notices;
})

abbrev pub found_at : (stamp : ℕ) → Option Pile → PrototypeData → Option PrototypeData
found_at stamp none d = none
found_at stamp (some p) d = found_on stamp p p.ports d

unfoldable pub found_for : (stamp : ℕ) → Option DemoWatch → PrototypeData → Option PrototypeData
unfolding find
found_for stamp none d = none
found_for stamp (some w) d = found_at stamp (find (has_id w.device_id) d.piles) d

unfoldable pub play_found : (stamp : ℕ) → PrototypeData → Option PrototypeData
unfolding find found_for
play_found stamp d = found_for stamp (find is_active d.watches) d

abbrev has_ports : List Port → Bool
has_ports [] = false
has_ports (_ ∷ _) = true

abbrev pub is_lost : Pile → Bool
is_lost p = not p.online && has_ports p.ports

abbrev pub free : Port → Port
free port = record port { status = idle }

abbrev pub restored : Pile → Pile
restored p = record p { online = true; status = "online"; ports = map free p.ports }

abbrev is_about : String → Option String → Bool
is_about id none = false
is_about id (some device_id) = str_eq device_id id

-- `event("recovered")`, by the first pile that is out of reach and has ports.
abbrev pub recovered_at : (stamp : ℕ) → Option Pile → PrototypeData → Option PrototypeData
recovered_at stamp none d = none
recovered_at stamp (some p) d = some (record d {
  piles = update_first is_lost restored d.piles;
  notices =
      record {
        id = concat ("notice-" ∷ decimal stamp ∷ []);
        type = pile_recovered;
        device_id = some p.id;
        port_id = none;
        title = concat (p.name ∷ "恢复连接" ∷ []);
        message = "已经重新读取到端口状态，原离线问题自动标记为解决。";
        created_at = d.snapshot_at;
        read = false;
        resolved = false;
        delivery = no_delivery;
      }
      ∷ update_all (λ n. is_about p.id n.device_id && is_type n.type pile_offline) resolve
          d.notices;
})

unfoldable pub play_recovered : (stamp : ℕ) → PrototypeData → Option PrototypeData
unfolding find
play_recovered stamp d = recovered_at stamp (find is_lost d.piles) d

abbrev pub is_unread : Pile → Bool
is_unread p = not (has_ports p.ports)

abbrev pub sample_ports : String → List Port
sample_ports at = map (λ (port : Port). record port { updated_at = at }) first_sample.ports

abbrev pub observed : String → Pile → Pile
observed at p = record (with_ports (sample_ports at) p) {
  open_num = length (sample_ports at);
  status = "online";
  updated_at = at;
}

-- `firstObservation`, of the first pile without ports.
abbrev pub first_at : Option Pile → PrototypeData → Option PrototypeData
first_at none d = none
first_at (some p) d =
    some (record d { piles = update_first is_unread (observed d.snapshot_at) d.piles })

unfoldable pub play_first : PrototypeData → Option PrototypeData
unfolding find
play_first d = first_at (find is_unread d.piles) d

abbrev pub is_admin_name : String → Bool
is_admin_name username = str_eq username "admin"

-- `none` where the recipe returns early.
unfoldable pub play : (stamp : ℕ) → Play → PrototypeData → Option PrototypeData
unfolding play_found play_recovered play_first update_first
play stamp (set_role role) d = some (record d { demo_role = role })
play stamp found_idle d = play_found stamp d
play stamp recovered d = play_recovered stamp d
play stamp first_observation d = play_first d
play stamp (set_theme theme) d = some (record d { theme = theme })
play stamp (set_motion reduced) d = some (record d { reduce_motion = reduced })
play stamp (sign_in username) d = some (record d {
  demo_role = if is_admin_name username then admin else user;
  username = if is_admin_name username then "林一" else username;
})
play stamp (open_notice id) d =
    some (record d {
      notices = update_first (λ (n : DemoNotice). str_eq n.id id) read_notice d.notices;
    })
