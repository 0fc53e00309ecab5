-- ===== src/Prototype/Recipes.antt =====
-- The recipes of the forms of frontend/app/prototype (Change), and those that are written without `commit`:
-- the preview's own, the theme and the sign-in (Play).
use charge_api.Prelude.{
  ℕ, ◌+◌, ◌*◌, Bool, true, false, ◌&&◌, Option, none, some, String, List, [], ◌∷◌, ◌++◌, map,
  length, str_eq, trim, concat, decimal, if◌then◌else◌,
}
use charge_api.Types.{Pile}
use charge_api.Types.Admin.{unbound, healthy, RegistrationSettings}
use charge_api.Prototype.Model.{
  user, admin, Duration, active, DemoWatch, UserRole, DemoUser, IncidentStatus, resolved,
  acknowledged, unhandled, DemoIncident, success, PrototypeData, Clock,
}
use charge_api.Prototype.Update.{update_first, find}
use charge_api.Prototype.Change.{Action, act, add_audit, is_active, on_device, settle_credential}

pub data Change : Type 0 where
  did : Action → Change
  -- dialogs.tsx. `afresh` where the scenario shows no data.
  edit_pile : (id identifier name address : String) → Change
  add_pile : (afresh : Bool) → (identifier name address : String) → Change
  save_watch : (device_id : String) → Duration → (end : String) → Change
  update_cookie : Change
  change_password : Change
  create_user : (id username : String) → UserRole → (limit : ℕ) → (refresh_enabled : Bool) → Change
  create_invite : (code expires : String) → Change
  -- piles.tsx.
  refresh_snapshot : Change
  -- admin.tsx.
  save_user : (id username : String) → (limit : ℕ) → UserRole → Change
  update_incident : (id title note : String) → IncidentStatus → Change
  save_policies : RegistrationSettings → Change
  -- account.tsx.
  save_quiet : (start end : String) → Change

-- `name.trim() || …`.
abbrev pub name_or : String → String → String
name_or name identifier =
    if str_eq (trim name) "" then concat ("充电桩 " ∷ identifier ∷ []) else trim name

abbrev pub emptied : Bool → PrototypeData → PrototypeData
emptied true d = record d { piles = []; watches = []; notices = [] }
emptied false d = d

-- A pile that was never read.
abbrev pub new_pile : (identifier name address snapshot_at : String) → (sort_order : ℕ) → Pile
new_pile identifier name address snapshot_at sort_order = record {
  id = trim identifier;
  number = trim identifier;
  name = name_or name (trim identifier);
  address = trim address;
  status = "waiting";
  open_num = 0;
  online = false;
  created_at = snapshot_at;
  updated_at = snapshot_at;
  source = "prototype-fixture";
  ports = [];
  used_port_ids = [];
  sort_order = some sort_order;
}

abbrev pub watches : String → DemoWatch → Bool
watches device_id w = on_device device_id w && is_active w

-- `new Date(…).toISOString()`, some milliseconds after an instant. `safeData` lets no snapshot pass whose
-- time is NaN.
abbrev pub later : Clock → ℕ → String → String
later clock ms text = elim (clock.time_of text) [
  | none ↦ text
  | some time ↦ clock.to_iso (time + ms)
]

-- The watches, by the one that already waits for the device.
unfoldable pub watches_with :
    Clock
    → (stamp : ℕ) → (device_id : String) → Duration
    → (end : String) → Option DemoWatch
    → PrototypeData
    → List DemoWatch
unfolding update_first
watches_with clock stamp device_id duration end (some found) d =
    update_first (watches device_id) (λ w. record w { duration = duration; expires_at = end })
      d.watches
watches_with clock stamp device_id duration end none d =
    record {
      id = concat ("watch-" ∷ decimal stamp ∷ []);
      device_id = device_id;
      duration = duration;
      status = active;
      created_at = d.snapshot_at;
      expires_at = end;
      next_check_at = later clock (d.settings.watch_refresh_interval_minutes * 60000) d.snapshot_at;
    }
    ∷ d.watches

unfoldable pub save_watch_in :
    Clock
    → (stamp : ℕ) → (device_id : String) → Duration
    → (end : String) → PrototypeData
    → List DemoWatch
unfolding find watches_with
save_watch_in clock stamp device_id duration end d =
    watches_with clock stamp device_id duration end (find (watches device_id) d.watches) d

abbrev limit_for : UserRole → ℕ → ℕ
limit_for admin limit = 0
limit_for user limit = limit

abbrev is_user : UserRole → Bool
is_user user = true
is_user admin = false

abbrev audit_status : IncidentStatus → String
audit_status resolved = "解决异常"
audit_status unhandled = "重新打开异常"
audit_status acknowledged = "确认异常"

abbrev refreshed_pile : String → Pile → Pile
refreshed_pile at p = if p.online then record p { updated_at = at } else p

unfoldable pub apply : Clock → (stamp : ℕ) → Change → PrototypeData → PrototypeData
unfolding act update_first add_audit save_watch_in
apply clock stamp (did action) d = act stamp action d
apply clock stamp (edit_pile id identifier name address) d = record d {
  piles =
      update_first (λ (p : Pile). str_eq p.id id)
        (λ (p : Pile). record p { name = name_or name identifier; address = trim address }) d.piles;
}
apply clock stamp (add_pile afresh identifier name address) d =
    let d' = emptied afresh d in
    record d' {
      piles = d'.piles ++ (new_pile identifier name address d'.snapshot_at (length d'.piles) ∷ []);
    }
apply clock stamp (save_watch device_id duration end) d = record d {
  watches = save_watch_in clock stamp device_id duration end d;
}
apply clock stamp update_cookie d = settle_credential healthy d
apply clock stamp change_password d = record d { other_sessions = false }
apply clock stamp (create_user id username role limit refresh_enabled) d =
    add_audit stamp success "创建用户" username (record d {
      users =
          d.users
          ++ (record {
            id = id;
            username = username;
            role = role;
            enabled = true;
            device_count = 0;
            device_limit = limit_for role limit;
            refresh_enabled = is_user role && refresh_enabled;
            credential = unbound;
            last_active = "尚未登录";
            requests = 0;
            sessions = 0;
          }
              ∷ []);
    })
apply clock stamp (create_invite code expires) d = add_audit stamp success "创建邀请码" code (record d {
  invites =
      record {
        id = concat ("invite-" ∷ decimal stamp ∷ []);
        code = code;
        expires = expires;
        enabled = true;
        uses = 0;
      }
      ∷ d.invites;
})
apply clock stamp refresh_snapshot d =
    let at = later clock 60000 d.snapshot_at in
    record d { snapshot_at = at; piles = map (refreshed_pile at) d.piles }
apply clock stamp (save_user id username limit role) d =
    add_audit stamp success "更新用户权限与额度" username (record d {
      users =
          update_first (λ (u : DemoUser). str_eq u.id id)
            (λ (u : DemoUser). record u { device_limit = limit; role = role }) d.users;
    })
apply clock stamp (update_incident id title note status) d =
    add_audit stamp success (audit_status status) title (record d {
      incidents =
          update_first (λ (i : DemoIncident). str_eq i.id id)
            (λ (i : DemoIncident). record i { note = note; status = status }) d.incidents;
    })
apply clock stamp (save_policies draft) d =
    add_audit stamp success "更新系统策略" "注册、提醒与数据保留" (record d { settings = draft })
apply clock stamp (save_quiet start end) d = record d { quiet_start = start; quiet_end = end }
