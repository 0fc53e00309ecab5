-- ===== src/Prototype/Change.antt =====
-- The recipes that the buttons of frontend/app/prototype hand to `commit`, with the values that each closes
-- over. `stamp` is `Date.now()` where the recipe runs.
use charge_api.Prelude.{
  ℕ, ◌+◌, ◌-◌, Bool, true, false, not, ◌&&◌, ◌||◌, Option, none, some, String, List, [], ◌∷◌, ◌++◌,
  map, filter, length, str_eq, concat, decimal, ltb, if◌then◌else◌,
}
use charge_api.Types.{Port, Pile}
use charge_api.Types.Admin.{CredentialState, unbound, waiting_device, healthy}
use charge_api.Prototype.Model.{
  guest, WatchStatus, active, cancelled, NoticeType, pile_available, pile_offline, pile_recovered,
  credential_expired, DemoWatch, DemoNotice, DemoUser, resolved, DemoIncident, AuditResult, success,
  failure, DemoInvite, WxTest, no_test, queued, PrototypeData,
}
use charge_api.Prototype.Fixtures.{is_in_use}
use charge_api.Prototype.Update.{update_first, update_all, element_at, without, insert_at}

abbrev is_waiting : WatchStatus → Bool
is_waiting active = true
is_waiting _ = false

abbrev pub is_active : DemoWatch → Bool
is_active w = is_waiting w.status

abbrev pub on_device : String → DemoWatch → Bool
on_device device_id w = str_eq w.device_id device_id

abbrev pub is_type : NoticeType → NoticeType → Bool
is_type pile_available pile_available = true
is_type pile_offline pile_offline = true
is_type pile_recovered pile_recovered = true
is_type credential_expired credential_expired = true
is_type _ _ = false

abbrev pub end_watch : WatchStatus → DemoWatch → DemoWatch
end_watch status w = record w { status = status }

abbrev pub resolve : DemoNotice → DemoNotice
resolve n = record n { resolved = true }

abbrev pub read_notice : DemoNotice → DemoNotice
read_notice n = record n { read = true }

-- The notices of an expired credential are resolved.
abbrev pub settle_credential : CredentialState → PrototypeData → PrototypeData
settle_credential state d = record d {
  credential = state;
  notices = update_all (λ n. is_type n.type credential_expired) resolve d.notices;
}

-- `addAudit`, and the result of the entry.
unfoldable pub add_audit :
    ℕ → AuditResult → (action target : String) → PrototypeData → PrototypeData
add_audit stamp result action target d = record d {
  audit =
      record {
        id = concat ("audit-" ∷ decimal stamp ∷ []);
        action = action;
        target = target;
        time = "刚刚";
        result = result;
      }
      ∷ d.audit;
}

abbrev pub used_ids : List Port → List ℕ
used_ids ports = map (λ (p : Port). p.id) (filter (λ (p : Port). is_in_use p.status) ports)

pub data Action : Type 0 where
  -- dialogs.tsx: the confirmations, and the watch that is ended in its dialog.
  remove_pile : (id : String) → Action
  delete_user : (id username : String) → Action
  end_sessions log_out clear_notices unbind_wx unbind_platform : Action
  cancel_watch : (id : String) → Action
  complete_scan : (wx : Bool) → Action
  reset_password : (id username : String) → Action
  -- account.tsx.
  sync_credential : Action
  set_browser set_wx set_quiet : Bool → Action
  set_wx_event : NoticeType → (checked : Bool) → Action
  queue_test recheck_test : Action
  -- activity.tsx.
  read_all : Action
  mark_read : (id : String) → Action
  -- admin.tsx.
  enable_user : (id username : String) → Bool → Action
  allow_refresh : (id username : String) → Bool → Action
  refresh_user : (id username : String) → (expired : Bool) → Action
  toggle_invite : (id code : String) → (was_enabled : Bool) → Action
  -- piles.tsx: the pile at an index is moved by one, up or down.
  move_up move_down : ℕ → Action

abbrev has_id : String → DemoUser → Bool
has_id id u = str_eq u.id id

-- `n.resolved` of the two types that stand for a problem.
abbrev pub is_cleared : DemoNotice → Bool
is_cleared n = n.resolved && (is_type n.type pile_offline || is_type n.type credential_expired)

abbrev pub renumber_from : ℕ → List Pile → List Pile
renumber_from i [] = []
renumber_from i (p ∷ piles) = record p { sort_order = some i } ∷ renumber_from (i + 1) piles

-- `piles.splice(to, 0, piles.splice(from, 1)[0])`, and the positions written anew. The buttons give an
-- index of the list.
abbrev pub move_found : Option Pile → (from to : ℕ) → List Pile → List Pile
move_found none from to piles = piles
move_found (some p) from to piles = renumber_from 0 (insert_at to p (without from piles))

unfoldable pub move_pile : (from to : ℕ) → List Pile → List Pile
unfolding element_at
move_pile from to piles = move_found (element_at from piles) from to piles

abbrev audit_enabled : Bool → String
audit_enabled true = "启用用户"
audit_enabled false = "停用用户"

abbrev audit_invite : Bool → String
audit_invite true = "停用邀请码"
audit_invite false = "启用邀请码"

abbrev with_enabled : Bool → DemoUser → DemoUser
with_enabled true u = record u { enabled = true }
with_enabled false u = record u { enabled = false; sessions = 0 }

abbrev with_event : NoticeType → Bool → List NoticeType → List NoticeType
with_event type true events = events ++ (type ∷ [])
with_event type false events = filter (λ t. not (is_type t type)) events

abbrev scanned : Bool → PrototypeData → PrototypeData
scanned true d = record d { wx_bound = true; wx_enabled = true }
scanned false d = settle_credential (if ltb 0 (length d.piles) then healthy else waiting_device) d

abbrev user_refreshed : Bool → ℕ → (id username : String) → PrototypeData → PrototypeData
user_refreshed true stamp id username d = add_audit stamp failure "刷新失败：登录已失效" username d
user_refreshed false stamp id username d = add_audit stamp success "手动刷新用户设备" username (record d {
  users = update_first (has_id id) (λ u. record u { requests = u.requests + 1 }) d.users;
})

unfoldable pub act : ℕ → Action → PrototypeData → PrototypeData
unfolding update_first update_all add_audit move_pile without insert_at
act stamp (remove_pile id) d = record d {
  piles = filter (λ (p : Pile). not (str_eq p.id id)) d.piles;
  watches = update_all (λ w. on_device id w && is_active w) (end_watch cancelled) d.watches;
}
act stamp (delete_user id username) d =
    let d' =
      add_audit stamp success "删除用户" username
        (record d { users = filter (λ u. not (has_id id u)) d.users }) in
    record d' {
      incidents =
          update_all (λ (i : DemoIncident). str_eq i.user_id id)
            (λ (i : DemoIncident). record i { status = resolved; note = "关联账户已删除" }) d'.incidents;
    }
act stamp end_sessions d = record d { other_sessions = false }
act stamp log_out d = record d { demo_role = guest }
act stamp clear_notices d = record d { notices = filter (λ n. not (is_cleared n)) d.notices }
act stamp unbind_wx d = record d { wx_bound = false; wx_enabled = false; wx_test = no_test }
act stamp unbind_platform d = record d { credential = unbound }
act stamp (cancel_watch id) d = record d {
  watches = update_first (λ (w : DemoWatch). str_eq w.id id) (end_watch cancelled) d.watches;
}
act stamp (complete_scan wx) d = scanned wx d
act stamp (reset_password id username) d =
    add_audit stamp success "重置用户密码" username
      (record d { users = update_first (has_id id) (λ u. record u { sessions = 0 }) d.users })
act stamp sync_credential d = settle_credential healthy d
act stamp (set_browser v) d = record d { browser_enabled = v }
act stamp (set_wx v) d = record d { wx_enabled = v }
act stamp (set_quiet v) d = record d { quiet_enabled = v }
act stamp (set_wx_event type checked) d = record d {
  wx_events = with_event type checked d.wx_events;
}
act stamp queue_test d = record d { wx_test = queued }
act stamp recheck_test d = record d { wx_test = WxTest.submitted }
act stamp read_all d = record d { notices = map read_notice d.notices }
act stamp (mark_read id) d = record d {
  notices = update_first (λ (n : DemoNotice). str_eq n.id id) read_notice d.notices;
}
act stamp (enable_user id username v) d =
    add_audit stamp success (audit_enabled v) username
      (record d { users = update_first (has_id id) (with_enabled v) d.users })
act stamp (allow_refresh id username v) d =
    add_audit stamp success "调整刷新权限" username (record d {
      users = update_first (has_id id) (λ u. record u { refresh_enabled = v }) d.users;
    })
act stamp (refresh_user id username expired) d = user_refreshed expired stamp id username d
act stamp (toggle_invite id code was_enabled) d =
    add_audit stamp success (audit_invite was_enabled) code (record d {
      invites =
          update_first (λ (i : DemoInvite). str_eq i.id id)
            (λ (i : DemoInvite). record i { enabled = not i.enabled }) d.invites;
    })
act stamp (move_up index) d = record d { piles = move_pile index (index - 1) d.piles }
act stamp (move_down index) d = record d { piles = move_pile index (index + 1) d.piles }
