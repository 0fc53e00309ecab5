-- ===== src/Watch/Sheet.antt =====
-- frontend/components/watch-management-sheet.tsx: the sheet that manages the reminders, and the form of the
-- quiet hours in it.
use charge_api.Prelude.{
  ℕ, Bool, true, false, not, ◌&&◌, ◌||◌, Option, none, some, String, List, [], ◌∷◌, ◌++◌, filter,
  member, str_eq, is_truthy, if◌then◌else◌,
}
use charge_api.Types.{Pile}
use charge_api.Api.{
  NotificationPreference, NotificationPreferenceUpdateRequest, WatchRule, WatchRuleMode, temporary,
  recurring, WatchOverview, WatchTemporaryDuration, four_hours,
}
use charge_api.Http.{Reason, Settled, resolved, rejected}
use charge_api.Watch.Format.{minutes_to_time, time_to_minutes}

-- `pile?.name || pile?.number || deviceId`.
abbrev find_pile : String → List Pile → Option Pile
find_pile id [] = none
find_pile id (p ∷ piles) = if str_eq p.id id then some p else find_pile id piles

abbrev label_of : Option Pile → (device_id : String) → String
label_of none device_id = device_id
label_of (some p) device_id =
    if not (str_eq p.name "")
    then p.name
    else if not (str_eq p.number "")
    then p.number
    else device_id

unfoldable pub pile_label : List Pile → (device_id : String) → String
pile_label piles device_id = label_of (find_pile device_id piles) device_id

-- The form of the quiet hours.
pub record QuietForm : Type 0 where
  pub saving : Bool
  pub enabled : Bool
  pub start : String
  pub end : String

unfoldable pub quiet_form : NotificationPreference → QuietForm
unfolding minutes_to_time
quiet_form preference = record {
  saving = false;
  enabled = preference.quiet_hours_enabled;
  start = minutes_to_time preference.quiet_start_minute;
  end = minutes_to_time preference.quiet_end_minute;
}

pub data QuietEffect : Type 0 where
  save : NotificationPreferenceUpdateRequest → QuietEffect
  warn : (title : String) → QuietEffect
  tell_success : (title : String) → QuietEffect
  tell_error : Reason → (title : String) → QuietEffect

abbrev pub quiet_request : Bool → (start end : ℕ) → NotificationPreferenceUpdateRequest
quiet_request enabled start end = record {
  browser_enabled = none;
  quiet_hours_enabled = some enabled;
  quiet_start_minute = some start;
  quiet_end_minute = some end;
  timezone = some "Asia/Shanghai";
}

abbrev pub quiet_with : Option ℕ → Option ℕ → QuietForm → QuietForm × List QuietEffect
quiet_with (some start) (some end) form =
    (record form { saving = true }, save (quiet_request form.enabled start end) ∷ [])
quiet_with _ _ form = (form, warn "请选择有效的免打扰时段" ∷ [])

-- `submit`, up to the request and from the reply.
unfoldable pub quiet_begin : QuietForm → QuietForm × List QuietEffect
unfolding time_to_minutes
quiet_begin form = quiet_with (time_to_minutes form.start) (time_to_minutes form.end) form

unfoldable pub quiet_settle :
    Settled NotificationPreference → QuietForm → QuietForm × List QuietEffect
quiet_settle (resolved preference) form =
    (record form { saving = false }, tell_success "免打扰设置已保存" ∷ [])
quiet_settle (rejected reason) form =
    (record form { saving = false }, tell_error reason "保存免打扰设置失败" ∷ [])

-- The sheet. `dismissed` is the notice of the retired reminders.
pub data Kind : Type 0 where
  cancel extend delete : Kind

pub record Sheet : Type 0 where
  pub pending_rule_ids : List String
  pub cancel_candidate : Option WatchRule
  pub extend_candidate : Option WatchRule
  pub delete_candidate : Option WatchRule
  pub extend_duration : WatchTemporaryDuration
  pub dismissed : Bool

pub data Effect : Type 0 where
  cancel_rule : (id : String) → Effect
  extend_rule : (id : String) → WatchTemporaryDuration → Effect
  delete_rule : (id : String) → Effect
  succeeded : (title : String) → Effect
  failed : Reason → (title : String) → Effect
  remember_dismissal : Effect

-- `left.completedAt !== right.completedAt`, and the sign that the comparison gives: `some true` is 1. Equal
-- ones are compared by the time of the update, which `none` stands for.
abbrev same_time : Option String → Option String → Bool
same_time none none = true
same_time (some a) (some b) = str_eq a b
same_time _ _ = false

unfoldable pub compare_completed : (left right : WatchRule) → Option Bool
compare_completed left right =
    if same_time left.completed_at right.completed_at
    then none
    else some (is_truthy left.completed_at)

abbrev is_temporary : WatchRuleMode → Bool
is_temporary temporary = true
is_temporary recurring = false

unfoldable pub active_temporary : List WatchRule → List WatchRule
active_temporary =
    filter (λ (rule : WatchRule). is_temporary rule.mode && not (is_truthy rule.completed_at))

unfoldable pub completed_temporary : List WatchRule → List WatchRule
completed_temporary =
    filter (λ (rule : WatchRule). is_temporary rule.mode && is_truthy rule.completed_at)

unfoldable pub recurring_rules : List WatchRule → List WatchRule
recurring_rules = filter (λ (rule : WatchRule). not (is_temporary rule.mode))

-- `setRulePending`: a set, in the order of insertion.
unfoldable pub set_rule_pending : (id : String) → (pending : Bool) → List String → List String
set_rule_pending id true ids = if member id ids then ids else ids ++ (id ∷ [])
set_rule_pending id false ids = filter (λ other. not (str_eq other id)) ids

abbrev pub candidate : Kind → Sheet → Option WatchRule
candidate cancel s = s.cancel_candidate
candidate extend s = s.extend_candidate
candidate delete s = s.delete_candidate

abbrev pub with_candidate : Kind → Option WatchRule → Sheet → Sheet
with_candidate cancel rule s = record s { cancel_candidate = rule }
with_candidate extend rule s = record s { extend_candidate = rule }
with_candidate delete rule s = record s { delete_candidate = rule }

-- The buttons of a rule, which are disabled while it is pending; `extend` starts from four hours.
abbrev chosen : Kind → WatchRule → Sheet → Sheet
chosen extend rule s = record s { extend_duration = four_hours; extend_candidate = some rule }
chosen kind rule s = with_candidate kind (some rule) s

unfoldable pub choose : Kind → WatchRule → Sheet → Sheet
choose kind rule s = if member rule.id s.pending_rule_ids then s else chosen kind rule s

unfoldable pub go_back : Kind → Sheet → Sheet
go_back kind s = with_candidate kind none s

abbrev pub request_of : Kind → WatchRule → WatchTemporaryDuration → Effect
request_of cancel rule duration = cancel_rule rule.id
request_of extend rule duration = extend_rule rule.id duration
request_of delete rule duration = delete_rule rule.id

abbrev pub success_of : Kind → String
success_of cancel = "临时提醒已取消"
success_of extend = "临时提醒已延长"
success_of delete = "提醒记录已删除"

abbrev pub failure_of : Kind → String
failure_of cancel = "取消临时提醒失败"
failure_of extend = "延长临时提醒失败"
failure_of delete = "删除提醒记录失败"

abbrev pub confirm_with : Kind → Option WatchRule → Sheet → Sheet × List Effect
confirm_with kind none s = (s, [])
confirm_with kind (some rule) s = (
  record s { pending_rule_ids = set_rule_pending rule.id true s.pending_rule_ids },
  request_of kind rule s.extend_duration ∷ [],
)

-- `confirmCancel`, `confirmExtend` and `confirmDelete`, up to the request and from the reply; `id` is that of
-- the rule that was sent.
unfoldable pub confirm_begin : Kind → Sheet → Sheet × List Effect
unfolding set_rule_pending
confirm_begin kind s = confirm_with kind (candidate kind s) s

unfoldable pub confirm_settle :
    Kind → (id : String) → Settled (Unit {0}) → Sheet → Sheet × List Effect
unfolding set_rule_pending
confirm_settle kind id (resolved u) s = (
  record (with_candidate kind none s) {
    pending_rule_ids = set_rule_pending id false s.pending_rule_ids;
  },
  succeeded (success_of kind) ∷ [],
)
confirm_settle kind id (rejected reason) s = (
  record s { pending_rule_ids = set_rule_pending id false s.pending_rule_ids },
  failed reason (failure_of kind) ∷ [],
)

-- `dismissRecurringRetirementNotice`.
unfoldable pub dismiss : Sheet → Sheet × List Effect
dismiss s = (record s { dismissed = true }, remember_dismissal ∷ [])

-- The notice is shown while there are rules of the kind and it was not dismissed.
abbrev has_rules : List WatchRule → Bool
has_rules [] = false
has_rules (_ ∷ _) = true

unfoldable pub shows_notice : List WatchRule → Sheet → Bool
unfolding recurring_rules
shows_notice rules s = has_rules (recurring_rules rules) && not s.dismissed

-- Whether the scheduler is said to be paused.
unfoldable pub scheduler_unavailable : Option WatchOverview → Bool
scheduler_unavailable none = false
scheduler_unavailable (some overview) =
    not overview.background_reminders_enabled || not overview.account_refresh_enabled

-- The effect that loads the reminders.
unfoldable pub loads : (is_open loaded loading : Bool) → Bool
loads is_open loaded loading = is_open && not loaded && not loading
