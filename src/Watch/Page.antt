-- ===== src/Watch/Page.antt =====
-- frontend/components/workbench/reminders-page.tsx: the page of the reminders.
use charge_api.Prelude.{
  ◌+◌, ◌≡◌, refl, arith, Bool, true, false, not, ◌&&◌, ◌||◌, Option, none, some, String, List, [],
  ◌∷◌, filter, length, str_eq, concat, trim, is_truthy, get_or, if◌then◌else◌,
}
use charge_api.Types.{Pile}
use charge_api.Api.{
  WatchRule, WatchRuleMode, temporary, recurring, WatchOverview, WatchTemporaryDuration, two_hours,
}
use charge_api.Http.{Settled, resolved, rejected, message_of}
use charge_api.Workbench.Selection.{includes}

abbrev is_temporary : WatchRuleMode → Bool
is_temporary temporary = true
is_temporary recurring = false

abbrev pub is_active : WatchRule → Bool
is_active rule = is_temporary rule.mode && rule.enabled && not (is_truthy rule.completed_at)

abbrev pub is_completed : WatchRule → Bool
is_completed rule = not (is_temporary rule.mode) || is_truthy rule.completed_at || not rule.enabled

-- The two tabs.
unfoldable pub active : List WatchRule → List WatchRule
active = filter is_active

unfoldable pub completed : List WatchRule → List WatchRule
completed = filter is_completed

pub data Tab : Type 0 where
  active_tab ended_tab : Tab

-- `params.get("view") === "ended" ? "ended" : "active"`.
unfoldable pub tab_of : Option String → Tab
tab_of none = active_tab
tab_of (some view) = if str_eq view "ended" then ended_tab else active_tab

abbrev pub rules_of : Tab → List WatchRule → List WatchRule
unfolding active completed
rules_of active_tab rules = active rules
rules_of ended_tab rules = completed rules

abbrev find_pile : String → List Pile → Option Pile
find_pile id [] = none
find_pile id (p ∷ piles) = if str_eq p.id id then some p else find_pile id piles

abbrev searched : Option Pile → WatchRule → String
searched none rule = concat ("" ∷ " " ∷ "" ∷ " " ∷ rule.device_id ∷ [])
searched (some p) rule = concat (p.name ∷ " " ∷ p.number ∷ " " ∷ rule.device_id ∷ [])

-- `!pileFilter || rule.deviceId === pileFilter`.
abbrev on_pile : Option String → WatchRule → Bool
on_pile pile_filter rule =
    not (is_truthy pile_filter) || str_eq rule.device_id (get_or pile_filter "")

-- `to_lower_case` is `toLocaleLowerCase`.
unfoldable pub items :
    (to_lower_case : String → String)
    → Tab
    → Option String
    → (query : String) → List Pile
    → List WatchRule
    → List WatchRule
items to_lower_case tab pile_filter query piles rules =
    filter
      (λ rule.
        includes (to_lower_case (searched (find_pile rule.device_id piles) rule))
          (to_lower_case (trim query)))
      (filter (on_pile pile_filter) (rules_of tab rules))

abbrev blocked : Option WatchOverview → Bool
blocked none = true
blocked (some overview) =
    not overview.background_reminders_enabled || not overview.account_refresh_enabled

abbrev is_empty : List Pile → Bool
is_empty [] = true
is_empty (_ ∷ _) = false

-- Whether no reminder can be made.
unfoldable pub is_disabled : (online : Bool) → Option WatchOverview → List Pile → Bool
is_disabled online overview piles = not online || blocked overview || is_empty piles

pub data ActionKind : Type 0 where
  extend cancel delete : ActionKind

pub record State : Type 0 where
  pub action : Option (ActionKind × WatchRule)
  pub duration : WatchTemporaryDuration
  pub busy : Bool
  pub action_error : String

pub data Effect : Type 0 where
  delete_rule : (id : String) → Effect
  cancel_rule : (id : String) → Effect
  extend_rule : (id : String) → WatchTemporaryDuration → Effect
  tell_success : (title : String) → Effect

-- `openAction`.
unfoldable pub open_action : ActionKind → WatchRule → State → State
open_action kind rule s = record s {
  action_error = "";
  duration = two_hours;
  action = some (kind, rule);
}

abbrev request_of : ActionKind → WatchRule → WatchTemporaryDuration → Effect
request_of delete rule duration = delete_rule rule.id
request_of cancel rule duration = cancel_rule rule.id
request_of extend rule duration = extend_rule rule.id duration

abbrev pub notice : ActionKind → String
notice delete = "提醒记录已删除"
notice cancel = "这次提醒已取消"
notice extend = "提醒时长已更新"

abbrev apply_with : Option (ActionKind × WatchRule) → State → State × List Effect
apply_with none s = (s, [])
apply_with (some (kind, rule)) s =
    (record s { busy = true; action_error = "" }, request_of kind rule s.duration ∷ [])

-- `apply`, up to the request and from the reply; `kind` is that of the action that was applied.
unfoldable pub apply_begin : State → State × List Effect
apply_begin s = apply_with s.action s

unfoldable pub apply_settle : ActionKind → Settled (Unit {0}) → State → State × List Effect
apply_settle kind (resolved u) s =
    (record s { action = none; busy = false }, tell_success (notice kind) ∷ [])
apply_settle kind (rejected reason) s =
    (record s { action_error = message_of reason; busy = false }, [])

-- Every reminder stands in exactly one of the two tabs.
tabs_partition :
    (rules : List WatchRule)
    → ((rule : WatchRule) → is_completed rule ≡ not (is_active rule))
      × (length (active rules) + length (completed rules) ≡ length rules)
unfolding active completed
tabs_partition rules = (opposite, counted rules)
  where
    opposite : (rule : WatchRule) → is_completed rule ≡ not (is_active rule)
    opposite rule = ground arith

    counted :
        (rules : List WatchRule)
        → length (filter is_active rules) + length (filter is_completed rules) ≡ length rules
    counted [] = refl
    counted (rule ∷ rules) = ground (arith, counted rules, opposite rule)
