-- ===== src/Piles.antt =====
-- frontend/components/workbench/dashboard-workbench.tsx: the page of the user's piles. The React state of
-- the page is one record, that of the pile shown another (Piles/Detail). A request, a message and a change
-- of the address are effects; the reply to a request is a function of its own.
pub mod Order
pub mod Detail
pub mod Moves
mod Tests
use charge_api.Prelude.{
  ℕ, ◌+◌, ◌==◌, Bool, true, false, not, ◌&&◌, ◌||◌, Option, none, some, String, List, [], ◌∷◌, map,
  filter, any, length, str_eq, concat, is_some, is_truthy, ltb, get_or, if◌then◌else◌,
}
use charge_api.Types.{Pile, RefreshInfo, DashboardSnapshot}
use charge_api.Api.{WatchRule, WatchRuleMode, temporary, recurring}
use charge_api.Http.{Reason, Settled, resolved, rejected, message_of}
use charge_api.Auth.{is_unauthorized}
use charge_api.Feedback.{ToastKind, success, warning}
use charge_api.Dashboard.Store.{StreamState, error}
use charge_api.Workbench.Selection.{Counts, Hit, port_counts}
use charge_api.Piles.Order.{Direction, moved}

pub record State : Type 0 where
  pub refreshing : Bool
  pub reordering : Bool
  pub refresh_error : String
  pub watch_pile_id : Option String

pub data Effect : Type 0 where
  refresh_from_capture clear_session : Effect
  reorder_piles : (ids : List String) → Effect
  replace push : (path : String) → Effect
  -- `notify.success` and `notify.warning`, with a description; `notify.error`, with its title.
  tell : ToastKind → (title : String) → (description : Option String) → Effect
  tell_error : Reason → (title : String) → Effect

unfoldable pub initial : State
initial = record {
  refreshing = false;
  reordering = false;
  refresh_error = "";
  watch_pile_id = none;
}

abbrev pub is_incomplete : RefreshInfo → Bool
is_incomplete info = info.partial || ltb 0 info.failed_devices

-- `selectedId ? piles.find(…) : entries[0]?.pile`.
abbrev find_pile : String → List Pile → Option Pile
find_pile id [] = none
find_pile id (p ∷ piles) = if str_eq p.id id then some p else find_pile id piles

abbrev first_pile : List Hit → Option Pile
first_pile [] = none
first_pile (hit ∷ _) = some hit.pile

abbrev by_id : Bool → String → List Pile → List Hit → Option Pile
by_id true id piles entries = find_pile id piles
by_id false id piles entries = first_pile entries

unfoldable pub selected : Option String → List Pile → List Hit → Option Pile
selected selected_id piles entries =
    by_id (is_truthy selected_id) (get_or selected_id "") piles entries

abbrev is_error : StreamState → Bool
is_error error = true
is_error _ = false

-- `session_error` is the error of the visit.
unfoldable pub stale :
    (online : Bool) (session_error : Option String) → StreamState → RefreshInfo → State → Bool
stale online session_error stream_state info s =
    not online
    || is_truthy session_error
    || not (str_eq s.refresh_error "")
    || is_error stream_state
    || is_incomplete info

unfoldable pub available : List Pile → ℕ
unfolding port_counts
available piles = length (filter (λ p. p.online && ltb 0 (port_counts p).idle) piles)

abbrev is_temporary : WatchRuleMode → Bool
is_temporary temporary = true
is_temporary recurring = false

abbrev pub is_active : WatchRule → Bool
is_active rule = is_temporary rule.mode && rule.enabled && not (is_truthy rule.completed_at)

unfoldable pub active_rules : List WatchRule → List WatchRule
active_rules = filter is_active

-- `refresh`, up to the request and from the reply. A session that has ended leaves no message.
unfoldable pub refresh_begin : State → State × List Effect
refresh_begin s = (record s { refreshing = true; refresh_error = "" }, refresh_from_capture ∷ [])

-- `message || other`.
abbrev pub message_or : Option String → String → String
message_or message other = if is_truthy message then get_or message other else other

abbrev pub some_message : Option String → Option String
some_message message = if is_truthy message then message else none

unfoldable pub refresh_settle : Settled DashboardSnapshot → State → State × List Effect
refresh_settle (resolved result) s = (
  record s { refreshing = false },
  (if is_incomplete result.refresh
        then tell warning "部分设备未能更新" (some (message_or result.refresh.message "未成功的设备保留最近快照。"))
        else tell success (if result.refresh.cached then "正在使用最近一次快照" else "设备状态已更新")
            (some_message result.refresh.message))
      ∷ [],
)
refresh_settle (rejected reason) s =
    if is_unauthorized reason
    then (record s { refreshing = false }, clear_session ∷ replace "/login" ∷ [])
    else (
      record s { refreshing = false; refresh_error = message_of reason },
      tell_error reason "刷新失败，已保留最近快照" ∷ [],
    )

abbrev reorder_with : Option (List String) → State → State × List Effect
reorder_with none s = (s, [])
reorder_with (some ids) s = (record s { reordering = true }, reorder_piles ids ∷ [])

-- `move`, up to the request and from the reply.
unfoldable pub move_begin : Direction → String → List Pile → State → State × List Effect
unfolding moved
move_begin direction id piles s = reorder_with (moved direction id (map (λ p. p.id) piles)) s

unfoldable pub move_settle : Settled (Unit {0}) → State → State × List Effect
move_settle (resolved u) s = (record s { reordering = false }, tell success "常用桩顺序已保存" none ∷ [])
move_settle (rejected reason) s = (record s { reordering = false }, tell_error reason "排序未保存" ∷ [])

unfoldable pub remind :
    (encode : String → String) → List WatchRule → Pile → State → State × List Effect
unfolding active_rules
remind encode rules pile s =
    if any (λ rule. str_eq rule.device_id pile.id) (active_rules rules)
    then (s, push (concat ("/dashboard/reminders?pile=" ∷ encode pile.id ∷ [])) ∷ [])
    else (record s { watch_pile_id = some pile.id }, [])
