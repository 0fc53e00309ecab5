-- ===== src/Inbox.antt =====
-- frontend/components/workbench/notifications-page.tsx: the page of the notifications. What it asks of the
-- store (Notifications) and of the router is an effect.
pub mod Agreement
use charge_api.Prelude.{
  ℕ, ◌==◌, Bool, true, false, not, ◌&&◌, ◌||◌, Option, none, some, String, List, [], ◌∷◌, filter,
  str_eq, concat, decimal, trim, is_truthy, get_or, if◌then◌else◌,
}
use charge_api.Api.{
  Notification, NotificationType, credential_expired, NotificationStatusFilter, all, unread,
  pending, resolved,
}
use charge_api.Http.{Reason, Settled, rejected}
use charge_api.Notifications.Semantics.{notification_requires_action, notification_presentation}
use charge_api.Workbench.Selection.{includes}
use charge_api.Workbench.Query.{Params, dashboard_href}

-- The filter that the address names, or all.
unfoldable pub status_of : Option String → NotificationStatusFilter
status_of none = all
status_of (some s) =
    if str_eq s "unread"
    then unread
    else if str_eq s "pending"
    then pending
    else if str_eq s "resolved"
    then resolved
    else all

pub record State : Type 0 where
  pub opened : Option Notification
  pub read_id : Option String
  pub confirm_clear : Bool
  pub busy : Bool

pub data Effect : Type 0 where
  update_page_query : List (String × Option String) → Effect
  mark_read : (id : String) → Effect
  mark_all_read clear_resolved : Effect
  push : (path : String) → Effect
  tell_success : (title : String) → Effect
  tell_error : Reason → (title : String) → (description : Option String) → Effect

unfoldable pub initial : State
initial = record { opened = none; read_id = none; confirm_clear = false; busy = false }

abbrev find_item : String → List Notification → Option Notification
find_item id [] = none
find_item id (n ∷ ns) = if str_eq n.id id then some n else find_item id ns

abbrev opened_as : String → Option Notification → Option Notification
opened_as id none = none
opened_as id (some n) = if str_eq n.id id then some n else none

abbrev item_or : Option Notification → Option Notification → Option Notification
item_or none other = other
item_or (some n) other = some n

-- The notification that is read: of the list, or the one that was opened last.
unfoldable pub selected : Option String → List Notification → State → Option Notification
selected none items s = none
selected (some id) items s = item_or (find_item id items) (opened_as id s.opened)

abbrev is_all : NotificationStatusFilter → Bool
is_all all = true
is_all _ = false

abbrev is_unread : NotificationStatusFilter → Bool
is_unread unread = true
is_unread _ = false

abbrev is_pending : NotificationStatusFilter → Bool
is_pending pending = true
is_pending _ = false

unfoldable pub fits_status : NotificationStatusFilter → Notification → Bool
unfolding notification_requires_action
fits_status status item =
    is_all status
    || (if is_unread status
        then not (is_truthy item.read_at)
        else notification_requires_action item.type
          && (if is_pending status
              then not (is_truthy item.resolved_at)
              else is_truthy item.resolved_at))

unfoldable pub fits_query : String → Notification → Bool
unfolding notification_presentation
fits_query query item =
    includes (concat ((notification_presentation item).title ∷ " " ∷ item.message ∷ []))
      (trim query)

unfoldable pub shown : NotificationStatusFilter → String → List Notification → List Notification
unfolding fits_status fits_query
shown status query items = filter (fits_query query) (filter (fits_status status) items)

-- `open`, up to the request and from the reply.
unfoldable pub open_begin : (online : Bool) → Notification → State → State × List Effect
open_begin online item s = (
  record s { opened = some item; read_id = none },
  update_page_query (("notice", some item.id) ∷ [])
      ∷ (if not (is_truthy item.read_at) && online then mark_read item.id ∷ [] else []),
)

unfoldable pub open_settle : Notification → Settled (Unit {0}) → State → State × List Effect
open_settle item (Settled.resolved u) s = (record s { read_id = some item.id }, [])
open_settle item (rejected reason) s =
    (s, tell_error reason "暂时未能标为已读" (some "消息仍保留，可以继续查看内容。") ∷ [])

unfoldable pub read_all_begin : State → State × List Effect
read_all_begin s = (record s { busy = true }, mark_all_read ∷ [])

unfoldable pub read_all_settle : Settled ℕ → State → State × List Effect
unfolding decimal
read_all_settle (Settled.resolved count) s = (
  record s { busy = false },
  tell_success (if count == 0 then "没有未读通知" else concat ("已标记 " ∷ decimal count ∷ " 条通知为已读" ∷ []))
      ∷ [],
)
read_all_settle (rejected reason) s =
    (record s { busy = false }, tell_error reason "标记通知失败" none ∷ [])

unfoldable pub clear_begin : State → State × List Effect
clear_begin s = (record s { busy = true }, clear_resolved ∷ [])

unfoldable pub clear_settle : Settled ℕ → State → State × List Effect
unfolding decimal
clear_settle (Settled.resolved count) s = (
  record s { confirm_clear = false; busy = false },
  tell_success (concat ("已清理 " ∷ decimal count ∷ " 条已解决通知" ∷ [])) ∷ [],
)
clear_settle (rejected reason) s = (record s { busy = false }, tell_error reason "清理未完成" none ∷ [])

abbrev is_credential_expired : NotificationType → Bool
is_credential_expired credential_expired = true
is_credential_expired _ = false

-- `target`; `to_string` prints the parameters.
unfoldable pub target : (to_string : Params → String) → Notification → Effect
unfolding dashboard_href
target to_string item = push (
    if is_credential_expired item.type
    then "/account?tab=connection&connect=1"
    else dashboard_href (λ s. []) to_string item.device_id item.port_id)
