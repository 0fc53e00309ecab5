-- ===== src/Notifications/Semantics.antt =====
-- frontend/lib/notification-semantics.ts: which notifications ask for an action, and their wording.
use charge_api.Prelude.{
  Bool, true, false, Option, none, some, String, if◌then◌else◌, [], ◌∷◌, is_nonzero, concat,
  decimal, get_or, is_truthy,
}
use charge_api.Api.{
  Notification, NotificationType, pile_available, credential_expired, pile_offline, pile_recovered,
  NotificationDeliverySummary, NotificationDeliveryStatus, NotificationDeliveryUserState, queued,
  submitted, processed, suppressed, failed, cancelled, unknown,
}

pub data NotificationActionLifecycle : Type 0 where
  informational action_required : NotificationActionLifecycle

unfoldable pub notification_action_lifecycle : NotificationType → NotificationActionLifecycle
notification_action_lifecycle credential_expired = action_required
notification_action_lifecycle pile_offline = action_required
notification_action_lifecycle pile_available = informational
notification_action_lifecycle pile_recovered = informational

abbrev is_action_required : NotificationActionLifecycle → Bool
is_action_required action_required = true
is_action_required informational = false

unfoldable pub notification_requires_action : NotificationType → Bool
unfolding notification_action_lifecycle
notification_requires_action type = is_action_required (notification_action_lifecycle type)

pub record Presentation : Type 0 where
  pub title : String
  pub message : String

unfoldable pub notification_presentation : Notification → Presentation
notification_presentation n = elim n.type [
  | pile_available ↦ record {
    title =
        if is_nonzero n.port_id
        then concat (decimal (get_or n.port_id 0) ∷ " 号充电口空闲了" ∷ [])
        else "有空闲充电口";
    message = n.message;
  }
  | credential_expired ↦ record { title = "需要重新登录"; message = "登录已过期，请重新扫码后继续查看和接收提醒。" }
  | pile_offline ↦ record { title = "充电桩无法连接"; message = n.message }
  | pile_recovered ↦ record { title = "充电桩恢复连接"; message = n.message }
]

-- The states shown to the user have the constructors of the server's own user states.
abbrev pub DeliveryPresentationState : Type 0
DeliveryPresentationState = NotificationDeliveryUserState

-- `delivery.status` alone, where the server sent no `userState`.
from_status : NotificationDeliveryStatus → Option String → DeliveryPresentationState
from_status NotificationDeliveryStatus.pending _ = queued
from_status NotificationDeliveryStatus.sending _ = queued
from_status NotificationDeliveryStatus.retry_wait _ = queued
from_status NotificationDeliveryStatus.accepted _ = submitted
from_status NotificationDeliveryStatus.provider_succeeded _ = processed
from_status NotificationDeliveryStatus.suppressed _ = suppressed
from_status NotificationDeliveryStatus.failed _ = failed
from_status NotificationDeliveryStatus.cancelled _ = cancelled
from_status NotificationDeliveryStatus.uncertain accepted_at =
    if is_truthy accepted_at then submitted else unknown

unfoldable pub delivery_presentation_state : NotificationDeliverySummary → DeliveryPresentationState
unfolding from_status
delivery_presentation_state delivery = elim delivery.user_state [
  | some state ↦ state
  | none ↦ from_status delivery.status delivery.accepted_at
]

message_of : DeliveryPresentationState → String
message_of queued = "等待发送"
message_of submitted = "已发送，请检查手机"
message_of processed = "已发送，请检查手机"
message_of suppressed = "免打扰时段未发送"
message_of failed = "发送失败"
message_of cancelled = "已取消"
message_of unknown = "发送结果暂时无法确认"

unfoldable pub delivery_presentation_message : NotificationDeliverySummary → String
unfolding delivery_presentation_state message_of
delivery_presentation_message delivery = message_of (delivery_presentation_state delivery)
