-- ===== src/Channel/Settings.antt =====
-- The settings of the channel and its test messages, in frontend/components/wxpusher-channel-card.tsx.
use charge_api.Prelude.{
  Bool, true, false, Option, none, some, String, List, [], ◌∷◌, filter, map, any, if◌then◌else◌,
}
use charge_api.Api.{NotificationDeliverySummary, NotificationDeliveryUserState}
use charge_api.Api.Channel.{
  WxPusherEventType, pile_available, credential_expired, pile_offline, pile_recovered,
  WxPusherChannelState,
}
use charge_api.Http.{Settled, resolved, rejected, other_error}
use charge_api.Feedback.{success, info}
use charge_api.Notifications.Semantics.{delivery_presentation_state, DeliveryPresentationState}
use charge_api.Channel.{
  State, Effect, delete_channel, test_channel, recheck_test, update_channel, tell, tell_error,
}

-- `eventOptions`.
pub record EventOption : Type 0 where
  pub value : WxPusherEventType
  pub label : String
  pub description : String

unfoldable pub event_options : List EventOption
event_options =
    record { value = pile_available; label = "有空闲充电口"; description = "你正在等待的充电桩出现空闲口时通知你。" }
    ∷ record { value = credential_expired; label = "需要重新登录"; description = "登录过期、需要重新扫码时通知你。" }
    ∷ record { value = pile_offline; label = "充电桩无法连接"; description = "在正常供电时段内，多次无法连接充电桩时通知你。" }
    ∷ record { value = pile_recovered; label = "充电桩恢复连接"; description = "此前无法连接的充电桩恢复后通知你。" }
    ∷ []

abbrev pub same_event : WxPusherEventType → WxPusherEventType → Bool
same_event pile_available pile_available = true
same_event credential_expired credential_expired = true
same_event pile_offline pile_offline = true
same_event pile_recovered pile_recovered = true
same_event _ _ = false

abbrev pub has_event : WxPusherEventType → List WxPusherEventType → Bool
has_event t = any (λ u. same_event u t)

-- `selected`, after `add` or `delete`: whether it has a type.
abbrev pub is_selected :
    WxPusherEventType → Bool → List WxPusherEventType → WxPusherEventType → Bool
is_selected event_type enabled event_types t =
    if same_event event_type t then enabled else has_event t event_types

-- The types that are sent.
unfoldable pub chosen_events :
    WxPusherEventType → Bool → List WxPusherEventType → List WxPusherEventType
unfolding event_options
chosen_events event_type enabled event_types =
    filter (is_selected event_type enabled event_types) (map (λ o. o.value) event_options)

abbrev pub event_name : WxPusherEventType → String
event_name pile_available = "pile_available"
event_name credential_expired = "credential_expired"
event_name pile_offline = "pile_offline"
event_name pile_recovered = "pile_recovered"

-- `toggleEvent`; the channel is that of the render.
unfoldable pub toggle_event_begin :
    Option WxPusherChannelState → WxPusherEventType → Bool → State → State × List Effect
unfolding chosen_events
toggle_event_begin none event_type enabled s = (s, [])
toggle_event_begin (some channel) event_type enabled s = (
  record s { pending_setting = some (event_name event_type) },
  update_channel (record {
    enabled = none;
    event_types = some (chosen_events event_type enabled channel.event_types);
  })
      ∷ [],
)

unfoldable pub toggle_event_settle : Settled WxPusherChannelState → State → State × List Effect
toggle_event_settle (resolved updated) s = (
  record s { channel = some updated; pending_setting = none },
  tell success "微信接收内容已更新" none none ∷ [],
)
toggle_event_settle (rejected reason) s =
    (record s { pending_setting = none }, tell_error reason "更新接收内容失败" none ∷ [])

unfoldable pub set_enabled_begin : Bool → State → State × List Effect
set_enabled_begin enabled s = (
  record s { pending_setting = some "enabled" },
  update_channel (record { enabled = some enabled; event_types = none }) ∷ [],
)

unfoldable pub set_enabled_settle :
    Bool → Settled WxPusherChannelState → State → State × List Effect
set_enabled_settle enabled (resolved updated) s = (
  record s { channel = some updated; pending_setting = none },
  tell success (if enabled then "微信提醒已开启" else "微信提醒已关闭") none none ∷ [],
)
set_enabled_settle enabled (rejected reason) s =
    (record s { pending_setting = none }, tell_error reason "更新微信提醒失败" none ∷ [])

unfoldable pub unbind_begin : State → State × List Effect
unbind_begin s = (record s { unbinding = true }, delete_channel ∷ [])

abbrev pub without_binding : Option WxPusherChannelState → Option WxPusherChannelState
without_binding none = none
without_binding (some current) =
    some (record current { bound = false; enabled = false; masked_uid = none; bound_at = none })

unfoldable pub unbind_settle : Settled (Unit {0}) → State → State × List Effect
unbind_settle (resolved u) s = (
  record s { confirm_unbind = false; channel = without_binding s.channel; unbinding = false },
  tell success "微信提醒绑定已解除" none none ∷ [],
)
unbind_settle (rejected reason) s =
    (record s { unbinding = false }, tell_error reason "解除微信绑定失败" none ∷ [])

unfoldable pub send_test_begin : State → State × List Effect
send_test_begin s = (record s { testing = true }, test_channel ∷ [])

-- `setChannel((current) => current ? { ...current, lastTestDelivery: delivery } : current)`.
abbrev pub with_test :
    NotificationDeliverySummary → Option WxPusherChannelState → Option WxPusherChannelState
with_test delivery none = none
with_test delivery (some current) = some (record current { last_test_delivery = some delivery })

abbrev test_id : Option String
test_id = some "wxpusher-test-delivery"

unfoldable pub send_test_settle : Settled NotificationDeliverySummary → State → State × List Effect
send_test_settle (resolved delivery) s = (
  record s { channel = with_test delivery s.channel; testing = false },
  tell success "测试消息正在发送" (some "发送后请检查 WxPusher App 或微信。") test_id ∷ [],
)
send_test_settle (rejected reason) s =
    (record s { testing = false }, tell_error reason "发送测试消息失败" test_id ∷ [])

unfoldable pub recheck_begin : String → State → State × List Effect
recheck_begin delivery_id s = (record s { rechecking = some delivery_id }, recheck_test ∷ [])

-- What is said of a test message, by the state that is presented.
abbrev pub recheck_notice : DeliveryPresentationState → Effect
recheck_notice NotificationDeliveryUserState.processed = tell success "测试消息已发送，请检查手机" none test_id
recheck_notice NotificationDeliveryUserState.failed =
    tell_error (other_error "请稍后重新发送；消息没有发出，不会重复收到。") "测试消息没有发出" test_id
recheck_notice NotificationDeliveryUserState.submitted =
    tell success "测试消息已发送，请检查手机" (some "请在 WxPusher App 或微信中确认是否收到。") test_id
recheck_notice _ = tell info "暂时无法确认是否已发送" (some "请先检查手机，稍后也可以重新查询。") test_id

unfoldable pub recheck_settle : Settled NotificationDeliverySummary → State → State × List Effect
unfolding delivery_presentation_state
recheck_settle (resolved delivery) s = (
  record s { channel = with_test delivery s.channel; rechecking = none },
  recheck_notice (delivery_presentation_state delivery) ∷ [],
)
recheck_settle (rejected reason) s =
    (record s { rechecking = none }, tell_error reason "查询测试消息状态失败" test_id ∷ [])
