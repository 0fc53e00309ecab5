-- ===== src/Channel.antt =====
-- frontend/components/wxpusher-channel-card.tsx: reminders by WxPusher. The React state and the refs of
-- the card are one record. A request, and a message to the user, is an effect; the reply to a request
-- is a function of its own, on the state of that moment.
pub mod Texts
pub mod Binding
pub mod Settings
pub mod Refresh
pub mod Polls
pub mod Choices
mod Tests
use charge_api.Prelude.{
  ℕ, ◌==◌, Bool, true, false, not, ◌&&◌, ◌||◌, Option, none, some, String, List, [], ◌∷◌, ℤ, any,
  is_some, if◌then◌else◌,
}
use charge_api.Api.{
  NotificationDeliveryStatus, NotificationDeliverySummary, pending, sending, accepted,
  provider_succeeded, retry_wait, suppressed, uncertain, failed, cancelled,
}
use charge_api.Api.Channel.{WxPusherBindSession, WxPusherChannelState, WxPusherChannelUpdateRequest}
use charge_api.Http.{Reason, Settled, resolved, rejected}
use charge_api.Feedback.{ToastKind}

pub record State : Type 0 where
  pub channel : Option WxPusherChannelState
  pub loading : Bool
  pub load_failed : Bool
  pub binding : Bool
  pub session : Option WxPusherBindSession
  pub bind_open : Bool
  pub confirm_unbind : Bool
  pub unbinding : Bool
  pub pending_setting : Option String
  pub testing : Bool
  pub rechecking : Option String
  -- Milliseconds, as `Date.now()`.
  pub now : ℤ
  -- `abortRef`: the controller of the poll on its way, by the number of its creation.
  pub abort_ref : Option ℕ
  pub poll_in_flight : Bool
  pub channel_load_in_flight : Bool
  -- The controllers that were aborted, and the number of the next one.
  pub aborted : List ℕ
  pub next_controller : ℕ

unfoldable pub initial : ℤ → State
initial now = record {
  channel = none;
  loading = false;
  load_failed = false;
  binding = false;
  session = none;
  bind_open = false;
  confirm_unbind = false;
  unbinding = false;
  pending_setting = none;
  testing = false;
  rechecking = none;
  now = now;
  abort_ref = none;
  poll_in_flight = false;
  channel_load_in_flight = false;
  aborted = [];
  next_controller = 0;
}

pub data Effect : Type 0 where
  get_channel create_session delete_channel test_channel recheck_test : Effect
  poll_session : (id : String) → (controller : ℕ) → Effect
  update_channel : WxPusherChannelUpdateRequest → Effect
  -- `notify.success` and `notify.info`, with a description and an identifier.
  tell : ToastKind → (title : String) → (description id : Option String) → Effect
  -- `notify.error`, with its title and identifier.
  tell_error : Reason → (title : String) → (id : Option String) → Effect

-- `terminalDeliveryStatuses.has(status)`.
abbrev pub is_terminal : NotificationDeliveryStatus → Bool
is_terminal provider_succeeded = true
is_terminal suppressed = true
is_terminal uncertain = true
is_terminal failed = true
is_terminal cancelled = true
is_terminal _ = false

abbrev pub is_pending : Option NotificationDeliverySummary → Bool
is_pending none = false
is_pending (some delivery) = not (is_terminal delivery.status)

abbrev pending_in : Option WxPusherChannelState → Bool
pending_in none = false
pending_in (some c) = is_pending c.last_delivery || is_pending c.last_test_delivery

unfoldable pub has_pending_delivery : State → Bool
has_pending_delivery s = not s.load_failed && pending_in s.channel

-- `loadChannel`, up to the request and from the reply. A load on its way is not repeated.
unfoldable pub load_channel_begin : State → State × List Effect
load_channel_begin s =
    if s.channel_load_in_flight
    then (s, [])
    else (record s { channel_load_in_flight = true; loading = true }, get_channel ∷ [])

unfoldable pub load_channel_settle : Settled WxPusherChannelState → State → State
load_channel_settle (resolved channel) s = record s {
  channel = some channel;
  load_failed = false;
  channel_load_in_flight = false;
  loading = false;
}
load_channel_settle (rejected reason) s = record s {
  load_failed = true;
  channel_load_in_flight = false;
  loading = false;
}

-- The guard of the first load; `active`: the card is shown.
unfoldable pub is_load_due : Bool → State → Bool
is_load_due active s = active && not (is_some s.channel) && not s.loading && not s.load_failed
