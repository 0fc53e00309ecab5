-- ===== src/Api/Channel.antt =====
-- The schema types of the WxPusher channel (frontend/lib/api/generated.ts).
use charge_api.Prelude.{Bool, Option, String, List}
use charge_api.Api.{NotificationDeliverySummary, WxPusherErrorCode}

pub data WxPusherBindSessionStatus : Type 0 where
  waiting_scan bound expired failed : WxPusherBindSessionStatus

pub record WxPusherBindSession : Type 0 where
  pub completed_at : Option String
  pub error_code : Option WxPusherErrorCode
  pub expires_at : String
  pub id : String
  pub message : String
  pub next_poll_at : String
  pub qr_url : Option String
  pub status : WxPusherBindSessionStatus

pub data WxPusherEventType : Type 0 where
  pile_available credential_expired pile_offline pile_recovered : WxPusherEventType

pub record WxPusherChannelState : Type 0 where
  pub bound : Bool
  pub bound_at : Option String
  pub configured : Bool
  pub delivery_disclaimer : String
  pub enabled : Bool
  pub event_types : List WxPusherEventType
  pub last_delivery : Option NotificationDeliverySummary
  pub last_test_at : Option String
  pub last_test_delivery : Option NotificationDeliverySummary
  pub masked_uid : Option String

pub record WxPusherChannelUpdateRequest : Type 0 where
  pub enabled : Option Bool
  pub event_types : Option (List WxPusherEventType)
