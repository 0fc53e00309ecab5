-- ===== src/Api.antt =====
-- The schema types that the client exchanges with the server (frontend/lib/api/generated.ts), for
-- notifications and for idle reminders. A date-time is the text that the server sent.
pub mod Binding
pub mod Channel
use charge_api.Prelude.{ℕ, Bool, Option, String, List}

pub data NotificationType : Type 0 where
  pile_available credential_expired pile_offline pile_recovered : NotificationType

pub data NotificationSeverity : Type 0 where
  info warning critical : NotificationSeverity

pub data NotificationStatusFilter : Type 0 where
  all unread pending resolved : NotificationStatusFilter

pub record Notification : Type 0 where
  pub created_at : String
  pub device_id : Option String
  pub id : String
  pub last_occurred_at : String
  pub message : String
  pub occurrence_count : ℕ
  pub port_id : Option ℕ
  pub read_at : Option String
  pub resolved_at : Option String
  pub severity : NotificationSeverity
  pub source_event_id : Option ℕ
  pub title : String
  pub type : NotificationType
  pub user_id : String

pub record NotificationPage : Type 0 where
  pub items : List Notification
  pub next_cursor : Option String
  pub unread_count : ℕ

pub record NotificationPreference : Type 0 where
  pub browser_enabled : Bool
  pub quiet_end_minute : ℕ
  pub quiet_hours_enabled : Bool
  pub quiet_start_minute : ℕ
  pub timezone : String
  pub updated_at : String
  pub user_id : String

pub record NotificationPreferenceUpdateRequest : Type 0 where
  pub browser_enabled : Option Bool
  pub quiet_end_minute : Option ℕ
  pub quiet_hours_enabled : Option Bool
  pub quiet_start_minute : Option ℕ
  pub timezone : Option String

pub data NotificationDeliveryStatus : Type 0 where
  pending sending accepted provider_succeeded retry_wait : NotificationDeliveryStatus
  suppressed uncertain failed cancelled : NotificationDeliveryStatus

pub data NotificationDeliveryUserState : Type 0 where
  queued submitted processed suppressed failed cancelled unknown : NotificationDeliveryUserState

pub data WxPusherErrorCode : Type 0 where
  rate_limited invalid_token invalid_uid recipient_rejected provider_unavailable : WxPusherErrorCode
  timeout invalid_response ambiguous_result storage_unavailable : WxPusherErrorCode

pub record NotificationDeliverySummary : Type 0 where
  pub accepted_at : Option String
  pub created_at : String
  pub error_code : Option WxPusherErrorCode
  pub id : String
  pub is_test : Bool
  pub message : String
  pub provider_succeeded_at : Option String
  pub status : NotificationDeliveryStatus
  pub updated_at : String
  pub user_state : Option NotificationDeliveryUserState

pub data WatchTemporaryDuration : Type 0 where
  one_hour two_hours four_hours until_power_off : WatchTemporaryDuration

pub data WatchRuleMode : Type 0 where
  temporary recurring : WatchRuleMode

pub data WatchCompletionReason : Type 0 where
  notified expired cancelled : WatchCompletionReason

pub record WatchRule : Type 0 where
  pub active_end_minute : ℕ
  pub active_start_minute : ℕ
  pub active_weekdays : ℕ
  pub completed_at : Option String
  pub completion_reason : Option WatchCompletionReason
  pub created_at : String
  pub device_id : String
  pub enabled : Bool
  pub estimated_remaining_checks : Option ℕ
  pub expires_at : Option String
  pub id : String
  pub mode : WatchRuleMode
  pub next_check_at : Option String
  pub stop_after_notify : Bool
  pub timezone : String
  pub updated_at : String
  pub user_id : String

pub record WatchOverview : Type 0 where
  pub account_refresh_enabled : Bool
  pub background_reminders_enabled : Bool
  pub daily_quota_limit : ℕ
  pub daily_quota_used : ℕ
  pub quota_date : String
  pub refresh_interval_minutes : ℕ
  pub reminder_pile_count : ℕ
  pub reminder_pile_limit : ℕ
  pub scheduled_power_off_enabled : Bool
  pub scheduled_power_off_end_minute : ℕ
  pub scheduled_power_off_start_minute : ℕ
  pub scheduled_power_off_timezone : String

pub record WatchRuleCreateRequest : Type 0 where
  pub device_id : String
  pub duration : Option WatchTemporaryDuration

pub record WatchRuleCreateResult : Type 0 where
  pub background_scheduled : Bool
  pub idle_port_ids : List ℕ
  pub message : String
  pub rule : Option WatchRule

pub record WatchRuleUpdateRequest : Type 0 where
  pub cancel : Option Bool
  pub duration : Option WatchTemporaryDuration
