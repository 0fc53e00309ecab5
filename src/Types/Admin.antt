-- ===== src/Types/Admin.antt =====
-- The types of the administration in frontend/lib/types.ts.
use charge_api.Prelude.{ℕ, Bool, Option, String, List}
use charge_api.Types.{Decimal, CurrentUser, DashboardCounters, RefreshInfo}

pub record TrafficStats : Type 0 where
  pub total_requests : ℕ
  pub refresh_requests : ℕ
  pub remote_fetches : ℕ
  pub cached_refreshes : ℕ
  pub failed_requests : ℕ
  pub auth_failures : ℕ
  pub last_request_at : Option String
  pub last_remote_fetch_at : Option String
  pub last_failed_at : Option String
  pub last_auth_failure_at : Option String
  pub last_remote_ok_at : Option String

pub data CredentialState : Type 0 where
  unbound waiting_device healthy sync_failed expired : CredentialState

pub record CredentialSummary : Type 0 where
  pub state : CredentialState
  pub bound : Bool
  pub has_credential : Bool
  pub last_checked_at : Option String

pub data RecoveryOperation : Type 0 where
  credential_recovery add_pile refresh update_cookie scan_login sync_cookie : RecoveryOperation
  auth_protection : RecoveryOperation

pub record RecoveryDiagnostic : Type 0 where
  pub operation : RecoveryOperation
  pub code : String
  pub message : String
  pub device_suffix : Option String
  pub status_code : Option ℕ
  pub at : String

pub record AdminUserSummary : Type 0 where
  pub user : CurrentUser
  pub stats : TrafficStats
  pub dashboard : DashboardCounters
  pub device_ids : List String
  pub has_cookie : Bool
  pub credential : CredentialSummary
  pub snapshot_updated_at : String
  pub last_refresh : RefreshInfo
  pub recovery_diagnostics : Option (List RecoveryDiagnostic)

pub data AdminAccountFilter : Type 0 where
  all enabled disabled : AdminAccountFilter

pub data AdminHealthFilter : Type 0 where
  all healthy risk : AdminHealthFilter

pub data AdminCredentialFilter : Type 0 where
  all : AdminCredentialFilter
  only : CredentialState → AdminCredentialFilter

pub record AdminUserListQuery : Type 0 where
  pub page : ℕ
  pub page_size : ℕ
  pub search : String
  pub account : AdminAccountFilter
  pub credential : AdminCredentialFilter
  pub health : AdminHealthFilter

pub record RegistrationSettings : Type 0 where
  pub open_registration : Bool
  pub invite_required : Bool
  pub default_device_limit : ℕ
  pub default_refresh_enabled : Bool
  pub stats_retention_days : ℕ
  pub port_history_retention_days : ℕ
  pub background_reminders_enabled : Bool
  pub recurring_reminders_enabled : Bool
  pub watch_refresh_interval_minutes : ℕ
  pub watch_pile_limit_per_user : ℕ
  pub watch_daily_refresh_quota : ℕ
  pub notification_retention_days : ℕ
  pub scheduled_power_off_enabled : Bool
  pub scheduled_power_off_start_minute : ℕ
  pub scheduled_power_off_end_minute : ℕ
  pub scheduled_power_off_timezone : String
  pub power_restore_jitter_minutes : ℕ

pub data HealthState : Type 0 where
  healthy degraded unavailable : HealthState

pub record ServiceHealth : Type 0 where
  pub state : HealthState
  pub message : String
  pub recovery_advice : Option String
  pub last_recovered_at : Option String
  pub availability24_hours : Option Decimal
  pub consecutive_failures : Option ℕ

pub record AdminHealth : Type 0 where
  pub checked_at : String
  pub charge : ServiceHealth
  pub database : ServiceHealth
  pub yyb : ServiceHealth

pub data IncidentStatus : Type 0 where
  open_status acknowledged resolved : IncidentStatus

pub record SystemException : Type 0 where
  pub id : String
  pub user_id : String
  pub username : String
  pub device_id : Option String
  pub type : String
  pub level : String
  pub message : String
  pub status : IncidentStatus
  pub note : Option String
  pub occurrences : ℕ
  pub handled_by : Option String
  pub handled_at : Option String
  pub first_seen_at : String
  pub time : String
