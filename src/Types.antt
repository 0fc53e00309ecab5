-- ===== src/Types.antt =====
-- The piles and snapshots of frontend/lib/types.ts. A date-time is the text that the server sent.
pub mod Admin
use charge_api.Prelude.{ℕ, Bool, Option, String, List}

-- A number of JSON that may have a fraction: `mantissa` / 10 ^ `scale`. The client never computes
-- with these.
pub record Decimal : Type 0 where
  pub mantissa : ℕ
  pub scale : ℕ

pub data PortStatus : Type 0 where
  idle in_use offline : PortStatus

pub record Port : Type 0 where
  pub id : ℕ
  pub status : PortStatus
  pub power_kw : Decimal
  pub energy_kwh : Decimal
  pub updated_at : String
  pub started_at : Option String
  pub session_min : ℕ
  pub used_seconds : ℕ
  pub used_text : Option String
  pub remaining_text : Option String

pub record Pile : Type 0 where
  pub id : String
  pub number : String
  pub name : String
  pub status : String
  pub address : String
  pub open_num : ℕ
  pub online : Bool
  pub created_at : String
  pub updated_at : String
  pub source : String
  pub ports : List Port
  pub used_port_ids : List ℕ
  pub sort_order : Option ℕ

pub record DashboardCounters : Type 0 where
  pub pile_count : ℕ
  pub port_count : ℕ
  pub in_use_port_count : ℕ
  pub idle_port_count : ℕ
  pub offline_ports : ℕ

pub record RefreshInfo : Type 0 where
  pub last_remote_at : Option String
  pub next_remote_at : Option String
  pub next_retry_at : Option String
  pub min_interval_seconds : ℕ
  pub attempted_devices : ℕ
  pub successful_devices : ℕ
  pub failed_devices : ℕ
  pub skipped_devices : ℕ
  pub cached : Bool
  pub partial : Bool
  pub message : Option String

pub record DashboardSnapshot : Type 0 where
  pub piles : List Pile
  pub updated_at : String
  pub statistics : DashboardCounters
  pub refresh : RefreshInfo

pub data UserRole : Type 0 where
  admin user : UserRole

pub record CurrentUser : Type 0 where
  pub id : String
  pub username : String
  pub role : UserRole
  pub enabled : Bool
  pub created_at : String
  pub device_limit : ℕ
  pub refresh_enabled : Bool
  pub must_change_password : Option Bool
  pub usage_guide_ack_at : Option String
