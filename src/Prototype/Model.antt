-- ===== src/Prototype/Model.antt =====
-- The types and labels of frontend/app/prototype/model.ts. An instant is the text of its ISO form, as in the
-- source; what reads and prints such a text is a `Clock`, which stands for `Date` and `Intl` of the host.
use charge_api.Prelude.{ℕ, Bool, Option, String, List}
use charge_api.Types.{Pile}
use charge_api.Types.Admin.{CredentialState, RegistrationSettings}

pub data Scenario : Type 0 where
  ready loading empty error offline expired power_off quota : Scenario

pub data Role : Type 0 where
  user admin guest : Role

pub data Duration : Type 0 where
  one_hour two_hours four_hours until_power_off : Duration

pub data View : Type 0 where
  piles reminders notifications account login register : View
  admin users incidents operations policies invites audit : View

pub record Route : Type 0 where
  pub view : View
  pub id : Option String
  pub tab : Option String
  pub port : Option ℕ

pub data NoticeType : Type 0 where
  pile_available pile_offline pile_recovered credential_expired : NoticeType

pub data WatchStatus : Type 0 where
  active notified expired cancelled legacy : WatchStatus

pub record DemoWatch : Type 0 where
  pub id : String
  pub device_id : String
  pub duration : Duration
  pub status : WatchStatus
  pub created_at : String
  pub expires_at : String
  pub next_check_at : String

pub data Delivery : Type 0 where
  submitted queued failed suppressed no_delivery : Delivery

pub record DemoNotice : Type 0 where
  pub id : String
  pub device_id : Option String
  pub port_id : Option ℕ
  pub type : NoticeType
  pub title : String
  pub message : String
  pub created_at : String
  pub read : Bool
  pub resolved : Bool
  pub delivery : Delivery

pub data UserRole : Type 0 where
  admin user : UserRole

pub record DemoUser : Type 0 where
  pub id : String
  pub username : String
  pub role : UserRole
  pub enabled : Bool
  pub device_count : ℕ
  pub device_limit : ℕ
  pub refresh_enabled : Bool
  pub credential : CredentialState
  pub last_active : String
  pub requests : ℕ
  pub sessions : ℕ

pub data IncidentLevel : Type 0 where
  warning critical : IncidentLevel

pub data IncidentStatus : Type 0 where
  unhandled acknowledged resolved : IncidentStatus

pub record DemoIncident : Type 0 where
  pub id : String
  pub user_id : String
  pub title : String
  pub detail : String
  pub level : IncidentLevel
  pub status : IncidentStatus
  pub occurrences : ℕ
  pub time : String
  pub note : String

pub data AuditResult : Type 0 where
  success failure : AuditResult

pub record DemoAudit : Type 0 where
  pub id : String
  pub action : String
  pub target : String
  pub time : String
  pub result : AuditResult

pub record DemoInvite : Type 0 where
  pub id : String
  pub code : String
  pub enabled : Bool
  pub uses : ℕ
  pub expires : String

pub data Theme : Type 0 where
  light dark system : Theme

pub data WxTest : Type 0 where
  no_test queued submitted failed : WxTest

pub record PrototypeData : Type 0 where
  pub version : ℕ
  pub demo_role : Role
  pub theme : Theme
  pub reduce_motion : Bool
  pub username : String
  pub piles : List Pile
  pub watches : List DemoWatch
  pub notices : List DemoNotice
  pub credential : CredentialState
  pub wx_bound : Bool
  pub wx_enabled : Bool
  pub wx_events : List NoticeType
  pub wx_test : WxTest
  pub browser_enabled : Bool
  pub quiet_enabled : Bool
  pub quiet_start : String
  pub quiet_end : String
  pub other_sessions : Bool
  pub users : List DemoUser
  pub incidents : List DemoIncident
  pub audit : List DemoAudit
  pub invites : List DemoInvite
  pub settings : RegistrationSettings
  pub snapshot_at : String

-- `new Date(text).getTime()` in milliseconds, `none` for NaN; `toISOString`; and the start of the day of
-- an instant in Shanghai.
pub record Clock : Type 0 where
  pub time_of : String → Option ℕ
  pub to_iso : ℕ → String
  pub midnight : ℕ → ℕ
