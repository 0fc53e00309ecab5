-- ===== src/Requests/Admin.antt =====
-- frontend/lib/admin-api.ts. Identifiers stand in the paths as they are.
use charge_api.Prelude.{ℕ, Bool, Option, String, [], ◌∷◌, concat, decimal, get_or}
use charge_api.Types.{UserRole}
use charge_api.Types.Admin.{
  AdminAccountFilter, AdminHealthFilter, AdminCredentialFilter, only, CredentialState, unbound,
  waiting_device, sync_failed, expired, AdminUserListQuery, RegistrationSettings, IncidentStatus,
}
use charge_api.Workbench.Query.{Params}
use charge_api.Requests.{ApiRequest, get, post, patch, put, delete, plain, sending}

abbrev pub account_name : AdminAccountFilter → String
account_name AdminAccountFilter.all = "all"
account_name AdminAccountFilter.enabled = "enabled"
account_name AdminAccountFilter.disabled = "disabled"

abbrev pub credential_name : CredentialState → String
credential_name unbound = "unbound"
credential_name waiting_device = "waiting_device"
credential_name CredentialState.healthy = "healthy"
credential_name sync_failed = "sync_failed"
credential_name expired = "expired"

abbrev pub credential_filter_name : AdminCredentialFilter → String
credential_filter_name AdminCredentialFilter.all = "all"
credential_filter_name (only state) = credential_name state

abbrev pub health_name : AdminHealthFilter → String
health_name AdminHealthFilter.all = "all"
health_name AdminHealthFilter.healthy = "healthy"
health_name AdminHealthFilter.risk = "risk"

pub record IncidentUpdate : Type 0 where
  pub status : IncidentStatus
  pub note : String

pub record UserCreateRequest : Type 0 where
  pub username : String
  pub password : String
  pub role : UserRole

pub record UserUpdateRequest : Type 0 where
  pub enabled : Option Bool
  pub device_limit : Option ℕ
  pub refresh_enabled : Option Bool
  pub password : Option String
  pub role : Option UserRole

pub record InviteCreateRequest : Type 0 where
  pub code : Option String
  pub expires_at : Option String

unfoldable pub stats : ApiRequest (Unit {0})
stats = plain get "/api/admin/stats" "加载运营统计失败"

unfoldable pub health : ApiRequest (Unit {0})
health = plain get "/api/admin/health" "加载系统状态失败"

unfoldable pub settings : ApiRequest (Unit {0})
settings = plain get "/api/admin/settings" "加载系统策略失败"

unfoldable pub operations : ApiRequest (Unit {0})
operations = plain get "/api/admin/operations" "加载运维信息失败"

unfoldable pub user_detail : String → ApiRequest (Unit {0})
user_detail id = plain get (concat ("/api/admin/users/" ∷ id ∷ "/detail" ∷ [])) "加载用户详情失败"

unfoldable pub refresh_user : String → ApiRequest (Unit {0})
refresh_user id = plain post (concat ("/api/admin/users/" ∷ id ∷ "/refresh" ∷ [])) "刷新用户设备失败"

unfoldable pub reset_user_password : String → ApiRequest (Unit {0})
reset_user_password id =
    plain post (concat ("/api/admin/users/" ∷ id ∷ "/reset-password" ∷ [])) "重置用户密码失败"

unfoldable pub update_incident : String → IncidentUpdate → ApiRequest IncidentUpdate
update_incident id payload =
    sending patch (concat ("/api/admin/incidents/" ∷ id ∷ [])) payload "更新异常状态失败"

unfoldable pub create_user : UserCreateRequest → ApiRequest UserCreateRequest
create_user payload = sending post "/api/admin/users" payload "创建用户失败"

unfoldable pub update_user : String → UserUpdateRequest → ApiRequest UserUpdateRequest
update_user id payload = sending patch (concat ("/api/admin/users/" ∷ id ∷ [])) payload "更新用户失败"

unfoldable pub remove_user : String → ApiRequest (Unit {0})
remove_user id = plain delete (concat ("/api/admin/users/" ∷ id ∷ [])) "删除用户失败"

unfoldable pub save_settings : RegistrationSettings → ApiRequest RegistrationSettings
save_settings payload = sending put "/api/admin/settings" payload "保存设置失败"

unfoldable pub create_invite : InviteCreateRequest → ApiRequest InviteCreateRequest
create_invite payload = sending post "/api/admin/invites" payload "创建邀请码失败"

unfoldable pub remove_invite : String → ApiRequest (Unit {0})
remove_invite id = plain delete (concat ("/api/admin/invites/" ∷ id ∷ [])) "删除邀请码失败"

-- The parameters of `users`.
unfoldable pub user_params : AdminUserListQuery → Params
unfolding decimal
user_params query =
    ("page", decimal query.page)
    ∷ ("pageSize", decimal query.page_size)
    ∷ ("search", query.search)
    ∷ ("account", account_name query.account)
    ∷ ("credential", credential_filter_name query.credential)
    ∷ ("health", health_name query.health)
    ∷ []

module _ (to_string : Params → String) where
  abbrev query_of : String → Params → String
  query_of path params = concat (path ∷ "?" ∷ to_string params ∷ [])

  -- The defaults are "24h" and "Asia/Shanghai".
  unfoldable pub trends : Option String → Option String → ApiRequest (Unit {0})
  trends range timezone =
      plain get
        (query_of "/api/admin/trends"
          (("range", get_or range "24h") ∷ ("timezone", get_or timezone "Asia/Shanghai") ∷ []))
        "加载运营趋势失败"

  unfoldable pub invites : ℕ → ℕ → ApiRequest (Unit {0})
  unfolding decimal
  invites page page_size =
      plain get
        (query_of "/api/admin/invites"
          (("page", decimal page) ∷ ("pageSize", decimal page_size) ∷ []))
        "加载邀请码失败"

  unfoldable pub users : AdminUserListQuery → ApiRequest (Unit {0})
  unfolding user_params
  users query = plain get (query_of "/api/admin/users" (user_params query)) "加载用户列表失败"

  unfoldable pub incidents : (status type level : Option String) → ApiRequest (Unit {0})
  incidents status type level =
      plain get
        (query_of "/api/admin/incidents" (
          ("status", get_or status "")
          ∷ ("type", get_or type "")
          ∷ ("level", get_or level "")
          ∷ []))
        "加载异常列表失败"

  -- The defaults are 1 and 20.
  unfoldable pub audit : Option ℕ → Option ℕ → ApiRequest (Unit {0})
  unfolding decimal
  audit page page_size =
      plain get
        (query_of "/api/admin/audit"
          (("page", decimal (get_or page 1)) ∷ ("pageSize", decimal (get_or page_size 20)) ∷ []))
        "加载管理日志失败"
