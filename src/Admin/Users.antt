-- ===== src/Admin/Users.antt =====
-- A user in the table of frontend/components/admin-users.tsx, and the diagnostics of
-- frontend/components/admin-user-diagnostics.tsx.
use charge_api.Prelude.{
  ◌≡◌, arith, ◌==◌, Bool, true, false, not, ◌&&◌, ◌||◌, String, List, [], ◌∷◌, filter, member, ltb,
  if◌then◌else◌,
}
use charge_api.Types.{UserRole, admin, user}
use charge_api.Types.Admin.{
  AdminUserSummary, CredentialState, unbound, waiting_device, healthy, sync_failed, expired,
  RecoveryDiagnostic, RecoveryOperation, credential_recovery, add_pile, refresh, update_cookie,
  scan_login, sync_cookie, auth_protection,
}

pub data Variant : Type 0 where
  secondary destructive : Variant

abbrev pub credential_text : CredentialState → String
credential_text unbound = "未绑定扫码"
credential_text waiting_device = "等待添加设备"
credential_text healthy = "凭据正常"
credential_text sync_failed = "凭据同步失败"
credential_text expired = "凭据已失效"

abbrev pub is_admin : UserRole → Bool
is_admin admin = true
is_admin user = false

abbrev is_fine : CredentialState → Bool
is_fine healthy = true
is_fine waiting_device = true
is_fine _ = false

unfoldable pub credential_variant : AdminUserSummary → Variant
credential_variant summary =
    if is_admin summary.user.role
      || summary.dashboard.pile_count == 0
      || is_fine summary.credential.state
    then secondary
    else destructive

unfoldable pub credential_label : AdminUserSummary → String
credential_label summary =
    if is_admin summary.user.role
    then "无需扫码"
    else if summary.dashboard.pile_count == 0
    then "待添加设备"
    else credential_text summary.credential.state

abbrev is_broken : CredentialState → Bool
is_broken unbound = true
is_broken sync_failed = true
is_broken expired = true
is_broken _ = false

unfoldable pub has_risk : AdminUserSummary → Bool
has_risk summary =
    if not summary.user.enabled
    then true
    else if is_admin summary.user.role
    then false
    else (ltb 0 summary.dashboard.pile_count && is_broken summary.credential.state)
      || ltb 0 summary.last_refresh.failed_devices
      || ltb 0 summary.dashboard.offline_ports

-- A user whose credential is shown as broken counts as a risk. One who may sign in, whose last refresh
-- failed for no device and who has no port offline is a risk for nothing else.
has_risk-credential_variant :
    (summary : AdminUserSummary)
    → (credential_variant summary ≡ destructive → has_risk summary ≡ true)
      × (summary.user.enabled ≡ true
          → summary.last_refresh.failed_devices ≡ 0
          → summary.dashboard.offline_ports ≡ 0
          → has_risk summary ≡ true
          → credential_variant summary ≡ destructive)
unfolding has_risk credential_variant
has_risk-credential_variant summary = (λ h. ground arith, λ e f o h. ground arith)

abbrev actionable_codes : List String
actionable_codes =
    "pile_identifier_required" ∷ "pile_id_invalid" ∷ "pile_number_invalid" ∷ "pile_fields_invalid"
    ∷ "pile_port_count_invalid" ∷ "add_pile_failed" ∷ "pile_update_failed" ∷ "pile_delete_failed"
    ∷ "refresh_failed" ∷ "cookie_required" ∷ "cookie_too_large" ∷ "cookie_update_failed"
    ∷ "qr_create_failed" ∷ "qr_poll_failed" ∷ "qr_confirm_failed" ∷ "qr_session_invalid"
    ∷ "scan_service_unavailable" ∷ "binding_save_failed" ∷ "credential_sync_failed"
    ∷ "device_id_invalid" ∷ "auth_rate_limited" ∷ "recovery_unavailable" ∷ "binding_missing"
    ∷ "yyb_get_code_failed" ∷ "yyb_account_refresh_failed" ∷ "yyb_account_refresh_expired"
    ∷ "yyb_account_refresh_unknown" ∷ "yyb_get_code_retry_failed" ∷ "mocele_autologin_missing_info"
    ∷ "mocele_autologin_missing_wxopenid" ∷ "mocele_autologin_failed"
    ∷ "new_cookie_validation_failed" ∷ "recovery_failed" ∷ []

-- `diagnostics.filter((item) => actionableCodes.has(item.code))`.
unfoldable pub failures : List RecoveryDiagnostic → List RecoveryDiagnostic
failures = filter (λ item. member item.code actionable_codes)

abbrev pub operation_label : RecoveryOperation → String
operation_label credential_recovery = "自动恢复"
operation_label add_pile = "添加充电桩"
operation_label refresh = "刷新状态"
operation_label update_cookie = "更新凭据"
operation_label scan_login = "扫码登录"
operation_label sync_cookie = "同步凭据"
operation_label auth_protection = "登录防护"
