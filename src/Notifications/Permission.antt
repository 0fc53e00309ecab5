-- ===== src/Notifications/Permission.antt =====
-- Browser permission: `refreshPermission`, `requestBrowserPermission` and `setBrowserEnabled` of
-- frontend/lib/notification-context.tsx.
use charge_api.Prelude.{Bool, true, false, not, ◌&&◌, Option, none, some, if◌then◌else◌}
use charge_api.Api.{NotificationPreference}
use charge_api.Notifications.Store.{BrowserPermissionState, default, granted, unsupported, Store}

abbrev pub is_granted : BrowserPermissionState → Bool
is_granted granted = true
is_granted _ = false

abbrev pub is_default : BrowserPermissionState → Bool
is_default default = true
is_default _ = false

-- `preferenceRef.current?.browserEnabled`.
abbrev pub enabled_in : Option NotificationPreference → Bool
enabled_in none = false
enabled_in (some preference) = preference.browser_enabled

-- `refreshPermission`, at the start and whenever the window has the focus, from `currentPermission()`.
unfoldable pub refresh_permission : BrowserPermissionState → Store → Store
refresh_permission permission s = record s { browser_permission = permission }

-- `requestBrowserPermission`, from the browser's answer; `unsupported` stands for a window without
-- notifications, where the browser is not asked. The second part is the value of `browserEnabled`
-- that is sent to the server, if one is.
unfoldable pub request_permission_settle : BrowserPermissionState → Store → Store × Option Bool
request_permission_settle unsupported s = (record s { browser_permission = unsupported }, none)
request_permission_settle permission s = (
  record s { browser_permission = permission },
  if is_granted permission
      then some true
      else if enabled_in s.preference_ref
      then some false
      else none,
)

-- What `setBrowserEnabled` does after its first lines: asks the browser, gives up with `false`, or
-- sends a preference and answers with it.
pub data Choice : Type 0 where
  ask : Choice
  refuse : Choice
  send : Bool → Choice

unfoldable pub set_browser_enabled : BrowserPermissionState → Bool → Store → Store × Choice
set_browser_enabled permission enabled s = (
  record s { browser_permission = permission },
  if enabled && is_default permission
      then ask
      else if enabled && not (is_granted permission)
      then refuse
      else send enabled,
)

-- The whole of `setBrowserEnabled`, given the permission at the call and the browser's answer if it
-- is asked: the state, the preference sent, and the result once the server took it.
unfoldable pub set_browser_enabled_settle :
    BrowserPermissionState → BrowserPermissionState → Bool → Store → Store × Option Bool × Bool
unfolding set_browser_enabled request_permission_settle
set_browser_enabled_settle permission answer enabled s =
    let (s', choice) = set_browser_enabled permission enabled s in
    elim choice [
      | refuse ↦ (s', none, false)
      | send value ↦ (s', some value, value)
      | ask ↦ (
        (request_permission_settle answer s').0,
        (request_permission_settle answer s').1,
        is_granted answer,
      )
    ]
