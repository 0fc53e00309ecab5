-- ===== src/Session.antt =====
-- frontend/components/workbench/dashboard-session.tsx: how a visit to the workbench starts, and ends.
-- A load waits twice, for the account and for the snapshot; it is a function for each part. What a
-- part asks of the other providers and of the router is the list of its effects.
pub mod Loads
mod Tests
use charge_api.Prelude.{
  ℕ, ◌+◌, ◌==◌, Bool, true, false, Option, none, some, String, List, [], ◌∷◌, ◌++◌, if◌then◌else◌,
}
use charge_api.Types.{CurrentUser, UserRole, admin, user}
use charge_api.Api.{Notification, NotificationType, credential_expired}
use charge_api.Http.{Settled, resolved, rejected, message_of}
use charge_api.Workbench.Query.{Params, dashboard_href}

pub record State : Type 0 where
  pub authorized : Bool
  pub initial_loading : Bool
  pub error : Option String
  pub version : ℕ

pub data Effect : Type 0 where
  replace : String → Effect
  push : String → Effect
  fetch_me fetch_snapshot load_watch load_notifications connect_stream disconnect_stream : Effect

unfoldable pub initial : State
initial = record { authorized = false; initial_loading = true; error = none; version = 0 }

abbrev pub is_user : UserRole → Bool
is_user user = true
is_user admin = false

-- `load` from the account to the wait for the snapshot. Leaving early ends the loading.
abbrev pub with_user : Option CurrentUser → State → State × List Effect
with_user none s = (record s { initial_loading = false }, replace "/login" ∷ [])
with_user (some me) s =
    if is_user me.role
    then (record s { authorized = true }, fetch_snapshot ∷ load_watch ∷ load_notifications ∷ [])
    else (record s { initial_loading = false }, replace "/admin" ∷ [])

-- `load` up to its first wait. An account that is known is not asked for.
unfoldable pub load_begin : Option CurrentUser → State → State × List Effect
load_begin current_user s =
    let s' = record s { version = s.version + 1; initial_loading = true; error = none } in
    elim current_user [ none ↦ (s', fetch_me ∷ []) | some me ↦ with_user (some me) s' ]

-- `load` from the reply to `fetchMe`; `current` is its version.
unfoldable pub user_settle : ℕ → Settled (Option CurrentUser) → State → State × List Effect
user_settle current (resolved me) s = if current == s.version then with_user me s else (s, [])
user_settle current (rejected reason) s =
    if current == s.version
    then (record s { error = some (message_of reason); initial_loading = false }, [])
    else (s, [])

-- `load` from the end of `fetchSnapshot`: the stream is connected after a failure too.
unfoldable pub snapshot_settle : ℕ → Settled (Unit {0}) → State → State × List Effect
snapshot_settle current (resolved u) s =
    if current == s.version
    then (record s { initial_loading = false }, connect_stream ∷ [])
    else (s, [])
snapshot_settle current (rejected reason) s =
    if current == s.version
    then (
      record s { error = some (message_of reason); initial_loading = false },
      connect_stream ∷ [],
    )
    else (s, [])

-- The cleanup of the first effect, with `invalidate`.
unfoldable pub unmount : State → State × List Effect
unmount s = (record s { version = s.version + 1 }, disconnect_stream ∷ [])

abbrev is_available : NotificationType → Bool
is_available charge_api.Api.pile_available = true
is_available _ = false

-- The listener of `subscribeNotifications`.
unfoldable pub on_notification : Notification → List Effect
on_notification n = if is_available n.type then load_watch ∷ [] else []

abbrev is_credential_expired : NotificationType → Bool
is_credential_expired credential_expired = true
is_credential_expired _ = false

-- The listener of `notificationNavigateEvent`.
unfoldable pub navigate : (Params → String) → Notification → Effect
unfolding dashboard_href
navigate to_string n =
    if is_credential_expired n.type
    then push "/account?tab=connection&connect=1"
    else push (dashboard_href (λ s. []) to_string n.device_id n.port_id)

pub data Event : Type 0 where
  load : Option CurrentUser → Event
  user_reply : (current : ℕ) → Settled (Option CurrentUser) → Event
  snapshot_reply : (current : ℕ) → Settled (Unit {0}) → Event
  unmounted : Event

unfoldable pub step : Event → State → State × List Effect
unfolding load_begin user_settle snapshot_settle unmount
step (load current_user) s = load_begin current_user s
step (user_reply current reply) s = user_settle current reply s
step (snapshot_reply current reply) s = snapshot_settle current reply s
step unmounted s = unmount s

-- The state after the events, and their effects in order.
unfoldable pub run : List Event → State → State × List Effect
unfolding step
run [] s = (s, [])
run (e ∷ es) s =
    let (s', effects) = step e s in let (last, more) = run es s' in (last, effects ++ more)
