-- ===== src/Auth.antt =====
-- frontend/lib/auth-context.tsx: who is signed in.
pub mod Sessions
mod Tests
use charge_api.Prelude.{ℕ, ◌==◌, Bool, true, false, Option, none, some, String, if◌then◌else◌}
use charge_api.Types.{CurrentUser, UserRole, admin, user}
use charge_api.Http.{Reason, request_error, other_error, Settled, resolved, rejected}

pub record State : Type 0 where
  pub current_user : Option CurrentUser
  pub loading : Bool
  pub ready : Bool

unfoldable pub initial : State
initial = record { current_user = none; loading = false; ready = false }

unfoldable pub clear_session : State → State
clear_session s = record s { current_user = none; ready = true }

-- `fetchMe`, up to the request and from the reply.
unfoldable pub fetch_me_begin : State → State
fetch_me_begin s = record s { loading = true }

-- `reason instanceof RequestError && reason.status === 401`.
abbrev pub is_unauthorized : Reason → Bool
is_unauthorized (request_error _ status _) = status == 401
is_unauthorized (other_error _) = false

unfoldable pub fetch_me_settle : Settled CurrentUser → State → State × Settled (Option CurrentUser)
unfolding clear_session
fetch_me_settle (resolved me) s =
    (record s { current_user = some me; loading = false; ready = true }, resolved (some me))
fetch_me_settle (rejected reason) s =
    if is_unauthorized reason
    then (record (clear_session s) { loading = false; ready = true }, resolved none)
    else (record s { loading = false; ready = true }, rejected reason)

-- `login`, `register` and `acknowledgeUsageGuide`, from the reply.
unfoldable pub sign_in_settle : Settled CurrentUser → State → State × Settled CurrentUser
sign_in_settle (resolved me) s = (record s { current_user = some me; ready = true }, resolved me)
sign_in_settle (rejected reason) s = (s, rejected reason)

unfoldable pub change_password_settle : Settled CurrentUser → State → State × Settled CurrentUser
change_password_settle (resolved me) s = (record s { current_user = some me }, resolved me)
change_password_settle (rejected reason) s = (s, rejected reason)

unfoldable pub logout_settle : Settled (Unit {0}) → State → State × Settled (Unit {0})
unfolding clear_session
logout_settle (resolved u) s = (clear_session s, resolved u)
logout_settle (rejected reason) s = (s, rejected reason)

abbrev role_is_admin : UserRole → Bool
role_is_admin admin = true
role_is_admin user = false

-- `currentUser?.role === "admin"`.
unfoldable pub is_admin : State → Bool
is_admin s = elim s.current_user [ none ↦ false | some u ↦ role_is_admin u.role ]
