-- ===== src/Auth/Sessions.antt =====
-- Who is signed in after requests that end in any order.
use charge_api.Prelude.{
  ◌≡◌, refl, arith, true, Option, none, some, List, [], ◌∷◌, if◌then◌else◌, get_or,
}
use charge_api.Types.{CurrentUser}
use charge_api.Http.{Settled, resolved, rejected}
use charge_api.Auth.{
  State, clear_session, fetch_me_begin, fetch_me_settle, is_unauthorized, sign_in_settle,
  change_password_settle, logout_settle,
}

pub data Event : Type 0 where
  fetch_me : Event
  fetch_me_reply : Settled CurrentUser → Event
  -- A login, a registration, or the confirmation of the usage guide.
  sign_in_reply : Settled CurrentUser → Event
  password_reply : Settled CurrentUser → Event
  logout_reply : Settled (Unit {0}) → Event
  -- The server said that the session has expired.
  cleared : Event

unfoldable pub step : Event → State → State
step fetch_me s = fetch_me_begin s
step (fetch_me_reply reply) s = (fetch_me_settle reply s).0
step (sign_in_reply reply) s = (sign_in_settle reply s).0
step (password_reply reply) s = (change_password_settle reply s).0
step (logout_reply reply) s = (logout_settle reply s).0
step cleared s = clear_session s

unfoldable pub run : List Event → State → State
run [] s = s
run (e ∷ es) s = run es (step e s)

-- What an event says of who is signed in: nothing, or somebody, or nobody.
abbrev pub says : Event → Option (Option CurrentUser)
says fetch_me = none
says (fetch_me_reply (resolved me)) = some (some me)
says (fetch_me_reply (rejected reason)) = if is_unauthorized reason then some none else none
says (sign_in_reply (resolved me)) = some (some me)
says (sign_in_reply (rejected reason)) = none
says (password_reply (resolved me)) = some (some me)
says (password_reply (rejected reason)) = none
says (logout_reply (resolved u)) = some none
says (logout_reply (rejected reason)) = none
says cleared = some none

-- The last thing that was said.
abbrev pub last_said : List Event → Option CurrentUser → Option CurrentUser
last_said [] current = current
last_said (e ∷ es) current = last_said es (get_or (says e) current)

step-current_user :
    (e : Event) (s : State) → (step e s).current_user ≡ get_or (says e) s.current_user
unfolding step fetch_me_begin fetch_me_settle sign_in_settle change_password_settle logout_settle
    clear_session
step-current_user fetch_me s = refl
step-current_user (fetch_me_reply (resolved me)) s = refl
step-current_user (fetch_me_reply (rejected reason)) s = ground arith
step-current_user (sign_in_reply (resolved me)) s = refl
step-current_user (sign_in_reply (rejected reason)) s = refl
step-current_user (password_reply (resolved me)) s = refl
step-current_user (password_reply (rejected reason)) s = refl
step-current_user (logout_reply (resolved u)) s = refl
step-current_user (logout_reply (rejected reason)) s = refl
step-current_user cleared s = refl

step-ready : (e : Event) (s : State) → s.ready ≡ true → (step e s).ready ≡ true
unfolding step fetch_me_begin fetch_me_settle sign_in_settle change_password_settle logout_settle
    clear_session
step-ready fetch_me s h = h
step-ready (fetch_me_reply (resolved me)) s h = refl
step-ready (fetch_me_reply (rejected reason)) s h = ground arith
step-ready (sign_in_reply (resolved me)) s h = refl
step-ready (sign_in_reply (rejected reason)) s h = h
step-ready (password_reply (resolved me)) s h = h
step-ready (password_reply (rejected reason)) s h = h
step-ready (logout_reply (resolved u)) s h = refl
step-ready (logout_reply (rejected reason)) s h = h
step-ready cleared s h = refl

-- Whatever replies come, in whatever order, the account is the one that the last telling reply named,
-- or none if that reply ended the session; failures other than 401 change nobody; and a client that
-- was ready stays ready.
pub run_lem :
    (es : List Event) (s : State)
    → ((run es s).current_user ≡ last_said es s.current_user)
      × (s.ready ≡ true → (run es s).ready ≡ true)
unfolding run
run_lem [] s = (refl, λ h. h)
run_lem (e ∷ es) s =
    let (who, ready) = run_lem es (step e s) in
    (rw (← step-current_user e s) who, λ h. ready (step-ready e s h))
