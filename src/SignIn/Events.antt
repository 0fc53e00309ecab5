-- ===== src/SignIn/Events.antt =====
-- What can happen to the form of an account, and runs of such events.
use charge_api.Prelude.{String, List, [], if◌then◌else◌, run_of}
use charge_api.Types.{CurrentUser}
use charge_api.Http.{Reason, Settled}
use charge_api.SignIn.{
  AuthMode, AuthConfig, Challenge, State, Effect, is_disabled, submit_begin, submit_settle,
  refuse_login, finish, load_captcha_begin, load_captcha_settle, load_config_settle, reload_config,
}

pub data Event : Type 0 where
  edit_username edit_password edit_invite_code edit_captcha_answer : String → Event
  -- The button, or the Enter key, which a disabled button refuses too.
  submit : Event
  submit_reply : (invite_code : String) → Settled CurrentUser → Event
  -- The captcha that the reply waits for has been loaded.
  login_refused : Reason → Event
  register_refused : Event
  new_captcha : Event
  captcha_reply : Settled Challenge → Event
  reload : Event
  config_reply : Settled AuthConfig → Event

unfoldable pub step : AuthMode → Event → State → State × List Effect
unfolding is_disabled submit_begin submit_settle refuse_login finish load_captcha_begin
    load_captcha_settle load_config_settle reload_config
step mode (edit_username text) s = (record s { username = text }, [])
step mode (edit_password text) s = (record s { password = text }, [])
step mode (edit_invite_code text) s = (record s { invite_code = text }, [])
step mode (edit_captcha_answer text) s = (record s { captcha_answer = text }, [])
step mode submit s = if is_disabled mode s then (s, []) else submit_begin mode s
step mode (submit_reply invite_code reply) s = submit_settle mode invite_code reply s
step mode (login_refused reason) s = (refuse_login reason s, [])
step mode register_refused s = (finish s, [])
step mode new_captcha s = load_captcha_begin s
step mode (captcha_reply reply) s = (load_captcha_settle reply s, [])
step mode reload s = reload_config s
step mode (config_reply reply) s = load_config_settle mode reply s

-- The state after the events, and their effects in order.
abbrev pub run : AuthMode → List Event → State → State × List Effect
run mode = run_of (step mode)
