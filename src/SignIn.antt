-- ===== src/SignIn.antt =====
-- frontend/components/auth-form.tsx: signing in, and creating an account. The React state is one record;
-- a request is an effect, and its reply a function of its own on the state of that moment.
pub mod Events
pub mod Guards
pub mod Replies
mod Tests
use Prim.Native.Char.{code}
use Prim.Native.String
use charge_api.Prelude.{
  ℕ, ◌+◌, Bool, true, false, not, ◌&&◌, ◌||◌, Option, none, some, String, List, [], ◌∷◌, str_eq,
  trim, ltb, get_or, is_some, is_truthy, if◌then◌else◌,
}
use charge_api.Types.{CurrentUser}
use charge_api.Http.{Reason, request_error, other_error, Settled, resolved, rejected, message_of}
use charge_api.Routing.{resolve_home_route}
use charge_api.Workbench.Selection.{includes}

pub data AuthMode : Type 0 where
  login register : AuthMode

pub record AuthConfig : Type 0 where
  pub auth_config_version : Option ℕ
  pub login_captcha_enabled : Option Bool
  pub register_captcha_enabled : Option Bool
  pub registration_open : Option Bool
  pub invite_required : Option Bool

pub record State : Type 0 where
  pub username : String
  pub password : String
  pub invite_code : String
  pub submitting : Bool
  pub config : Option AuthConfig
  pub config_error : String
  pub config_loading : Bool
  pub error : String
  pub login_captcha_required : Bool
  pub captcha_id : String
  pub captcha_image : String
  pub captcha_answer : String
  pub captcha_loading : Bool

unfoldable pub initial : State
initial = record {
  username = "";
  password = "";
  invite_code = "";
  submitting = false;
  config = none;
  config_error = "";
  config_loading = false;
  error = "";
  login_captcha_required = false;
  captcha_id = "";
  captcha_image = "";
  captcha_answer = "";
  captcha_loading = false;
}

pub data Effect : Type 0 where
  get_captcha get_config : Effect
  send_login : (username password captcha_id captcha_answer : String) → Effect
  send_register : (username password captcha_id captcha_answer invite_code : String) → Effect
  on_success : (path : String) → Effect

-- `text.length`: a character above the first plane counts twice.
unfoldable pub utf16_length : String → ℕ
utf16_length String.[] = 0
utf16_length (String.◌∷◌ c s) = utf16_length s + (if ltb (code c) 65536 then 1 else 2)

-- A field of the configuration, and its default without it.
abbrev pub setting : (AuthConfig → Option Bool) → Bool → Option AuthConfig → Bool
setting field default none = default
setting field default (some config) = get_or (field config) default

abbrev pub is_register : AuthMode → Bool
is_register register = true
is_register login = false

unfoldable pub registration_available : State → Bool
registration_available s =
    setting (λ c. c.registration_open) true s.config
    || setting (λ c. c.invite_required) false s.config

unfoldable pub captcha_visible : AuthMode → State → Bool
captcha_visible register s = setting (λ c. c.register_captcha_enabled) false s.config
captcha_visible login s =
    s.login_captcha_required && setting (λ c. c.login_captcha_enabled) true s.config

unfoldable pub load_captcha_begin : State → State × List Effect
load_captcha_begin s = (record s { captcha_loading = true; captcha_answer = "" }, get_captcha ∷ [])

pub record Challenge : Type 0 where
  pub id : String
  pub image : String

unfoldable pub load_captcha_settle : Settled Challenge → State → State
load_captcha_settle (resolved challenge) s = record s {
  captcha_id = challenge.id;
  captcha_image = challenge.image;
  captcha_loading = false;
}
load_captcha_settle (rejected reason) s = record s {
  captcha_id = "";
  captcha_image = "";
  error = message_of reason;
  captcha_loading = false;
}

-- `loadConfig`, from the reply.
unfoldable pub load_config_settle : AuthMode → Settled AuthConfig → State → State × List Effect
unfolding load_captcha_begin
load_config_settle mode (resolved next) s =
    let s' = record s { config = some next; config_error = ""; config_loading = false } in
    if is_register mode && get_or next.register_captcha_enabled false
    then load_captcha_begin s'
    else (s', [])
load_config_settle mode (rejected reason) s =
    (record s { config_error = message_of reason; config_loading = false }, [])

-- The button that loads the configuration again.
unfoldable pub reload_config : State → State × List Effect
reload_config s = (record s { config_loading = true }, get_config ∷ [])

-- `config?.inviteRequired && !config.registrationOpen`.
unfoldable pub needs_invite : State → Bool
needs_invite s =
    setting (λ c. c.invite_required) false s.config
    && not (setting (λ c. c.registration_open) false s.config)

abbrev version_of : Option AuthConfig → ℕ
version_of none = 0
version_of (some config) = get_or config.auth_config_version 0

-- What `submit` says instead of sending, if it does.
unfoldable pub complaint : AuthMode → State → Option String
complaint mode s =
    if ltb (utf16_length (trim s.username)) 3 || str_eq s.password ""
    then some "请输入至少 3 位用户名和密码"
    else if is_register mode && ltb (utf16_length s.password) 8
    then some "注册密码至少需要 8 个字符"
    else if is_register mode && not (registration_available s)
    then some "当前未开放自助注册，请联系管理员开通账户。"
    else if is_register mode && needs_invite s && str_eq (trim s.invite_code) ""
    then some "请输入邀请码"
    else if is_register mode && needs_invite s && ltb (version_of s.config) 2
    then some "系统暂未完成更新，请联系管理员后再使用邀请码注册"
    else if captcha_visible mode s && str_eq (trim s.captcha_answer) ""
    then some "请输入图片验证码"
    else none

abbrev pub credentials : AuthMode → State → Effect
credentials login s = send_login (trim s.username) s.password s.captcha_id (trim s.captcha_answer)
credentials register s =
    send_register (trim s.username) s.password s.captcha_id (trim s.captcha_answer)
      (trim s.invite_code)

abbrev pub submit_with : Option String → AuthMode → State → State × List Effect
submit_with (some message) mode s = (record s { error = message }, [])
submit_with none mode s = (record s { error = ""; submitting = true }, credentials mode s ∷ [])

-- `submit`, up to the request.
unfoldable pub submit_begin : AuthMode → State → State × List Effect
submit_begin mode s = submit_with (complaint mode s) mode s

-- Whether the server asks a login for a captcha.
abbrev pub asks_captcha : AuthMode → Reason → Bool
asks_captcha login (request_error message status (some code)) =
    str_eq code "LOGIN_CAPTCHA_REQUIRED" || str_eq code "LOGIN_CAPTCHA_INVALID"
asks_captcha _ _ = false

-- The message of a request that was refused, by the invite code of the render that sent it.
unfoldable pub refusal : AuthMode → String → Reason → String
refusal mode invite_code reason =
    if is_register mode
      && not (str_eq (trim invite_code) "")
      && includes (message_of reason) "未开放注册"
    then "邀请码已填写，但系统暂未完成更新。请联系管理员后重试"
    else message_of reason

-- `submit`, from the reply. Where a captcha is loaded, the rest waits for it: of a login all of it, with
-- the message (`refuse_login`), of a registration the end alone (`finish`).
unfoldable pub submit_settle : AuthMode → String → Settled CurrentUser → State → State × List Effect
unfolding load_captcha_begin refusal resolve_home_route
submit_settle mode invite_code (resolved user) s = (
  record s { password = ""; submitting = false },
  on_success (resolve_home_route (some user.role)) ∷ [],
)
submit_settle mode invite_code (rejected reason) s =
    if asks_captcha mode reason
    then load_captcha_begin (record s { login_captcha_required = true })
    else if is_register mode
    then load_captcha_begin (record s { error = refusal mode invite_code reason })
    else (record s { error = refusal mode invite_code reason; submitting = false }, [])

unfoldable pub refuse_login : Reason → State → State
refuse_login reason s = record s { error = message_of reason; submitting = false }

unfoldable pub finish : State → State
finish s = record s { submitting = false }

-- The `disabled` of the submit button.
unfoldable pub is_disabled : AuthMode → State → Bool
unfolding registration_available
is_disabled mode s =
    not (is_some s.config)
    || s.submitting
    || s.captcha_loading
    || (is_register mode && not (registration_available s))
