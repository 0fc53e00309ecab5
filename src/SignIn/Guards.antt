-- ===== src/SignIn/Guards.antt =====
-- What the form sends: nothing that the server is sure to refuse.
use charge_api.Prelude.{
  ◌≡◌, ◌≢◌, ◌≤◌, ◌↔◌, refl, ap, ◌∙◌, arith, Bool, true, false, Option, none, some, String, List, [],
  All, run_of-All, trim, str_eq, eq_iff, if◌then◌else◌,
}
use charge_api.Http.{resolved, rejected}
use charge_api.SignIn.{
  AuthMode, login, register, State, Effect, send_login, send_register, utf16_length, complaint,
  submit_begin, submit_with, credentials, registration_available, needs_invite, captcha_visible,
  version_of, is_disabled, submit_settle, load_captcha_begin, load_config_settle, reload_config,
}
use charge_api.SignIn.Events.{
  Event, edit_username, edit_password, edit_invite_code, edit_captcha_answer, submit, submit_reply,
  login_refused, register_refused, new_captcha, captcha_reply, reload, config_reply, step, run,
}

length_of_empty : (text : String) → text ≡ "" → utf16_length text ≡ 0
length_of_empty text e = ap utf16_length e ∙ (unfold utf16_length in refl)

long_enough : (text : String) → 1 ≤ utf16_length text → str_eq text "" ≡ false
long_enough text h = ground (arith, eq_iff text "", length_of_empty text)

-- A form of a new account is sent exactly if its name has three characters, its password eight,
-- registration is possible, an invite code is given to a server that knows of them where one is
-- needed, and a captcha that is shown is answered.
complaint-none_iff :
    (s : State)
    → (complaint register s ≡ none) ↔ (
        (3 ≤ utf16_length (trim s.username))
        × (8 ≤ utf16_length s.password)
        × (registration_available s ≡ true)
        × (needs_invite s ≡ true → (trim s.invite_code ≢ "") × (2 ≤ version_of s.config))
        × (captcha_visible register s ≡ true → trim s.captcha_answer ≢ ""))
unfolding complaint
complaint-none_iff s = (
  λ h. ground (arith, eq_iff (trim s.invite_code) "", eq_iff (trim s.captcha_answer) ""),
  λ h. ground (
    arith,
    long_enough s.password,
    eq_iff (trim s.invite_code) "",
    eq_iff (trim s.captcha_answer) "",
  ),
)

abbrev pub IsFit : Effect → Type 0
IsFit (send_login username password id answer) = (3 ≤ utf16_length username) × (password ≢ "")
IsFit (send_register username password id answer invite) =
    (3 ≤ utf16_length username) × (8 ≤ utf16_length password)
IsFit _ = Unit

credentials-IsFit :
    (mode : AuthMode) (s : State) → complaint mode s ≡ none → IsFit (credentials mode s)
unfolding complaint
credentials-IsFit login s h = ground (arith, eq_iff s.password "")
credentials-IsFit register s h = ground arith

submit_with-IsFit :
    (message : Option String) (mode : AuthMode) (s : State)
    → complaint mode s ≡ message
    → All IsFit (submit_with message mode s).1
submit_with-IsFit (some message) mode s h = tt
submit_with-IsFit none mode s h = (credentials-IsFit mode s h, tt)

if-IsFit :
    (b : Bool) (p q : State × List Effect)
    → All IsFit p.1
    → All IsFit q.1
    → All IsFit (if b then p else q).1
if-IsFit true p q h k = h
if-IsFit false p q h k = k

step-IsFit : (mode : AuthMode) (e : Event) (s : State) → All IsFit (step mode e s).1
unfolding step
step-IsFit mode (edit_username text) s = tt
step-IsFit mode (edit_password text) s = tt
step-IsFit mode (edit_invite_code text) s = tt
step-IsFit mode (edit_captcha_answer text) s = tt
step-IsFit mode submit s =
    if-IsFit (is_disabled mode s) (s, []) (submit_begin mode s) tt
      (unfold submit_begin in submit_with-IsFit (complaint mode s) mode s refl)
step-IsFit mode (submit_reply invite_code (resolved user)) s = unfold submit_settle in ground arith
step-IsFit mode (submit_reply invite_code (rejected reason)) s =
    unfold submit_settle load_captcha_begin in ground arith
step-IsFit mode (login_refused reason) s = tt
step-IsFit mode register_refused s = tt
step-IsFit mode new_captcha s = unfold load_captcha_begin in ground arith
step-IsFit mode (captcha_reply reply) s = tt
step-IsFit mode reload s = unfold reload_config in ground arith
step-IsFit mode (config_reply (resolved next)) s =
    unfold load_config_settle load_captcha_begin in ground arith
step-IsFit mode (config_reply (rejected reason)) s = unfold load_config_settle in ground arith

-- Whatever is typed and answered, no name under three characters, no empty password and no new
-- password under eight characters is ever sent.
pub run-IsFit : (mode : AuthMode) (es : List Event) (s : State) → All IsFit (run mode es s).1
run-IsFit mode = run_of-All (step mode) IsFit (step-IsFit mode)
