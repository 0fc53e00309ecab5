-- ===== src/SignIn/Replies.antt =====
-- One form is sent at a time.
use charge_api.Prelude.{
  ◌≡◌, refl, arith, Bool, true, false, Option, none, some, String, List, All, any, run_of-none,
}
use charge_api.Http.{resolved, rejected}
use charge_api.SignIn.{
  AuthMode, State, Effect, send_login, send_register, submit_begin, submit_with, complaint,
  is_disabled, load_captcha_begin, load_captcha_settle, load_config_settle, reload_config,
}
use charge_api.SignIn.Events.{
  Event, edit_username, edit_password, edit_invite_code, edit_captcha_answer, submit, submit_reply,
  login_refused, register_refused, new_captcha, captcha_reply, reload, config_reply, step, run,
}

abbrev pub is_send : Effect → Bool
is_send (send_login username password id answer) = true
is_send (send_register username password id answer invite) = true
is_send _ = false

-- The event is not the end of a form that was sent.
abbrev pub IsNoEnd : Event → Type 0
IsNoEnd (submit_reply invite_code reply) = ⊥
IsNoEnd (login_refused reason) = ⊥
IsNoEnd register_refused = ⊥
IsNoEnd _ = Unit

step_submitting :
    (mode : AuthMode) (e : Event) (s : State)
    → IsNoEnd e
    → s.submitting ≡ true
    → ((step mode e s).0.submitting ≡ true) × (any is_send (step mode e s).1 ≡ false)
unfolding step
step_submitting mode (edit_username text) s n h = ground arith
step_submitting mode (edit_password text) s n h = ground arith
step_submitting mode (edit_invite_code text) s n h = ground arith
step_submitting mode (edit_captcha_answer text) s n h = ground arith
step_submitting mode submit s n h = unfold is_disabled in ground arith
step_submitting mode (submit_reply invite_code reply) s n h = absurd n
step_submitting mode (login_refused reason) s n h = absurd n
step_submitting mode register_refused s n h = absurd n
step_submitting mode new_captcha s n h = unfold load_captcha_begin in ground arith
step_submitting mode (captcha_reply (resolved challenge)) s n h =
    unfold load_captcha_settle in ground arith
step_submitting mode (captcha_reply (rejected reason)) s n h =
    unfold load_captcha_settle in ground arith
step_submitting mode reload s n h = unfold reload_config in ground arith
step_submitting mode (config_reply (resolved next)) s n h =
    unfold load_config_settle load_captcha_begin in ground arith
step_submitting mode (config_reply (rejected reason)) s n h =
    unfold load_config_settle in ground arith

abbrev IsSubmitting : State → Type 0
IsSubmitting s = s.submitting ≡ true

-- After a form was sent, and whatever is typed, pressed and loaded meanwhile, none is sent again
-- before its reply has come.
pub run-submit_once :
    (mode : AuthMode) (es : List Event) (s : State)
    → any is_send (submit_begin mode s).1 ≡ true
    → All IsNoEnd es
    → any is_send (run mode es (submit_begin mode s).0).1 ≡ false
run-submit_once mode es s sent n =
    run_of-none (step mode) IsSubmitting IsNoEnd is_send (step_submitting mode) es
      (submit_begin mode s).0 n
      (unfold submit_begin in submitting (complaint mode s) mode s (unfold submit_begin in sent))
  where
    submitting :
        (message : Option String) (mode : AuthMode) (s : State)
        → any is_send (submit_with message mode s).1 ≡ true
        → (submit_with message mode s).0.submitting ≡ true
    submitting (some message) mode s sent = ground arith
    submitting none mode s sent = refl
