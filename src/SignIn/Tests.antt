-- ===== src/SignIn/Tests.antt =====
-- A login that is sent, and pressed again before its reply.
use charge_api.Prelude.{◌≡◌, refl, true, false, none, some, List, [], ◌∷◌, All, any, trim}
use charge_api.Http.{resolved}
use charge_api.SignIn.{
  login, AuthConfig, State, initial, submit_begin, complaint, utf16_length, captcha_visible,
}
use charge_api.SignIn.Events.{
  Event, edit_username, edit_password, submit, new_captcha, config_reply, run,
}
use charge_api.SignIn.Guards.{IsFit, run-IsFit}
use charge_api.SignIn.Replies.{is_send, run-submit_once}

abbrev config : AuthConfig
config = record {
  auth_config_version = some 2;
  login_captcha_enabled = some true;
  register_captcha_enabled = some false;
  registration_open = some true;
  invite_required = none;
}

abbrev typed : List Event
typed =
    config_reply (resolved config) ∷ edit_username " lin " ∷ edit_password "secret" ∷ submit ∷ []

run-IsFit_example : All IsFit (run login typed initial).1
run-IsFit_example = run-IsFit login typed initial

abbrev filled : State
filled = record initial { username = "lin"; password = "secret"; config = some config }

run-submit_once_example :
    any is_send (run login (submit ∷ new_captcha ∷ submit ∷ []) (submit_begin login filled).0).1
    ≡ false
unfolding submit_begin complaint utf16_length captcha_visible initial trim
run-submit_once_example =
    run-submit_once login (submit ∷ new_captcha ∷ submit ∷ []) filled refl (tt, (tt, (tt, tt)))
