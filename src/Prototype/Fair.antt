-- ===== src/Prototype/Fair.antt =====
-- What the handlers of the preview ask for was checked by them.
use charge_api.Prelude.{ℕ, ◌≡◌, arith, Bool, true, String}
use charge_api.Prototype.Model.{PrototypeData, Clock, Duration, UserRole}
use charge_api.Prototype.App.{data_of, State}
use charge_api.Prototype.Forms.{
  Answer, asked, Form, add_form, watch_form, user_form, invite_form, answer_add, answer_watch,
}
use charge_api.Prototype.Buttons.{is_offered}
use charge_api.Prototype.Answers.{answer, answer_user, answer_invite}
use charge_api.Prototype.Settings.{is_ready}

-- A recipe that is asked for is ready.
abbrev pub is_fair : Answer → PrototypeData → Bool
is_fair (asked request) d = is_ready request.change d
is_fair _ d = true

add-is_fair :
    (identifier name address : String) (s : State)
    → is_fair (answer_add identifier name address s) (data_of s) ≡ true
unfolding answer_add
add-is_fair identifier name address s = ground arith

watch-is_fair :
    (clock : Clock) (device_id : String) (duration : Duration) (s : State)
    → is_fair (answer_watch clock device_id duration s) (data_of s) ≡ true
unfolding answer_watch
watch-is_fair clock device_id duration s = ground arith

user-is_fair :
    (stamp : ℕ) (username password : String) (role : UserRole) (limit : String) (s : State)
    → is_fair (answer_user stamp username password role limit s) (data_of s) ≡ true
unfolding answer_user
user-is_fair stamp username password role limit s = ground arith

invite-is_fair :
    (upper : String → String) (code expires : String) (s : State)
    → is_fair (answer_invite upper code expires s) (data_of s) ≡ true
unfolding answer_invite
invite-is_fair upper code expires s = ground arith

pub answer-is_fair :
    (clock : Clock) (upper : String → String) (form : Form) (s : State)
    → is_fair (answer clock upper form s) (data_of s) ≡ true
unfolding answer is_offered
answer-is_fair clock upper (add_form identifier name address) s =
    add-is_fair identifier name address s
answer-is_fair clock upper (watch_form device_id duration) s =
    watch-is_fair clock device_id duration s
answer-is_fair clock upper (user_form stamp username password role limit) s =
    user-is_fair stamp username password role limit s
answer-is_fair clock upper (invite_form code expires) s = invite-is_fair upper code expires s
answer-is_fair clock upper form s = ground arith
