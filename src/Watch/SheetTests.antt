-- ===== src/Watch/SheetTests.antt =====
-- The sheet of the reminders, with one reminder in a dialog.
use charge_api.Prelude.{
  ◌≡◌, refl, true, false, Option, none, some, String, [], ◌∷◌, member, str_eq, if◌then◌else◌,
}
use charge_api.Api.{NotificationPreference, WatchRule, temporary, two_hours}
use charge_api.Http.{rejected, other_error}
use charge_api.Watch.Sheet.{
  Sheet, cancel, quiet_form, quiet_begin, save, candidate, request_of, confirm_begin,
  confirm_settle,
}
use charge_api.Watch.Confirms.{quiet_begin-quiet_form, left_open, confirm_lem}

abbrev rule : String → Option String → WatchRule
rule id completed_at = record {
  active_end_minute = 420;
  active_start_minute = 1320;
  active_weekdays = 127;
  completed_at = completed_at;
  completion_reason = none;
  created_at = "";
  device_id = "d1";
  enabled = true;
  estimated_remaining_checks = none;
  expires_at = none;
  id = id;
  mode = temporary;
  next_check_at = none;
  stop_after_notify = true;
  timezone = "Asia/Shanghai";
  updated_at = "";
  user_id = "u1";
}

abbrev preference : NotificationPreference
preference = record {
  browser_enabled = false;
  quiet_end_minute = 420;
  quiet_hours_enabled = true;
  quiet_start_minute = 1500;
  timezone = "Asia/Shanghai";
  updated_at = "";
  user_id = "u1";
}

quiet_begin-quiet_form_example :
    (quiet_begin (quiet_form preference)).1
    ≡ save (record {
      browser_enabled = none;
      quiet_hours_enabled = some true;
      quiet_start_minute = some 1439;
      quiet_end_minute = some 420;
      timezone = some "Asia/Shanghai";
    })
      ∷ []
quiet_begin-quiet_form_example = quiet_begin-quiet_form preference

abbrev sheet : Sheet
sheet = record {
  pending_rule_ids = "r2" ∷ [];
  cancel_candidate = some (rule "r1" none);
  extend_candidate = none;
  delete_candidate = some (rule "r3" (some "9"));
  extend_duration = two_hours;
  dismissed = false;
}

confirm_lem_example :
    let sent = confirm_begin cancel sheet in
    let after = confirm_settle cancel "r1" (rejected (other_error "offline")) sent.0 in
    (sent.1 ≡ request_of cancel (rule "r1" none) two_hours ∷ [])
    × (member "r1" sent.0.pending_rule_ids ≡ true)
    × (candidate cancel after.0 ≡ left_open (rejected (other_error "offline")) (rule "r1" none))
    × (member "r2" after.0.pending_rule_ids
        ≡ (if str_eq "r2" "r1" then false else member "r2" ("r2" ∷ [])))
confirm_lem_example =
    confirm_lem cancel (rule "r1" none) (rejected (other_error "offline")) sheet "r2" refl
