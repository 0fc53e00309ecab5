-- ===== src/Watch/Tests.antt =====
-- Two reminders, and some times.
use charge_api.Prelude.{
  ◌≡◌, ◌||◌, ◌&&◌, not, refl, arith, Bool, true, none, some, String, List, [], ◌∷◌, member, str_eq,
}
use charge_api.Api.{WatchRule, WatchRuleCreateResult, temporary}
use charge_api.Http.{resolved, rejected, other_error}
use charge_api.Watch.Store.{Store, initial, delete_rule_settle}
use charge_api.Watch.Rules.{
  Event, load, create_reply, update_reply, delete_reply, run, IsValid, ids,
}
use charge_api.Watch.Valid.{run-IsValid, replies_lem, IsCounted}
use charge_api.Watch.Sorting.{IsOrder, IsSorted, run-IsSorted}
use charge_api.Watch.Format.{minutes_to_time, time_to_minutes}
use charge_api.Watch.Clock.{time_to_minutes-minutes_to_time}

abbrev rule : String → String → WatchRule
rule id updated_at = record {
  active_end_minute = 420;
  active_start_minute = 1320;
  active_weekdays = 127;
  completed_at = none;
  completion_reason = none;
  created_at = "";
  device_id = "d1";
  enabled = true;
  estimated_remaining_checks = none;
  expires_at = none;
  id = id;
  mode = temporary;
  next_check_at = none;
  stop_after_notify = true;
  timezone = "Asia/Shanghai";
  updated_at = updated_at;
  user_id = "u1";
}

-- Times that are all alike, and times that are "a" or later.
abbrev alike : String → String → Bool
alike a b = true

abbrev early : String → String → Bool
early a b = str_eq a "a" || not (str_eq b "a")

early-IsOrder : IsOrder early
early-IsOrder = record { total = λ a b h. ground arith; trans = λ a b c h k. ground arith }

abbrev result_of : WatchRule → WatchRuleCreateResult
result_of r = record {
  background_scheduled = true;
  idle_port_ids = [];
  message = "";
  rule = some r;
}

abbrev events : List Event
events =
    load
    ∷ create_reply (resolved (result_of (rule "r1" "a")))
    ∷ create_reply (resolved (result_of (rule "r2" "b")))
    ∷ update_reply (resolved (rule "r1" "c"))
    ∷ delete_reply "r2" (rejected (other_error "offline"))
    ∷ []

run-IsValid_example : IsValid (run early events initial)
run-IsValid_example = run-IsValid early events (tt, (tt, (tt, (tt, (tt, tt)))))

abbrev listing : Store
listing = record initial { rules = rule "r1" "a" ∷ []; rules_ref = rule "r1" "a" ∷ [] }

replies_lem_example :
    let s' = (delete_rule_settle early "r1" (resolved tt) listing).0 in
    IsCounted early s'
    × ((k : String) → member k (ids s'.rules) ≡ (member k ("r1" ∷ []) && not (str_eq "r1" k)))
replies_lem_example =
    (replies_lem early listing (record { same = refl; unique = (refl, tt) })).2 "r1"

run-IsSorted_example : IsSorted early (run early events initial).rules
run-IsSorted_example = run-IsSorted early early-IsOrder events (tt, (tt, (tt, (tt, (tt, tt)))))

time_to_minutes-minutes_to_time_example : time_to_minutes (minutes_to_time 2000) ≡ some 1439
time_to_minutes-minutes_to_time_example = time_to_minutes-minutes_to_time 2000
