-- ===== src/Watch/Confirms.antt =====
-- What the dialogs of the reminders' sheet send and leave, and what its form of the quiet hours sends.
use Prim.Native.Nat.{min}
use charge_api.Prelude.{
  ◌≡◌, refl, sym, subst, ap, ◌∙◌, arith, Bool, true, false, not, ◌&&◌, ◌||◌, Option, none, some,
  String, List, [], ◌∷◌, ◌++◌, filter, member, str_eq, eq_iff, if◌then◌else◌,
}
use charge_api.Api.{NotificationPreference, WatchRule}
use charge_api.Http.{Settled, resolved, rejected}
use charge_api.Watch.Format.{minutes_to_time, time_to_minutes}
use charge_api.Watch.Clock.{time_to_minutes-minutes_to_time}
use charge_api.Watch.Sheet.{
  quiet_form, quiet_begin, quiet_with, save, Kind, cancel, extend, delete, Sheet, delete_rule,
  compare_completed, set_rule_pending, candidate, request_of, confirm_begin, confirm_settle,
  confirm_with,
}

-- The form of the quiet hours that is opened and sent unchanged sends one request: the switch, the start and
-- the end of the preference, a time past the end of the day as its last minute, in the time zone of
-- Shanghai, and no word of the browser's notifications.
pub quiet_begin-quiet_form :
    (preference : NotificationPreference)
    → (quiet_begin (quiet_form preference)).1
      ≡ save (record {
        browser_enabled = none;
        quiet_hours_enabled = some preference.quiet_hours_enabled;
        quiet_start_minute = some (min 1439 preference.quiet_start_minute);
        quiet_end_minute = some (min 1439 preference.quiet_end_minute);
        timezone = some "Asia/Shanghai";
      })
        ∷ []
unfolding quiet_begin quiet_form
quiet_begin-quiet_form preference =
    ap
      (λ o.
        (quiet_with o (time_to_minutes (minutes_to_time preference.quiet_end_minute))
          (quiet_form preference)).1)
      (time_to_minutes-minutes_to_time preference.quiet_start_minute)
    ∙ ap
        (λ o.
          (quiet_with (some (min 1439 preference.quiet_start_minute)) o (quiet_form preference)).1)
        (time_to_minutes-minutes_to_time preference.quiet_end_minute)

-- Of two reminders that ended at different times, each is said to come after the other.
compare_completed_lem :
    (left right : WatchRule) (a b : String)
    → left.completed_at ≡ some a
    → right.completed_at ≡ some b
    → str_eq a b ≡ false
    → str_eq a "" ≡ false
    → str_eq b "" ≡ false
    → (compare_completed left right ≡ some true) × (compare_completed right left ≡ some true)
unfolding compare_completed
compare_completed_lem left right a b p q d f g = rw (p, q) (rw (d, other, f, g) (refl, refl))
  where
    other : str_eq b a ≡ false
    other = ground (arith, d, eq_iff a b, eq_iff b a)

member-append :
    (k id : String) (ids : List String)
    → member k (ids ++ (id ∷ [])) ≡ (member k ids || str_eq id k)
member-append k id [] = ground arith
member-append k id (x ∷ ids) = ground (arith, member-append k id ids)

member-filter :
    (k id : String) (ids : List String)
    → member k (filter (λ other. not (str_eq other id)) ids) ≡ (member k ids && not (str_eq k id))
member-filter k id [] = refl
member-filter k id (x ∷ ids) =
    ground (arith, member-filter k id ids, eq_iff x id, eq_iff k id, eq_iff x k)

member-pending :
    (k id : String) (pending : Bool) (ids : List String)
    → member k (set_rule_pending id pending ids) ≡ (if str_eq k id then pending else member k ids)
unfolding set_rule_pending
member-pending k id true ids = ground (arith, member-append k id ids, eq_iff k id, eq_iff id k)
member-pending k id false ids = ground (arith, member-filter k id ids)

-- The dialog that is open, after the reply.
abbrev pub left_open : Settled (Unit {0}) → WatchRule → Option WatchRule
left_open (resolved u) rule = none
left_open (rejected reason) rule = some rule

settle-candidate :
    (kind : Kind) (id : String) (reply : Settled (Unit {0})) (s : Sheet) (rule : WatchRule)
    → candidate kind s ≡ some rule
    → (candidate kind (confirm_settle kind id reply s).0 ≡ left_open reply rule)
      × ((confirm_settle kind id reply s).0.pending_rule_ids
          ≡ set_rule_pending id false s.pending_rule_ids)
unfolding confirm_settle
settle-candidate cancel id (resolved u) s rule q = (refl, refl)
settle-candidate extend id (resolved u) s rule q = (refl, refl)
settle-candidate delete id (resolved u) s rule q = (refl, refl)
settle-candidate cancel id (rejected reason) s rule q = (q, refl)
settle-candidate extend id (rejected reason) s rule q = (q, refl)
settle-candidate delete id (rejected reason) s rule q = (q, refl)

marked-candidate :
    (kind : Kind) (s : Sheet) (ids : List String)
    → candidate kind (record s { pending_rule_ids = ids }) ≡ candidate kind s
marked-candidate cancel s ids = refl
marked-candidate extend s ids = refl
marked-candidate delete s ids = refl

-- A dialog that is confirmed sends one request for its reminder, which is pending until the reply; then no
-- longer, and the dialog is closed by a success and open, with the reminder, after a failure. No other
-- reminder is pending that was not, nor free that was pending.
pub confirm_lem :
    (kind : Kind) (rule : WatchRule) (reply : Settled (Unit {0})) (s : Sheet) (k : String)
    → candidate kind s ≡ some rule
    → let sent = confirm_begin kind s in
      let after = confirm_settle kind rule.id reply sent.0 in
      (sent.1 ≡ request_of kind rule s.extend_duration ∷ [])
      × (member rule.id sent.0.pending_rule_ids ≡ true)
      × (candidate kind after.0 ≡ left_open reply rule)
      × (member k after.0.pending_rule_ids
          ≡ (if str_eq k rule.id then false else member k s.pending_rule_ids))
unfolding confirm_begin
confirm_lem kind rule reply s k q =
    subst
      (λ o.
        let sent = confirm_with kind o s in
        let after = confirm_settle kind rule.id reply sent.0 in
        (sent.1 ≡ request_of kind rule s.extend_duration ∷ [])
        × (member rule.id sent.0.pending_rule_ids ≡ true)
        × (candidate kind after.0 ≡ left_open reply rule)
        × (member k after.0.pending_rule_ids
            ≡ (if str_eq k rule.id then false else member k s.pending_rule_ids)))
      (sym q)
      (let ids = set_rule_pending rule.id true s.pending_rule_ids in
        let marked = record s { pending_rule_ids = ids } in
        let (open_or_not, freed) =
          settle-candidate kind rule.id reply marked rule (marked-candidate kind s ids ∙ q) in
        (
          refl,
          ground (
            arith,
            member-pending rule.id rule.id true s.pending_rule_ids,
            eq_iff rule.id rule.id,
          ),
          open_or_not,
          ap (member k) freed
              ∙ ground (
                arith,
                member-pending k rule.id false ids,
                member-pending k rule.id true s.pending_rule_ids,
              ),
        ))

-- A deletion that is confirmed again before its reply is sent again.
confirm_begin_again :
    (rule : WatchRule) (s : Sheet)
    → s.delete_candidate ≡ some rule
    → (confirm_begin delete s).1 ++ (confirm_begin delete (confirm_begin delete s).0).1
      ≡ delete_rule rule.id ∷ delete_rule rule.id ∷ []
unfolding confirm_begin
confirm_begin_again rule s q = rw (q) refl
