-- ===== src/Prototype/Limits.antt =====
-- What the form of a watch lets through.
use Prim.Native.String
use text.Mathlib.TextLemmas.{cons-append, cons≢nil}
use charge_api.Prelude.{
  ℕ, ◌+◌, ◌*◌, ◌≤◌, ◌≡◌, ◌≢◌, refl, sym, ◌∙◌, subst, arith, Bool, true, false, not, ◌&&◌, ◌||◌,
  Option, none, some, String, List, [], ◌∷◌, any, filter, length, str_eq, eq_iff, concat, decimal,
  leb, ltb, if◌then◌else◌,
}
use charge_api.Types.{Port, Pile}
use charge_api.Prototype.Model.{
  Duration, one_hour, two_hours, four_hours, until_power_off, DemoWatch, Clock,
}
use charge_api.Prototype.Update.{update_first, find}
use charge_api.Prototype.Change.{is_active}
use charge_api.Prototype.Recipes.{apply, save_watch, watches, save_watch_in, watches_with}
use charge_api.Prototype.Checks.{watch_end_time}
use charge_api.Prototype.App.{data_of, State, Request, close}
use charge_api.Prototype.Forms.{
  Answer, refused, asked, needs_scan, active_count, is_planned, is_used_up, blocked_reason,
  answer_watch, answer_watch_for, answer_watch_at, request, watch_message,
}

-- Whatever the duration, a watch ends no later than the power goes off on the day when it starts, where that
-- is planned; and one by the hour no later than its hours.
watch_end_time_lem :
    (midnight : ℕ → ℕ) (duration : Duration) (start minute : ℕ)
    → (watch_end_time midnight duration start true minute ≤ midnight start + minute * 60000)
      × (watch_end_time midnight duration start true minute
          ≤ watch_end_time midnight duration start false minute)
unfolding watch_end_time
watch_end_time_lem midnight one_hour start minute = (omega arith, omega arith)
watch_end_time_lem midnight two_hours start minute = (omega arith, omega arith)
watch_end_time_lem midnight four_hours start minute = (omega arith, omega arith)
watch_end_time_lem midnight until_power_off start minute = (omega arith, omega arith)

waiting_text : (n : ℕ) → concat ("你已经在等待 " ∷ decimal n ∷ " 台充电桩，先结束一条提醒再继续。" ∷ []) ≢ ""
waiting_text n q =
    cons≢nil (sym (cons-append "你" "已经在等待 " (String.◌++◌ (decimal n) " 台充电桩，先结束一条提醒再继续。")) ∙ q)

-- The first message of a chain is not shown where the chain gives none.
passed : (b : Bool) (x y : String) → x ≢ "" → (if b then x else y) ≡ "" → (b ≡ false) × (y ≡ "")
passed true x y full h = absurd (full h)
passed false x y full h = (refl, h)

is_full : (x : String) → str_eq x "" ≡ false → x ≢ ""
is_full x h q = ground (arith, h, eq_iff x "")

-- Nothing is in the way of a watch.
abbrev IsClear : String → State → Type 0
IsClear device_id s =
    ((data_of s).settings.background_reminders_enabled ≡ true)
    × (needs_scan s ≡ false)
    × ((any (watches device_id) (data_of s).watches
          || ltb (active_count (data_of s)) (data_of s).settings.watch_pile_limit_per_user)
        ≡ true)

blocked_reason-IsClear :
    (device_id : String) (ports : List Port) (s : State)
    → blocked_reason device_id ports s ≡ ""
    → IsClear device_id s
unfolding blocked_reason
blocked_reason-IsClear device_id ports s h =
    let (enabled, rest) =
      passed (not (data_of s).settings.background_reminders_enabled) "管理员暂时关闭了后台提醒。" _
        (is_full _ refl) h in
    let (connected, rest) = passed (needs_scan s) "平台登录需要恢复，请先重新扫码。" _ (is_full _ refl) rest in
    let (powered, rest) =
      passed (is_planned s.scenario) "当前处于计划断电时段，供电恢复后再开启提醒。" _ (is_full _ refl) rest in
    let (paid, rest) =
      passed (is_used_up s.scenario) "今日远端检查额度已用完，明天会恢复。" _ (is_full _ refl) rest in
    let (few, rest) =
      passed
        (not (any (watches device_id) (data_of s).watches)
          && leb (data_of s).settings.watch_pile_limit_per_user (active_count (data_of s)))
        _ _ (waiting_text (active_count (data_of s))) rest in
    (ground (arith, enabled), connected, ground (arith, few))

count_updated :
    (device_id end : String) (duration : Duration) (ws : List DemoWatch)
    → length (
        filter is_active (
          update_first
            (watches device_id)
            (λ (w : DemoWatch). record w { duration = duration; expires_at = end })
            ws))
      ≡ length (filter is_active ws)
unfolding update_first
count_updated device_id end duration [] = refl
count_updated device_id end duration (w ∷ ws) =
    ground (arith, count_updated device_id end duration ws)

find-any : (p : DemoWatch → Bool) (ws : List DemoWatch) → find p ws ≡ none → any p ws ≡ false
unfolding find
find-any p [] h = refl
find-any p (w ∷ ws) h = ground (arith, find-any p ws)

-- A watch that is saved where nothing is in the way keeps to the limit.
saved_count :
    (clock : Clock) (stamp : ℕ) (device_id : String) (duration : Duration) (end : String)
    (s : State)
    → IsClear device_id s
    → active_count (data_of s) ≤ (data_of s).settings.watch_pile_limit_per_user
    → active_count (apply clock stamp (save_watch device_id duration end) (data_of s))
      ≤ (data_of s).settings.watch_pile_limit_per_user
unfolding apply save_watch_in watches_with
saved_count clock stamp device_id duration end s (_, _, free) within =
    by_found (find (watches device_id) (data_of s).watches) refl
  where
    by_found :
        (o : Option DemoWatch)
        → find (watches device_id) (data_of s).watches ≡ o
        → length (filter is_active (watches_with clock stamp device_id duration end o (data_of s)))
          ≤ (data_of s).settings.watch_pile_limit_per_user
    by_found none q = ground (arith, free, find-any (watches device_id) (data_of s).watches q)
    by_found (some w) q = rw (count_updated device_id end duration (data_of s).watches) within

-- What a recipe that is asked for keeps.
abbrev IsAllowed : Clock → ℕ → State → Answer → Type 0
IsAllowed clock stamp s (asked r) =
    ((data_of s).settings.background_reminders_enabled ≡ true)
    × (needs_scan s ≡ false)
    × (active_count (apply clock stamp r.change (data_of s))
        ≤ (data_of s).settings.watch_pile_limit_per_user)
IsAllowed clock stamp s _ = Unit {0}

timed :
    (clock : Clock) (stamp : ℕ) (o : Option ℕ) (p : Pile) (duration : Duration) (s : State)
    → active_count (data_of s) ≤ (data_of s).settings.watch_pile_limit_per_user
    → IsClear p.id s
    → IsAllowed clock stamp s (answer_watch_at clock o p duration s)
timed clock stamp none p duration s within clear = tt
timed clock stamp (some start) p duration s within clear = by_time (leb end start)
  where
    end : ℕ
    end =
        watch_end_time clock.midnight duration start
          (data_of s).settings.scheduled_power_off_enabled
          (data_of s).settings.scheduled_power_off_start_minute

    by_time :
        (b : Bool)
        → IsAllowed clock stamp s (
            if b
            then refused "已到当天计划断电时间，供电恢复后再开启提醒。"
            else asked (
                request
                  (save_watch p.id duration (clock.to_iso end))
                  (watch_message (any (watches p.id) (data_of s).watches) p.name)
                  close))
    by_time true = tt
    by_time false =
        (clear.0, clear.1, saved_count clock stamp p.id duration (clock.to_iso end) s clear within)

placed :
    (clock : Clock) (stamp : ℕ) (device_id : String) (o : Option Pile) (duration : Duration)
    (s : State)
    → active_count (data_of s) ≤ (data_of s).settings.watch_pile_limit_per_user
    → IsAllowed clock stamp s (answer_watch_for clock device_id o duration s)
placed clock stamp device_id none duration s within =
    by_error (str_eq (blocked_reason device_id [] s) "")
  where
    by_error :
        (b : Bool)
        → IsAllowed clock stamp s
            (if b then refused "请先选择充电桩。" else refused (blocked_reason device_id [] s))
    by_error true = tt
    by_error false = tt
placed clock stamp device_id (some p) duration s within =
    by_error (str_eq (blocked_reason p.id p.ports s) "") refl
  where
    by_error :
        (b : Bool)
        → str_eq (blocked_reason p.id p.ports s) "" ≡ b
        → IsAllowed clock stamp s (
            if b
            then answer_watch_at clock (clock.time_of (data_of s).snapshot_at) p duration s
            else refused (blocked_reason p.id p.ports s))
    by_error true q =
        timed clock stamp (clock.time_of (data_of s).snapshot_at) p duration s within (
          blocked_reason-IsClear p.id p.ports s
            (ground (arith, q, eq_iff (blocked_reason p.id p.ports s) "")))
    by_error false q = tt

-- Where the form of a watch calls `commit`, the reminders are enabled and the platform is connected; and the
-- recipe, where it is written to these data, leaves no more waiting watches than the limit, where there were
-- no more before.
pub answer_watch_lem :
    (clock : Clock) (stamp : ℕ) (device_id : String) (duration : Duration) (s : State) (r : Request)
    → answer_watch clock device_id duration s ≡ asked r
    → active_count (data_of s) ≤ (data_of s).settings.watch_pile_limit_per_user
    → ((data_of s).settings.background_reminders_enabled ≡ true)
      × (needs_scan s ≡ false)
      × (active_count (apply clock stamp r.change (data_of s))
          ≤ (data_of s).settings.watch_pile_limit_per_user)
unfolding answer_watch
answer_watch_lem clock stamp device_id duration s r q within = subst (IsAllowed clock stamp s) q (
    placed clock stamp device_id (find (λ (p : Pile). str_eq p.id device_id) (data_of s).piles)
      duration s within)
