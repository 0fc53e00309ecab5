-- ===== src/Notifications/Tests.antt =====
-- Runs of the notification store on small lists.
use charge_api.Prelude.{
  lookup, insert, ℕ, ◌≡◌, ◌≢◌, ◌+◌, ◌%◌, ◌-◌, ◌<◌, ◌↔◌, ◌⊎◌, refl, arith, true, false, Option, none,
  some, String, List, [], ◌∷◌, is_some, if◌then◌else◌, str_eq,
}
use charge_api.Api.{
  Notification, NotificationPage, NotificationPreference, unread, pending, info, pile_available,
  pile_recovered,
}
use charge_api.Http.{resolved, rejected, other_error}
use charge_api.Notifications.Store.{granted, Store, initial, visible, merge_notifications}
use charge_api.Notifications.Actions.{load_begin, load_settle, load_more_settle, mark_read_settle}
use charge_api.Notifications.Quiet.{is_quiet_hours, minute_in_timezone}
use charge_api.Notifications.Stream.{receive, on_notification}
use charge_api.Notifications.Events.{Event, load, load_reply, load_more_reply, streamed, run}
use charge_api.Notifications.Listing.{find, find-merge_notifications}
use charge_api.Notifications.Loads.{load_last_wins}
use charge_api.Notifications.Unique.{IsUnique, run-IsUnique}
use charge_api.Notifications.Filters.{Fits, receive_lem, load_more_overtaken}
use charge_api.Notifications.Unread.{
  IsCounted, known_unread, receive_all, met_late, receive_all-balance, mark_read_twice,
}
use charge_api.Notifications.Browser.{IsSame, IsChanged, on_notification-shows_iff}
use charge_api.Notifications.Cyclic.{is_quiet_hours_iff}

abbrev note : String → Option String → Notification
note id read_at = record {
  created_at = "2026-01-01T00:00:00Z";
  device_id = some "d1";
  id = id;
  last_occurred_at = "2026-01-01T00:00:00Z";
  message = "";
  occurrence_count = 1;
  port_id = some 2;
  read_at = read_at;
  resolved_at = none;
  severity = info;
  source_event_id = none;
  title = "";
  type = pile_available;
  user_id = "u1";
}

abbrev fresh : Notification
fresh = note "n1" none

abbrev seen : Notification
seen = note "n1" (some "2026-01-02T00:00:00Z")

abbrev page_of : List Notification → ℕ → NotificationPage
page_of items unread_count = record {
  items = items;
  next_cursor = none;
  unread_count = unread_count;
}

abbrev two : NotificationPage
two = page_of (fresh ∷ note "n2" none ∷ []) 2

abbrev preference : NotificationPreference
preference = record {
  browser_enabled = true;
  quiet_end_minute = 420;
  quiet_hours_enabled = true;
  quiet_start_minute = 1320;
  timezone = "Asia/Shanghai";
  updated_at = "";
  user_id = "u1";
}

-- The host's clock at half past eleven in the evening.
abbrev late : String → ℕ → List (String × String)
late timezone date = ("hour", "23") ∷ ("minute", "30") ∷ []

-- The host's clock at noon.
abbrev noon : String → ℕ → List (String × String)
noon timezone date = ("hour", "12") ∷ ("minute", "00") ∷ []

-- One unread notification, listed, counted and remembered.
abbrev holding : Store
holding = record initial {
  items = fresh ∷ [];
  unread_count = 1;
  unread_state = ("n1", true) ∷ [];
  preference_ref = some preference;
}

abbrev events : List Event
events =
    load unread
    ∷ load_reply 1 (resolved two) 5
    ∷ load_more_reply (resolved two)
    ∷ streamed granted 7 seen
    ∷ []

-- A failed load that is overtaken leaves no error.
load_last_wins_example :
    (let (s₁, v₁) = load_begin pending initial in
      let (s₂, v₂) = load_begin unread s₁ in
      (load_settle v₂
        (resolved two)
        9
        (load_settle v₁ (rejected (other_error "offline")) 8 s₂).0).0.items)
    ≡ two.items
load_last_wins_example =
    (load_last_wins pending unread (rejected (other_error "offline")) two 8 9 initial).1

run-IsUnique_example : IsUnique (run late events initial)
unfolding initial
run-IsUnique_example =
    run-IsUnique late events initial (tt, ((refl, (refl, tt)), (tt, (tt, tt)))) tt

abbrev messages : List Notification
messages = seen ∷ note "n3" none ∷ record (note "n4" none) { occurrence_count = 2 } ∷ []

abbrev counting : Store
counting = record holding { unread_count = 3 }

receive_all-balance_example :
    IsCounted (receive_all messages counting)
    × ((receive_all messages counting).unread_count
          + known_unread counting.unread_state
          + met_late messages counting
        ≡ counting.unread_count + known_unread (receive_all messages counting).unread_state)
unfolding met_late receive lookup insert
receive_all-balance_example = receive_all-balance messages counting (omega arith)

abbrev done : Notification
done = record (note "n9" none) { resolved_at = some "2026-01-02T00:00:00Z" }

on_notification-shows_iff_example :
    let after = receive (note "n9" none) holding in
    let shown = on_notification noon granted 3 done after in
    (IsSame (note "n9" none) done → shown ≡ (after, none))
    × (IsChanged (note "n9" none) done
        → (is_some shown.1 ≡ true) ↔ (
            (pile_available ≢ pile_recovered)
            × ((p : NotificationPreference) × (holding.preference_ref ≡ some p)
                × (p.browser_enabled ≡ true))
            × (granted ≡ granted)
            × (is_quiet_hours noon holding.preference_ref 3 ≡ false)))
on_notification-shows_iff_example =
    on_notification-shows_iff noon granted 3 (note "n9" none) done holding refl

holding-Fits : Fits holding
unfolding initial visible
holding-Fits = (refl, tt)

receive_lem_example :
    Fits (receive seen holding)
    × ((id : String)
        → find id (receive seen holding).items ≡ (
            if str_eq "n1" id
            then (if visible holding.status_ref seen then some seen else none)
            else find id holding.items))
receive_lem_example = receive_lem seen holding holding-Fits

find-merge_notifications_example :
    find "n1" (merge_notifications (fresh ∷ []) (seen ∷ note "n2" none ∷ [])) ≡ some seen
find-merge_notifications_example =
    find-merge_notifications "n1" (fresh ∷ []) (seen ∷ note "n2" none ∷ [])

is_quiet_hours_iff_example : (is_quiet_hours late (some preference) 5 ≡ true) ↔ (
    (true ≡ true)
    × (◌≡◌ {A = ℕ} 1320 420 ⊎ ((1410 + 1440 - 1320) % 1440 < (420 + 1440 - 1320) % 1440)))
unfolding minute_in_timezone
is_quiet_hours_iff_example =
    is_quiet_hours_iff late preference 5 1410 (omega arith) (omega arith) (omega arith) refl

load_more_overtaken_example :
    let (s₁, version) = load_begin unread initial in
    let s₂ = (load_settle version (resolved two) 1 s₁).0 in
    ¬ Fits (load_more_settle (resolved (page_of (seen ∷ []) 2)) s₂).0
unfolding visible
load_more_overtaken_example =
    load_more_overtaken unread two (page_of (seen ∷ []) 2) seen 1 initial refl refl

-- Two marks of one notification lower a count of 5 to 3.
mark_read_twice_example :
    let s = record holding { unread_count = 5 } in
    let s₁ = (mark_read_settle (fresh ∷ []) "n1" (resolved seen) s).0 in
    (mark_read_settle (fresh ∷ []) "n1" (resolved seen) s₁).0.unread_count ≡ 3
mark_read_twice_example =
    (mark_read_twice (fresh ∷ []) seen (record holding { unread_count = 5 }) refl).1
