-- ===== src/Notifications/Stream.antt =====
-- The listener of `subscribeNotifications` in frontend/lib/notification-context.tsx: a notification
-- that arrives on the stream.
use charge_api.Prelude.{
  ℕ, ◌+◌, ◌-◌, ◌==◌, Bool, true, false, not, ◌||◌, Option, none, some, String, List, ◌∷◌, str_eq,
  lookup, insert, if◌then◌else◌,
}
use charge_api.Api.{Notification, NotificationType, pile_recovered}
use charge_api.Notifications.Semantics.{notification_presentation}
use charge_api.Notifications.Quiet.{is_quiet_hours}
use charge_api.Notifications.Permission.{is_granted, enabled_in}
use charge_api.Notifications.Store.{
  BrowserPermissionState, Store, is_unread, remove, visible, version_of,
}

-- `new window.Notification(title, { body, tag })`.
pub record BrowserNotification : Type 0 where
  pub title : String
  pub body : String
  pub tag : String

-- `streamedNotificationVersionsRef.current.get(id) === version`.
abbrev pub is_version : String → Option String → Bool
is_version version none = false
is_version version (some v) = str_eq v version

-- The new count, from what was known of the notification and what it says now.
unfoldable pub count_after : Option Bool → Bool → ℕ → ℕ → ℕ
count_after (some false) true occurrence_count count = count + 1
count_after (some true) false occurrence_count count = count - 1
count_after none true occurrence_count count = if occurrence_count == 1 then count + 1 else count
count_after _ _ _ count = count

abbrev is_recovered : NotificationType → Bool
is_recovered pile_recovered = true
is_recovered _ = false

module _ (format_to_parts : String → ℕ → List (String × String)) where
  -- Whether the browser is asked to show the notification.
  unfoldable pub shows : BrowserPermissionState → ℕ → Notification → Store → Bool
  shows permission now n s = not (
      is_recovered n.type
      || not (enabled_in s.preference_ref)
      || not (is_granted permission)
      || is_quiet_hours format_to_parts s.preference_ref now)

  unfoldable pub browser_notification :
      BrowserPermissionState → ℕ → Notification → Store → Option BrowserNotification
  unfolding shows
  browser_notification permission now n s =
      if shows permission now n s
      then (let p = notification_presentation n in
          some (record { title = p.title; body = p.message; tag = n.id }))
      else none

-- The state after a notification that was not dropped.
unfoldable pub receive : Notification → Store → Store
unfolding count_after
receive n s = record s {
  streamed_versions = insert n.id (version_of n) s.streamed_versions;
  unread_count =
      count_after (lookup n.id s.unread_state) (is_unread n) n.occurrence_count s.unread_count;
  unread_state = insert n.id (is_unread n) s.unread_state;
  items = if visible s.status_ref n then n ∷ remove n.id s.items else remove n.id s.items;
}

-- A version that was streamed before is dropped.
unfoldable pub is_repeated : Notification → Store → Bool
is_repeated n s = is_version (version_of n) (lookup n.id s.streamed_versions)

unfoldable pub on_notification :
    (format_to_parts : String → ℕ → List (String × String))
    → BrowserPermissionState
    → ℕ
    → Notification
    → Store
    → Store × Option BrowserNotification
unfolding receive browser_notification
on_notification format_to_parts permission now n s =
    if is_repeated n s
    then (s, none)
    else (receive n s, browser_notification format_to_parts permission now n (receive n s))
