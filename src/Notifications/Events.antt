-- ===== src/Notifications/Events.antt =====
-- What can happen to the notification store between two renders, and runs of such events. Requests
-- settle in any order: each reply is an event of its own.
use charge_api.Prelude.{ℕ, Bool, Option, none, some, String, List, [], ◌∷◌}
use charge_api.Api.{
  Notification, NotificationPage, NotificationPreference, NotificationStatusFilter,
}
use charge_api.Http.{Settled}
use charge_api.Notifications.Store.{BrowserPermissionState, Store}
use charge_api.Notifications.Actions.{
  load_begin, load_settle, load_more_begin, load_more_settle, mark_read_settle,
  mark_all_read_settle, clear_resolved_settle, on_stream_open, set_preference,
}
use charge_api.Notifications.Permission.{refresh_permission, set_browser_enabled_settle}
use charge_api.Notifications.Stream.{on_notification}

pub data Event : Type 0 where
  load : NotificationStatusFilter → Event
  load_reply : (version : ℕ) → Settled NotificationPage → (now : ℕ) → Event
  load_more : (next_cursor : Option String) → (loading_more : Bool) → Event
  load_more_reply : Settled NotificationPage → Event
  mark_read_reply : (seen : List Notification) → (id : String) → Settled Notification → Event
  mark_all_read_reply : (read_at : String) → Settled ℕ → Event
  clear_resolved_reply : Settled ℕ → Event
  streamed : BrowserPermissionState → (now : ℕ) → Notification → Event
  stream_open : (now : ℕ) → Event
  preference : Option NotificationPreference → Event
  focused : BrowserPermissionState → Event
  browser_enabled : (permission answer : BrowserPermissionState) → Bool → Event

abbrev first_or {ℓ} : {A : Type ℓ} {B : Type ℓ} → (A → B) → B → Option A → B
first_or f b none = b
first_or f b (some a) = f a

module _ (format_to_parts : String → ℕ → List (String × String)) where
  unfoldable pub step : Event → Store → Store
  step (load status) s = (load_begin status s).0
  step (load_reply version reply now) s = (load_settle version reply now s).0
  step (load_more next_cursor loading_more) s =
      first_or (λ r. r.0) s (load_more_begin next_cursor loading_more s)
  step (load_more_reply reply) s = (load_more_settle reply s).0
  step (mark_read_reply seen id reply) s = (mark_read_settle seen id reply s).0
  step (mark_all_read_reply read_at reply) s = (mark_all_read_settle read_at reply s).0
  step (clear_resolved_reply reply) s = (clear_resolved_settle reply s).0
  step (streamed permission now n) s = (on_notification format_to_parts permission now n s).0
  step (stream_open now) s = first_or (λ r. r.0) s (on_stream_open now s)
  step (preference p) s = set_preference p s
  step (focused permission) s = refresh_permission permission s
  step (browser_enabled permission answer enabled) s =
      (set_browser_enabled_settle permission answer enabled s).0

  unfoldable pub run : List Event → Store → Store
  run [] s = s
  run (e ∷ es) s = run es (step e s)
