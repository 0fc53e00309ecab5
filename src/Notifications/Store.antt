-- ===== src/Notifications/Store.antt =====
-- The state of `NotificationProvider` (frontend/lib/notification-context.tsx): its React state and
-- its refs in one record, and the reads and writes of the list.
use charge_api.Prelude.{
  ℕ, Bool, true, false, not, ◌&&◌, Option, none, String, List, [], ◌∷◌, map, filter, str_eq, insert,
  is_truthy, concat, get_or, if◌then◌else◌,
}
use charge_api.Api.{
  Notification, NotificationPreference, NotificationStatusFilter, all, unread, pending, resolved,
}
use charge_api.Notifications.Semantics.{notification_requires_action}

pub data BrowserPermissionState : Type 0 where
  default denied granted unsupported : BrowserPermissionState

pub record Store : Type 0 where
  pub items : List Notification
  pub unread_count : ℕ
  pub next_cursor : Option String
  pub status : NotificationStatusFilter
  pub loading : Bool
  pub loading_more : Bool
  pub loaded : Bool
  pub error : Option String
  pub browser_permission : BrowserPermissionState
  pub request_version : ℕ
  pub loaded_ref : Bool
  pub status_ref : NotificationStatusFilter
  pub preference_ref : Option NotificationPreference
  pub last_load_at : ℕ
  pub streamed_versions : List (String × String)
  pub unread_state : List (String × Bool)

unfoldable pub initial : Store
initial = record {
  items = [];
  unread_count = 0;
  next_cursor = none;
  status = all;
  loading = false;
  loading_more = false;
  loaded = false;
  error = none;
  browser_permission = unsupported;
  request_version = 0;
  loaded_ref = false;
  status_ref = all;
  preference_ref = none;
  last_load_at = 0;
  streamed_versions = [];
  unread_state = [];
}

-- `!notification.readAt`.
abbrev pub is_unread : Notification → Bool
is_unread n = not (is_truthy n.read_at)

abbrev pub has_id : String → Notification → Bool
has_id id n = str_eq n.id id

-- `merged.set(notification.id, notification)` on the map of the list: an identifier that is there
-- keeps its place.
unfoldable pub put : Notification → List Notification → List Notification
put n [] = n ∷ []
put n (m ∷ ms) = if str_eq m.id n.id then n ∷ ms else m ∷ put n ms

unfoldable pub put_all : List Notification → List Notification → List Notification
put_all merged [] = merged
put_all merged (n ∷ incoming) = put_all (put n merged) incoming

unfoldable pub merge_notifications : List Notification → List Notification → List Notification
unfolding put_all put
merge_notifications current incoming = put_all (put_all [] current) incoming

-- `new Map(page.items.map(…))` and the loop of `loadMore`.
unfoldable pub note_unread : List (String × Bool) → List Notification → List (String × Bool)
note_unread m [] = m
note_unread m (n ∷ ns) = note_unread (insert n.id (is_unread n) m) ns

-- `updated` in place of the notification with its identifier.
abbrev pub replace : Notification → List Notification → List Notification
replace updated = map (λ n. if has_id updated.id n then updated else n)

abbrev pub remove : String → List Notification → List Notification
remove id = filter (λ n. not (has_id id n))

abbrev is_unread_filter : NotificationStatusFilter → Bool
is_unread_filter unread = true
is_unread_filter _ = false

-- `visible` of the stream's listener.
unfoldable pub visible : NotificationStatusFilter → Notification → Bool
visible all n = true
visible unread n = is_unread n
visible pending n = notification_requires_action n.type && not (is_truthy n.resolved_at)
visible resolved n = notification_requires_action n.type && is_truthy n.resolved_at

-- `${lastOccurredAt}:${readAt ?? ""}:${resolvedAt ?? ""}`.
unfoldable pub version_of : Notification → String
version_of n =
    concat (n.last_occurred_at ∷ ":" ∷ get_or n.read_at "" ∷ ":" ∷ get_or n.resolved_at "" ∷ [])
