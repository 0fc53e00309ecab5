-- ===== src/Notifications/Actions.antt =====
-- The callbacks of `NotificationProvider` (frontend/lib/notification-context.tsx). A callback that
-- waits for the server is two functions: what runs before the wait, and what runs when the promise
-- settles, on the state of that moment.
use charge_api.Prelude.{
  ℕ, ◌+◌, ◌-◌, ◌==◌, Bool, true, false, not, ◌&&◌, ◌||◌, Option, none, some, String, List, [], map,
  any, insert, is_truthy, ltb, if◌then◌else◌,
}
use charge_api.Api.{
  Notification, NotificationPage, NotificationPreference, NotificationStatusFilter, unread,
}
use charge_api.Http.{Settled, resolved, rejected, message_of}
use charge_api.Notifications.Store.{
  Store, is_unread, has_id, merge_notifications, note_unread, replace, remove,
}

-- `load`, up to the request: the new state and the version that the request carries.
unfoldable pub load_begin : NotificationStatusFilter → Store → Store × ℕ
load_begin next_status s = (
  record s {
    request_version = s.request_version + 1;
    status_ref = next_status;
    status = next_status;
    loading = true;
    error = none;
  },
  s.request_version + 1,
)

-- `load`, from the reply. A reply to an older request is dropped, errors included.
unfoldable pub load_settle : ℕ → Settled NotificationPage → ℕ → Store → Store × Settled (Unit {0})
unfolding note_unread
load_settle version (resolved page) now s =
    if version == s.request_version
    then (
      record s {
        items = page.items;
        unread_state = note_unread [] page.items;
        unread_count = page.unread_count;
        next_cursor = page.next_cursor;
        loaded = true;
        loaded_ref = true;
        last_load_at = now;
        loading = false;
      },
      resolved tt,
    )
    else (s, resolved tt)
load_settle version (rejected reason) now s =
    if version == s.request_version
    then (record s { error = some (message_of reason); loading = false }, rejected reason)
    else (s, resolved tt)

-- `loadMore`, up to the request. The cursor and the flag are those of the render that made the
-- callback; the filter is that of the call. `none`: the guard returned.
unfoldable pub load_more_begin :
    Option String → Bool → Store → Option (Store × NotificationStatusFilter × Option String)
load_more_begin next_cursor loading_more s =
    if is_truthy next_cursor && not loading_more
    then some (record s { loading_more = true; error = none }, s.status_ref, next_cursor)
    else none

unfoldable pub load_more_settle : Settled NotificationPage → Store → Store × Settled (Unit {0})
unfolding merge_notifications note_unread
load_more_settle (resolved page) s = (
  record s {
    items = merge_notifications s.items page.items;
    unread_state = note_unread s.unread_state page.items;
    unread_count = page.unread_count;
    next_cursor = page.next_cursor;
    loading_more = false;
  },
  resolved tt,
)
load_more_settle (rejected reason) s =
    (record s { error = some (message_of reason); loading_more = false }, rejected reason)

abbrev mark_in : NotificationStatusFilter → Notification → List Notification → List Notification
mark_in unread updated items = remove updated.id items
mark_in _ updated items = replace updated items

-- `markRead`, from the reply. `seen` is the list of the render that made the callback.
unfoldable pub mark_read_settle :
    List Notification → String → Settled Notification → Store → Store × Settled (Unit {0})
mark_read_settle seen id (resolved updated) s = (
  record s {
    unread_state = insert updated.id false s.unread_state;
    items = mark_in s.status_ref updated s.items;
    unread_count =
        if any (λ n. has_id id n && is_unread n) seen then s.unread_count - 1 else s.unread_count;
  },
  resolved tt,
)
mark_read_settle seen id (rejected reason) s = (s, rejected reason)

-- `notification.readAt ? notification : { ...notification, readAt }`.
abbrev pub read_from : String → Notification → Notification
read_from read_at n = if is_truthy n.read_at then n else record n { read_at = some read_at }

abbrev mark_all_in : NotificationStatusFilter → String → List Notification → List Notification
mark_all_in unread read_at items = []
mark_all_in _ read_at items = map (read_from read_at) items

-- `markAllRead`, from the reply: how many the server updated, at the client's time `read_at`.
unfoldable pub mark_all_read_settle : String → Settled ℕ → Store → Store × Settled ℕ
mark_all_read_settle read_at (resolved updated) s = (
  record s {
    items = mark_all_in s.status_ref read_at s.items;
    unread_count = 0;
    unread_state = map (λ e. (e.0, false)) s.unread_state;
  },
  resolved updated,
)
mark_all_read_settle read_at (rejected reason) s = (s, rejected reason)

-- `clearResolved`, from the reply: the list is loaded again, with the version of that request.
unfoldable pub clear_resolved_settle : Settled ℕ → Store → Store × Settled (ℕ × ℕ)
unfolding load_begin
clear_resolved_settle (resolved deleted) s =
    let (s', version) = load_begin s.status_ref s in (s', resolved (deleted, version))
clear_resolved_settle (rejected reason) s = (s, rejected reason)

-- The listener of `subscribeStreamOpen`: a load of at least a second ago is repeated.
unfoldable pub on_stream_open : ℕ → Store → Option (Store × ℕ)
unfolding load_begin
on_stream_open now s =
    if not s.loaded_ref || ltb now (s.last_load_at + 1000)
    then none
    else some (load_begin s.status_ref s)

-- The effect that keeps `preferenceRef` at the current preference.
unfoldable pub set_preference : Option NotificationPreference → Store → Store
set_preference preference s = record s { preference_ref = preference }
