-- ===== src/Notifications/Unique.antt =====
-- No identifier is shown twice, whatever happens to the notification store.
use charge_api.Prelude.{ℕ, arith, String, List, [], ◌∷◌, All, Distinct, Bool-cases, inl, inr}
use charge_api.Api.{Notification}
use charge_api.Http.{resolved, rejected}
use charge_api.Notifications.Store.{Store, visible}
use charge_api.Notifications.Actions.{
  load_begin, load_settle, load_more_begin, load_more_settle, mark_read_settle,
  mark_all_read_settle, clear_resolved_settle, on_stream_open, set_preference,
}
use charge_api.Notifications.Permission.{refresh_permission, set_browser_enabled_settle}
use charge_api.Notifications.Stream.{on_notification, receive}
use charge_api.Notifications.Events.{
  Event, load, load_reply, load_more, load_more_reply, mark_read_reply, mark_all_read_reply,
  clear_resolved_reply, streamed, stream_open, preference, focused, browser_enabled, step, run,
}
use charge_api.Notifications.Listing.{
  ids, merge_notifications-Distinct, replace-Distinct, read_from-Distinct, remove-Distinct,
  member-remove_self,
}

-- No two notifications of the list have one identifier.
abbrev pub IsUnique : Store → Type 0
IsUnique s = Distinct (ids s.items)

-- The server sends no identifier twice in a first page.
abbrev pub IsFair : Event → Type 0
IsFair (load_reply version (resolved page) now) = Distinct (ids page.items)
IsFair _ = Unit

receive-IsUnique : (n : Notification) (s : Store) → IsUnique s → IsUnique (receive n s)
unfolding receive
receive-IsUnique n s h = elim (Bool-cases (visible s.status_ref n)) [
  | inl shown ↦ rw shown (member-remove_self n.id s.items, remove-Distinct n.id s.items h)
  | inr hidden ↦ rw hidden (remove-Distinct n.id s.items h)
]

mark_read_settle-IsUnique :
    (seen : List Notification) (id : String) (updated : Notification) (s : Store)
    → IsUnique s
    → IsUnique (mark_read_settle seen id (resolved updated) s).0
unfolding mark_read_settle
mark_read_settle-IsUnique seen id updated s h =
    ground (arith, remove-Distinct updated.id s.items h, replace-Distinct updated s.items h)

mark_all_read_settle-IsUnique :
    (read_at : String) (updated : ℕ) (s : Store)
    → IsUnique s
    → IsUnique (mark_all_read_settle read_at (resolved updated) s).0
unfolding mark_all_read_settle
mark_all_read_settle-IsUnique read_at updated s h =
    ground (arith, read_from-Distinct read_at s.items h)

module _ (format_to_parts : String → ℕ → List (String × String)) where
  step-IsUnique :
      (e : Event) (s : Store) → IsFair e → IsUnique s → IsUnique (step format_to_parts e s)
  unfolding step
  step-IsUnique (load status) s f h = unfold load_begin in h
  step-IsUnique (load_reply version (resolved page) now) s f h = unfold load_settle in ground arith
  step-IsUnique (load_reply version (rejected reason) now) s f h =
      unfold load_settle in ground arith
  step-IsUnique (load_more cursor flag) s f h = unfold load_more_begin in ground arith
  step-IsUnique (load_more_reply (resolved page)) s f h =
      unfold load_more_settle in merge_notifications-Distinct s.items page.items
  step-IsUnique (load_more_reply (rejected reason)) s f h = unfold load_more_settle in h
  step-IsUnique (mark_read_reply seen id (resolved updated)) s f h =
      mark_read_settle-IsUnique seen id updated s h
  step-IsUnique (mark_read_reply seen id (rejected reason)) s f h = unfold mark_read_settle in h
  step-IsUnique (mark_all_read_reply read_at (resolved updated)) s f h =
      mark_all_read_settle-IsUnique read_at updated s h
  step-IsUnique (mark_all_read_reply read_at (rejected reason)) s f h =
      unfold mark_all_read_settle in h
  step-IsUnique (clear_resolved_reply (resolved deleted)) s f h = unfold clear_resolved_settle in h
  step-IsUnique (clear_resolved_reply (rejected reason)) s f h = unfold clear_resolved_settle in h
  step-IsUnique (streamed permission now n) s f h =
      unfold on_notification in ground (arith, receive-IsUnique n s h)
  step-IsUnique (stream_open now) s f h = unfold on_stream_open in ground arith
  step-IsUnique (preference p) s f h = unfold set_preference in h
  step-IsUnique (focused permission) s f h = unfold refresh_permission in h
  step-IsUnique (browser_enabled permission answer enabled) s f h =
      unfold set_browser_enabled_settle in ground arith

  -- If no first page holds an identifier twice, no identifier is shown twice, after any events in
  -- any order: overlapping loads, further pages, stream messages and read marks.
  pub run-IsUnique :
      (es : List Event) (s : Store)
      → All IsFair es
      → IsUnique s
      → IsUnique (run format_to_parts es s)
  unfolding run
  run-IsUnique [] s f h = h
  run-IsUnique (e ∷ es) s (f, fs) h =
      run-IsUnique es (step format_to_parts e s) fs (step-IsUnique e s f h)
