-- ===== src/Dashboard/Stream.antt =====
-- The stream and the listener sets of frontend/lib/dashboard-context.tsx.
use charge_api.Prelude.{
  ℕ, ◌+◌, ◌==◌, Bool, true, false, not, ◌||◌, Option, none, some, String, List, [], ◌∷◌, ◌++◌, ℤ,
  filter, any, is_some, if◌then◌else◌,
}
use charge_api.Types.{DashboardSnapshot}
use charge_api.Dashboard.Store.{idle, connecting, connected, error, Store, apply_snapshot}

-- `Set.prototype.add` and `delete`.
abbrev pub add : ℕ → List ℕ → List ℕ
add k set = if any (λ j. j == k) set then set else set ++ (k ∷ [])

abbrev pub delete : ℕ → List ℕ → List ℕ
delete k = filter (λ j. not (j == k))

unfoldable pub subscribe_notifications : ℕ → Store → Store
subscribe_notifications k s = record s { notification_listeners = add k s.notification_listeners }

unfoldable pub unsubscribe_notifications : ℕ → Store → Store
unsubscribe_notifications k s = record s {
  notification_listeners = delete k s.notification_listeners;
}

unfoldable pub subscribe_stream_open : ℕ → Store → Store
subscribe_stream_open k s = record s { stream_open_listeners = add k s.stream_open_listeners }

unfoldable pub unsubscribe_stream_open : ℕ → Store → Store
unsubscribe_stream_open k s = record s { stream_open_listeners = delete k s.stream_open_listeners }

-- `openStream`; `supported`: the browser has `EventSource`.
unfoldable pub open_stream : Bool → Store → Store
open_stream supported s = if is_some s.stream || not supported then s else record s {
  stream_state = connecting;
  stream = some s.next_source;
  sources = s.next_source ∷ s.sources;
  next_source = s.next_source + 1;
}

unfoldable pub connect_stream : Bool → Store → Store
unfolding open_stream
connect_stream supported s = open_stream supported (record s { stream_wanted = true })

-- `streamRef.current?.close()`.
abbrev pub close : Option ℕ → List ℕ → List ℕ
close none sources = sources
close (some k) sources = delete k sources

unfoldable pub disconnect_stream : Store → Store
disconnect_stream s = record s {
  stream_wanted = false;
  sources = close s.stream s.sources;
  stream = none;
  stream_state = idle;
}

-- The cleanup of the effect, when the provider is unmounted.
unfoldable pub unmount : Store → Store
unmount s = record s { sources = close s.stream s.sources; stream = none }

-- `onopen`: the state, and the listeners that are called.
unfoldable pub on_open : Store → Store × List ℕ
on_open s = (record s { stream_state = connected }, s.stream_open_listeners)

-- A "notification" message; `delivered` is false where its text does not parse or a listener throws.
unfoldable pub on_notification : Bool → Store → Store
on_notification delivered s = record s { stream_state = if delivered then connected else error }

-- `onerror`. The code does the same whether the browser connects again or, after a `fatal` error, has
-- closed the source: the ref keeps it.
unfoldable pub on_error : (fatal : Bool) → Store → Store
on_error fatal s = record s {
  stream_state = error;
  sources = if fatal then close s.stream s.sources else s.sources;
}

-- A "snapshot" message; `none` where its text does not parse.
unfoldable pub on_snapshot : (String → Option ℤ) → Option DashboardSnapshot → Store → Store
unfolding apply_snapshot
on_snapshot parse_date none s = record s { stream_state = error }
on_snapshot parse_date (some next) s = record (apply_snapshot parse_date next s) {
  stream_state = connected;
}
