-- ===== src/Dashboard/Events.antt =====
-- What can happen to the dashboard store, and runs of such events.
use charge_api.Prelude.{ℕ, Bool, true, false, Option, String, List, [], ◌∷◌, ℤ}
use charge_api.Types.{DashboardSnapshot}
use charge_api.Http.{Settled}
use charge_api.Dashboard.Store.{
  Store, reset, fetch_begin, fetch_settle, snapshot_settle, mutation_settle, apply_snapshot,
}
use charge_api.Dashboard.Stream.{
  subscribe_notifications, unsubscribe_notifications, subscribe_stream_open,
  unsubscribe_stream_open, connect_stream, disconnect_stream, unmount, on_open, on_notification,
  on_error, on_snapshot,
}

pub data Event : Type 0 where
  set_snapshot : DashboardSnapshot → Event
  cleared : (now : String) → Event
  fetch : Event
  fetch_reply : Settled DashboardSnapshot → Event
  snapshot_reply : Settled DashboardSnapshot → Event
  mutation_reply : (supported is_open : Bool) → Settled (Unit {0}) → Event
  connect : (supported : Bool) → Event
  disconnect : Event
  unmounted : Event
  opened : Event
  snapshot_message : Option DashboardSnapshot → Event
  notification_message : (delivered : Bool) → Event
  -- `onerror`; `fatal`: the browser has closed the source and does not connect again.
  failed : (fatal : Bool) → Event
  notification_listener : (added : Bool) → ℕ → Event
  open_listener : (added : Bool) → ℕ → Event

module _ (parse_date : String → Option ℤ) where
  unfoldable pub step : Event → Store → Store
  step (set_snapshot next) s = apply_snapshot parse_date next s
  step (cleared now) s = reset now s
  step fetch s = fetch_begin s
  step (fetch_reply reply) s = (fetch_settle parse_date reply s).0
  step (snapshot_reply reply) s = (snapshot_settle parse_date reply s).0
  step (mutation_reply supported is_open reply) s = (mutation_settle supported is_open reply s).0
  step (connect supported) s = connect_stream supported s
  step disconnect s = disconnect_stream s
  step unmounted s = unmount s
  step opened s = (on_open s).0
  step (snapshot_message message) s = on_snapshot parse_date message s
  step (notification_message delivered) s = on_notification delivered s
  step (failed fatal) s = on_error fatal s
  step (notification_listener added k) s = elim added [
    | true ↦ subscribe_notifications k s
    | false ↦ unsubscribe_notifications k s
  ]
  step (open_listener added k) s = elim added [
    | true ↦ subscribe_stream_open k s
    | false ↦ unsubscribe_stream_open k s
  ]

  unfoldable pub run : List Event → Store → Store
  run [] s = s
  run (e ∷ es) s = run es (step e s)
