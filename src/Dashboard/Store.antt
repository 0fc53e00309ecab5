-- ===== src/Dashboard/Store.antt =====
-- The state of `DashboardProvider` (frontend/lib/dashboard-context.tsx) and its requests. A callback
-- that waits for the server is two functions, before the wait and from the reply.
use charge_api.Prelude.{
  ℕ, Bool, true, false, ◌&&◌, Option, none, some, String, List, [], ℤ, pos, less, is_some,
  if◌then◌else◌,
}
use charge_api.Types.{DashboardSnapshot}
use charge_api.Http.{Settled, resolved, rejected}

pub data StreamState : Type 0 where
  idle connecting connected error : StreamState

pub record Store : Type 0 where
  pub snapshot : DashboardSnapshot
  pub loading : Bool
  pub stream_state : StreamState
  -- `streamRef`: the `EventSource` in use, by the number of its creation.
  pub stream : Option ℕ
  pub stream_wanted : Bool
  pub last_server_stamp : ℤ
  -- The event sources that the browser holds open, and the number of the next one.
  pub sources : List ℕ
  pub next_source : ℕ
  -- The two listener sets, by the numbers of the subscriptions, in order of insertion.
  pub notification_listeners : List ℕ
  pub stream_open_listeners : List ℕ

unfoldable pub initial_snapshot : String → DashboardSnapshot
initial_snapshot now = record {
  piles = [];
  updated_at = now;
  statistics = record {
    pile_count = 0;
    port_count = 0;
    in_use_port_count = 0;
    idle_port_count = 0;
    offline_ports = 0;
  };
  refresh = record {
    last_remote_at = none;
    next_remote_at = none;
    next_retry_at = none;
    min_interval_seconds = 30;
    attempted_devices = 0;
    successful_devices = 0;
    failed_devices = 0;
    skipped_devices = 0;
    cached = false;
    partial = false;
    message = none;
  };
}

unfoldable pub initial : String → Store
unfolding initial_snapshot
initial now = record {
  snapshot = initial_snapshot now;
  loading = false;
  stream_state = idle;
  stream = none;
  stream_wanted = false;
  last_server_stamp = pos 0;
  sources = [];
  next_source = 0;
  notification_listeners = [];
  stream_open_listeners = [];
}

-- `reset`, at the time `now`.
unfoldable pub reset : String → Store → Store
unfolding initial_snapshot
reset now s = record s { last_server_stamp = pos 0; snapshot = initial_snapshot now }

-- `Date.parse` is the host's: milliseconds since the epoch, or `none` for NaN.
module _ (parse_date : String → Option ℤ) where
  -- The two branches of `Number.isFinite(stamp)`.
  abbrev pub apply_at : Option ℤ → DashboardSnapshot → Store → Store
  apply_at none next s = record s { snapshot = next }
  apply_at (some stamp) next s =
      if less stamp s.last_server_stamp
      then s
      else record s { last_server_stamp = stamp; snapshot = next }

  unfoldable pub apply_snapshot : DashboardSnapshot → Store → Store
  apply_snapshot next s = apply_at (parse_date next.updated_at) next s

  -- `fetchSnapshot`.
  unfoldable pub fetch_settle : Settled DashboardSnapshot → Store → Store × Settled (Unit {0})
  unfolding apply_snapshot
  fetch_settle (resolved next) s = (record (apply_snapshot next s) { loading = false }, resolved tt)
  fetch_settle (rejected reason) s = (record s { loading = false }, rejected reason)

  -- The replies of `reorderPiles`, `refreshFromCapture` and `updateCookie`: a new snapshot.
  unfoldable pub snapshot_settle :
      Settled DashboardSnapshot → Store → Store × Settled DashboardSnapshot
  unfolding apply_snapshot
  snapshot_settle (resolved next) s = (apply_snapshot next s, resolved next)
  snapshot_settle (rejected reason) s = (s, rejected reason)

unfoldable pub fetch_begin : Store → Store
fetch_begin s = record s { loading = true }

-- `syncAfterMutation`: whether the snapshot is fetched. `supported`: the browser has `EventSource`;
-- `is_open`: the `readyState` of the stream in use is OPEN.
unfoldable pub sync_after_mutation : Bool → Bool → Store → Store × Bool
unfolding fetch_begin
sync_after_mutation supported is_open s =
    if supported && is_some s.stream && is_open then (s, false) else (fetch_begin s, true)

-- The replies of `addPile`, `deletePile` and `updatePile`: a failure changes nothing.
unfoldable pub mutation_settle {ℓ} :
    {A : Type ℓ} → Bool → Bool → Settled A → Store → Store × Settled (A × Bool)
unfolding sync_after_mutation
mutation_settle supported is_open (resolved a) s =
    let (s', fetches) = sync_after_mutation supported is_open s in (s', resolved (a, fetches))
mutation_settle supported is_open (rejected reason) s = (s, rejected reason)
