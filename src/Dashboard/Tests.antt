-- ===== src/Dashboard/Tests.antt =====
-- Runs of the dashboard store on snapshots whose times are one letter each.
use charge_api.Prelude.{
  ◌≡◌, refl, true, false, Option, none, some, String, List, [], ◌∷◌, ℤ, pos, ◌≤ℤ◌, All, str_eq,
  if◌then◌else◌,
}
use charge_api.Types.{DashboardSnapshot}
use charge_api.Dashboard.Store.{initial, initial_snapshot}
use charge_api.Dashboard.Stream.{connect_stream}
use charge_api.Dashboard.Events.{Event, connect, failed, disconnect, snapshot_message, run}
use charge_api.Dashboard.Freshness.{apply_all, IsNewest, IsShown, apply_all_lem}
use charge_api.Dashboard.Connection.{IsConnected, lost_in, run-IsConnected}

abbrev clock : String → Option ℤ
clock s = if str_eq s "a" then some (pos 10) else if str_eq s "b" then some (pos 20) else none

abbrev early : DashboardSnapshot
early = initial_snapshot "a"

abbrev late : DashboardSnapshot
late = initial_snapshot "b"

apply_all_lem_example :
    (◌≤ℤ◌
      (initial "").last_server_stamp
      (apply_all clock (late ∷ early ∷ []) (initial "")).last_server_stamp)
    × All
        (IsNewest clock (apply_all clock (late ∷ early ∷ []) (initial "")).last_server_stamp)
        (late ∷ early ∷ [])
    × IsShown clock
        (initial "")
        (late ∷ early ∷ [])
        (apply_all clock (late ∷ early ∷ []) (initial ""))
unfolding initial_snapshot
apply_all_lem_example =
    apply_all_lem clock (late ∷ early ∷ []) (initial "") ((pos 20, refl), ((pos 10, refl), tt))

abbrev events : List Event
events =
    connect true
    ∷ failed true
    ∷ connect true
    ∷ snapshot_message (some late)
    ∷ disconnect
    ∷ connect true
    ∷ []

run-IsConnected_example :
    let s = run clock events (initial "a") in
    IsConnected (lost_in clock events (initial "a") false) s
    × (lost_in clock events (initial "a") false ≡ true → (connect_stream true s).sources ≡ [])
run-IsConnected_example = run-IsConnected clock events "a" true
