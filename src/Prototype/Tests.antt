-- ===== src/Prototype/Tests.antt =====
-- The preview on concrete data and events.

use charge_api.Prelude.{
  ◌≤◌, ◌≡◌, refl, arith, Bool, true, false, Option, none, some, String, List, [], ◌∷◌, ◌++◌,
  decimal, to_number, str_eq, if◌then◌else◌,
}
use charge_api.Types.{Pile}
use charge_api.Workbench.Query.{Params}
use charge_api.Prototype.Model.{two_hours, reminders, Route, Clock, PrototypeData}
use charge_api.Prototype.Fixtures.{first_sample}
use charge_api.Prototype.Seed.{initial_data}
use charge_api.Prototype.Change.{set_wx, act, move_up, move_down}
use charge_api.Prototype.Recipes.{apply, save_watch}
use charge_api.Prototype.App.{data_of, start, success, close}
use charge_api.Prototype.Forms.{add_form, button, needs_scan, active_count, answer_watch}
use charge_api.Prototype.Events.{
  Event, submit, elapsed, play_idle, play_recovery, stored_elsewhere, storage_takes, step, run,
}
use charge_api.Prototype.Consistent.{AreAgreed}
use charge_api.Prototype.Waiting.{IsSingle}
use charge_api.Prototype.Settings.{AreKept}
use charge_api.Prototype.Sound.{run-IsSound}
use charge_api.Prototype.Log.{takes, replay, taken, made, waiting}
use charge_api.Prototype.Storage.{data_in, update_data}
use charge_api.Prototype.Views.{view, update_store-view}
use charge_api.Prototype.Once.{run-replay}
use charge_api.Prototype.Store.{Store, read, update_store, update_store_lost}
use charge_api.Prototype.Routes.{route_params, parse_route, route_href}
use charge_api.Prototype.Addresses.{is_free, parse_route-route_href}
use charge_api.Prototype.Limits.{answer_watch_lem}
use charge_api.Prototype.Moves.{IsExchanged, move_lem}

-- A clock whose texts are numbers.
abbrev clock : Clock
clock = record { time_of = to_number; to_iso = decimal; midnight = λ t. 0 }

abbrev same : String → String
same s = s

-- Two forms are sent at once; the second is refused. A watch is then saved and found.
abbrev events : List Event
events =
    submit (button false (set_wx false))
    ∷ submit (add_form "608205" "" "")
    ∷ elapsed 7
    ∷ submit (add_form "608205" "" "")
    ∷ elapsed 8
    ∷ play_idle 9
    ∷ play_recovery 10
    ∷ []

run-IsSound_example :
    let d =
      data_of
        (run clock same (storage_takes false ∷ stored_elsewhere none ∷ events) (start true)).0 in
    AreAgreed d × IsSingle d × AreKept d
unfolding start data_in step
run-IsSound_example =
    run-IsSound clock same true (storage_takes false ∷ stored_elsewhere none ∷ events)
      (tt, ((tt, refl), (tt, (tt, (tt, (tt, (tt, (tt, (tt, tt)))))))))

run-replay_example :
    let s = start true in
    let after = run clock same events s in
    (data_of after.0 ≡ (if takes s.storage then replay clock after.1 (data_of s) else data_of s))
    × (waiting s.pending ++ taken after.1 ≡ made after.1 ++ waiting after.0.pending)
run-replay_example =
    run-replay clock same events (start true) (tt, (tt, (tt, (tt, (tt, (tt, (tt, tt)))))))

-- A storage that holds what was stored, by one name.
abbrev stored_data : PrototypeData
stored_data = act 0 (set_wx false) initial_data

abbrev parse : String → Option PrototypeData
parse text = if str_eq text "stored" then some stored_data else none

abbrev stringify : PrototypeData → String
stringify d = "stored"

abbrev any_date : String → Bool
any_date text = true

abbrev fresh : Store
fresh = record { readable = true; writable = true; item = none; memory = "" }

abbrev full_store : Store
full_store = record { readable = true; writable = false; item = some "old"; memory = "" }

update_store_lost_example :
    read parse stringify any_date
      (update_store parse stringify any_date (act 0 (set_wx false)) full_store)
    ≡ read parse stringify any_date full_store
update_store_lost_example =
    update_store_lost parse stringify any_date (act 0 (set_wx false)) full_store refl

update_store-view_example :
    (read parse stringify any_date full_store ≡ data_in (view parse stringify any_date full_store))
    × (view parse stringify any_date
          (update_store parse stringify any_date (λ d. stored_data) full_store)
        ≡ update_data (λ d. stored_data) (view parse stringify any_date full_store))
unfolding initial_data act
update_store-view_example =
    update_store-view parse stringify any_date (λ d. stored_data) full_store refl refl refl

abbrev params : Params
params = ("tab", "detail") ∷ ("port", "3") ∷ []

abbrev parse_params : String → Params
parse_params text = if str_eq text "tab=detail&port=3" then params else []

abbrev to_text : Params → String
to_text ps = "tab=detail&port=3"

abbrev route : Route
route = record { view = reminders; id = some "608201"; tab = some "detail"; port = some 3 }

parse_route-route_href_example : parse_route parse_params (route_href to_text route) ≡ route
unfolding is_free route_params decimal
parse_route-route_href_example =
    parse_route-route_href parse_params to_text route refl refl refl refl

abbrev noon : Clock
noon = record { time_of = λ t. some 1000; to_iso = decimal; midnight = λ t. 0 }

answer_watch_lem_example :
    ((data_of (start true)).settings.background_reminders_enabled ≡ true)
    × (needs_scan (start true) ≡ false)
    × (active_count
          (apply noon 5 (save_watch "202609100001" two_hours "7201000") (data_of (start true)))
        ≤ (data_of (start true)).settings.watch_pile_limit_per_user)
unfolding start data_in answer_watch initial_data decimal
answer_watch_lem_example =
    answer_watch_lem noon 5 "202609100001" two_hours (start true)
      (record {
        change = save_watch "202609100001" two_hours "7201000";
        success = "已开始等待桂园 · 北门车棚，有空闲时通知一次。";
        tone = success;
        after = close;
      })
      refl (omega arith)

abbrev first : Pile
first = first_sample

abbrev second : Pile
second = record first_sample { id = "202609100009" }

abbrev two_piles : PrototypeData
two_piles = record initial_data { piles = first ∷ second ∷ [] }

move_lem_example :
    IsExchanged [] [] first second (act 0 (move_down 0) two_piles).piles
    × IsExchanged [] [] first second (act 0 (move_up 1) two_piles).piles
move_lem_example = move_lem 0 two_piles [] [] first second refl
