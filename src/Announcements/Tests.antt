-- ===== src/Announcements/Tests.antt =====
-- A load that an acknowledgement takes the place of.
use charge_api.Prelude.{◌≡◌, refl, true, false, Option, none, String, List, [], ◌∷◌, ℤ, pos, run_of}
use charge_api.Http.{rejected, other_error}
use charge_api.Announcements.{State, initial, load_begin, load_settle}
use charge_api.Announcements.Superseded.{Event, load, line, step, run, run-superseded}

abbrev no_date : String → Option ℤ
no_date text = none

abbrev first : List (Event no_date)
first = load false (pos 100000) ∷ []

abbrev loading : State
loading = (run no_date first (initial true)).0

run-superseded_example :
    load_settle no_date 0
      (pos 100500)
      (rejected (other_error "lost"))
      (run no_date (line true ∷ []) (load_begin true (pos 100200) loading).0).0
    ≡ (run no_date (line true ∷ []) (load_begin true (pos 100200) loading).0).0
unfolding run_of step load_begin initial
run-superseded_example =
    run-superseded no_date first (line true ∷ []) true 0 (pos 100200) (pos 100500)
      (rejected (other_error "lost")) refl refl
