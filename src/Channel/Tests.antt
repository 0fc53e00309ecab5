-- ===== src/Channel/Tests.antt =====
-- A page that is hidden and shown while a delivery is pending, and a switch.
use charge_api.Prelude.{true, false, List, [], ◌∷◌}
use charge_api.Api.Channel.{WxPusherEventType, pile_available, pile_offline}
use charge_api.Channel.Refresh.{fired, loaded, changed, run, start, IsLive, run-IsLive}

run-IsLive_example : IsLive (run (fired ∷ changed false ∷ loaded ∷ changed true ∷ []) (start true))
run-IsLive_example = run-IsLive (fired ∷ changed false ∷ loaded ∷ changed true ∷ []) true

abbrev chosen : List WxPusherEventType
chosen = pile_offline ∷ pile_available ∷ []
