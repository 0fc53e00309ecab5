-- ===== src/Prototype/Settings.antt =====
-- What the recipes of the preview keep of the settings and the channel.
use charge_api.Prelude.{
  ℕ, ◌≡◌, refl, arith, Bool, true, false, not, ◌||◌, Option, none, some, List, [], ◌∷◌, str_eq,
  eq_iff, get_or,
}
use charge_api.Types.{Port, Pile}
use charge_api.Prototype.Model.{DemoWatch, PrototypeData, Clock}
use charge_api.Prototype.Checks.{policy_error}
use charge_api.Prototype.Change.{Action, act, add_audit, complete_scan, refresh_user, set_wx}
use charge_api.Prototype.Recipes.{Change, apply, did, add_pile, save_policies}
use charge_api.Prototype.Plays.{
  Play, play, found_idle, recovered, first_observation, play_found, play_recovered, play_first,
  found_on, found_at, found_for, recovered_at, first_at,
}

-- The settings pass the checks of their form, and the channel is on only where it is bound.
abbrev pub AreKept : PrototypeData → Type 0
AreKept d = (policy_error d.settings ≡ "") × ((not d.wx_enabled || d.wx_bound) ≡ true)

-- What the handler of a change made sure of.
abbrev pub is_ready : Change → PrototypeData → Bool
is_ready (save_policies draft) d = str_eq (policy_error draft) ""
is_ready (did (set_wx v)) d = d.wx_bound
is_ready c d = true

act-AreKept :
    (stamp : ℕ) (a : Action) (d : PrototypeData)
    → is_ready (did a) d ≡ true
    → AreKept d
    → AreKept (act stamp a d)
unfolding act add_audit
act-AreKept stamp (complete_scan true) d r (h, k) = (h, refl)
act-AreKept stamp (complete_scan false) d r h = h
act-AreKept stamp (refresh_user id username true) d r h = h
act-AreKept stamp (refresh_user id username false) d r h = h
act-AreKept stamp (set_wx v) d r (h, k) = (h, ground (arith, r))
act-AreKept stamp a d r (h, k) = (h, ground (arith, k))

pub apply-AreKept :
    (clock : Clock) (stamp : ℕ) (c : Change) (d : PrototypeData)
    → is_ready c d ≡ true
    → AreKept d
    → AreKept (apply clock stamp c d)
unfolding apply add_audit
apply-AreKept clock stamp (did a) d r h = act-AreKept stamp a d r h
apply-AreKept clock stamp (save_policies draft) d r (h, k) =
    (ground (arith, eq_iff (policy_error draft) ""), k)
apply-AreKept clock stamp (add_pile true identifier name address) d r h = h
apply-AreKept clock stamp (add_pile false identifier name address) d r h = h
apply-AreKept clock stamp c d r h = h

-- What a recipe that is written at once leaves alone.
abbrev pub IsUntouched : PrototypeData → PrototypeData → Type 0
IsUntouched d e =
    (e.settings ≡ d.settings) × (e.wx_enabled ≡ d.wx_enabled) × (e.wx_bound ≡ d.wx_bound)

found_lem :
    (stamp : ℕ) (o : Option DemoWatch) (d : PrototypeData)
    → IsUntouched d (get_or (found_for stamp o d) d)
unfolding found_for found_on
found_lem stamp o d = at_watch o
  where
    on_ports : (p : Pile) (ports : List Port) → IsUntouched d (get_or (found_on stamp p ports d) d)
    on_ports p [] = (refl, refl, refl)
    on_ports p (port ∷ ports) = (refl, refl, refl)

    at_pile : (q : Option Pile) → IsUntouched d (get_or (found_at stamp q d) d)
    at_pile none = (refl, refl, refl)
    at_pile (some p) = on_ports p p.ports

    at_watch : (q : Option DemoWatch) → IsUntouched d (get_or (found_for stamp q d) d)
    at_watch none = (refl, refl, refl)
    at_watch (some w) = at_pile _

pub play-IsUntouched :
    (stamp : ℕ) (a : Play) (d : PrototypeData) → IsUntouched d (get_or (play stamp a d) d)
unfolding play play_found play_recovered play_first
play-IsUntouched stamp found_idle d = found_lem stamp _ d
play-IsUntouched stamp recovered d = at_pile _
  where
    at_pile : (o : Option Pile) → IsUntouched d (get_or (recovered_at stamp o d) d)
    at_pile none = (refl, refl, refl)
    at_pile (some p) = (refl, refl, refl)
play-IsUntouched stamp first_observation d = at_pile _
  where
    at_pile : (o : Option Pile) → IsUntouched d (get_or (first_at o d) d)
    at_pile none = (refl, refl, refl)
    at_pile (some p) = (refl, refl, refl)
play-IsUntouched stamp a d = (refl, refl, refl)
