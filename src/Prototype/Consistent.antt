-- ===== src/Prototype/Consistent.antt =====
-- The piles and watches of the preview agree with themselves, whatever is done.
use charge_api.Prelude.{
  ℕ, ◌+◌, ◌-◌, ◌≡◌, refl, sym, ap, ◌∙◌, suc, arith, true, false, not, Option, none, some, List, [],
  ◌∷◌, map, length, str_eq, All, All-append, Option-cases, get_or, inl, inr,
}
use charge_api.Types.{Port, Pile}
use charge_api.Prototype.Model.{DemoWatch, PrototypeData, Clock}
use charge_api.Prototype.Seed.{initial_data}
use charge_api.Prototype.Update.{
  find, element_at, without, insert_at, update_first-All, element_at-All, without-All,
  insert_at-All, kept-All, map-All,
}
use charge_api.Prototype.Change.{
  Action, act, add_audit, is_active, used_ids, renumber_from, move_pile, remove_pile, move_up,
  move_down, complete_scan, refresh_user,
}
use charge_api.Prototype.Recipes.{Change, apply, did, add_pile, edit_pile, refresh_snapshot}
use charge_api.Prototype.Plays.{
  Play, found_idle, recovered, first_observation, play, play_found, play_recovered, play_first,
  has_id, is_lost, restored, is_unread, observed, free, free_first, found_on, found_at, found_for,
  recovered_at, first_at,
}

-- The ports in use are those that the list names, the number of ports is the one that is shown, and a pile
-- out of reach has none in use.
abbrev pub IsAgreed : Pile → Type 0
IsAgreed p =
    (used_ids p.ports ≡ p.used_port_ids)
    × (length p.ports ≡ p.open_num)
    × (p.online ≡ false → p.used_port_ids ≡ [])

abbrev pub AreAgreed : PrototypeData → Type 0
AreAgreed d = All IsAgreed d.piles

pub initial_data-AreAgreed : AreAgreed initial_data
unfolding initial_data
initial_data-AreAgreed = (
  (refl, refl, λ q. absurd cc),
  ((refl, refl, λ q. absurd cc), ((refl, refl, λ q. absurd cc), ((refl, refl, λ q. refl), tt))),
)

renumbered : (i : ℕ) (piles : List Pile) → All IsAgreed piles → All IsAgreed (renumber_from i piles)
renumbered i [] h = tt
renumbered i (p ∷ piles) (h, hs) = (h, renumbered (i + 1) piles hs)

moved :
    (from to : ℕ) (piles : List Pile) → All IsAgreed piles → All IsAgreed (move_pile from to piles)
unfolding move_pile
moved from to piles h = elim (Option-cases (element_at from piles)) [
  | inl q ↦ rw (q) h
  | inr (p, q) ↦ rw (q) (
      renumbered 0 (insert_at to p (without from piles)) (
        insert_at-All IsAgreed to p (without from piles) (element_at-All IsAgreed from piles p h q)
          (without-All IsAgreed from piles h)))
]

pub act-AreAgreed :
    (stamp : ℕ) (a : Action) (d : PrototypeData) → AreAgreed d → AreAgreed (act stamp a d)
unfolding act add_audit
act-AreAgreed stamp (remove_pile id) d h =
    kept-All IsAgreed (λ (p : Pile). not (str_eq p.id id)) d.piles h
act-AreAgreed stamp (move_up index) d h = moved index (index - 1) d.piles h
act-AreAgreed stamp (move_down index) d h = moved index (index + 1) d.piles h
act-AreAgreed stamp (complete_scan true) d h = h
act-AreAgreed stamp (complete_scan false) d h = h
act-AreAgreed stamp (refresh_user id username true) d h = h
act-AreAgreed stamp (refresh_user id username false) d h = h
act-AreAgreed stamp a d h = h

pub apply-AreAgreed :
    (clock : Clock) (stamp : ℕ) (c : Change) (d : PrototypeData)
    → AreAgreed d
    → AreAgreed (apply clock stamp c d)
unfolding apply add_audit
apply-AreAgreed clock stamp (did a) d h = act-AreAgreed stamp a d h
apply-AreAgreed clock stamp (edit_pile id identifier name address) d h =
    update_first-All IsAgreed (λ (p : Pile). str_eq p.id id) _ (λ p q k. k) d.piles h
apply-AreAgreed clock stamp (add_pile true identifier name address) d h =
    ((refl, refl, λ q. refl), tt)
apply-AreAgreed clock stamp (add_pile false identifier name address) d h =
    All-append IsAgreed d.piles _ h ((refl, refl, λ q. refl), tt)
apply-AreAgreed clock stamp refresh_snapshot d h =
    map-All IsAgreed _ (λ p k. ground (arith, k)) d.piles h
apply-AreAgreed clock stamp c d h = h

none_used : (ports : List Port) → used_ids (map free ports) ≡ []
none_used [] = refl
none_used (port ∷ ports) = none_used ports

length_freed : (ports : List Port) → length (map free ports) ≡ length ports
length_freed [] = refl
length_freed (port ∷ ports) = ap suc (length_freed ports)

free_first_lem : (p : Pile) → IsAgreed p → IsAgreed (free_first p.ports p)
free_first_lem p h = with_ports_of p.ports refl
  where
    with_ports_of : (ports : List Port) → p.ports ≡ ports → IsAgreed (free_first ports p)
    with_ports_of [] q = h
    with_ports_of (port ∷ ports) q = (refl, ap length (sym q) ∙ h.1, λ e. absurd cc)

found-AreAgreed :
    (stamp : ℕ) (d : PrototypeData) → AreAgreed d → AreAgreed (get_or (play_found stamp d) d)
unfolding play_found found_for found_on
found-AreAgreed stamp d h = at_watch (find is_active d.watches)
  where
    on_ports : (p : Pile) (ports : List Port) → AreAgreed (get_or (found_on stamp p ports d) d)
    on_ports p [] = h
    on_ports p (port ∷ ports) =
        update_first-All IsAgreed (has_id p.id) (λ x. free_first x.ports x)
          (λ x r k. free_first_lem x k) d.piles h

    at_pile : (o : Option Pile) → AreAgreed (get_or (found_at stamp o d) d)
    at_pile none = h
    at_pile (some p) = on_ports p p.ports

    at_watch : (o : Option DemoWatch) → AreAgreed (get_or (found_for stamp o d) d)
    at_watch none = h
    at_watch (some w) = at_pile (find (has_id w.device_id) d.piles)

restored_lem : (p : Pile) → is_lost p ≡ true → IsAgreed p → IsAgreed (restored p)
restored_lem p q (used, count, out) =
    (none_used p.ports ∙ sym (out (ground arith)), length_freed p.ports ∙ count, λ e. absurd cc)

recovered-AreAgreed :
    (stamp : ℕ) (d : PrototypeData) → AreAgreed d → AreAgreed (get_or (play_recovered stamp d) d)
unfolding play_recovered
recovered-AreAgreed stamp d h = at_pile (find is_lost d.piles)
  where
    at_pile : (o : Option Pile) → AreAgreed (get_or (recovered_at stamp o d) d)
    at_pile none = h
    at_pile (some p) = update_first-All IsAgreed is_lost restored restored_lem d.piles h

first-AreAgreed : (d : PrototypeData) → AreAgreed d → AreAgreed (get_or (play_first d) d)
unfolding play_first
first-AreAgreed d h = at_pile (find is_unread d.piles)
  where
    at_pile : (o : Option Pile) → AreAgreed (get_or (first_at o d) d)
    at_pile none = h
    at_pile (some p) =
        update_first-All IsAgreed is_unread (observed d.snapshot_at)
          (λ x r k. (refl, refl, λ e. absurd cc)) d.piles h

pub play-AreAgreed :
    (stamp : ℕ) (a : Play) (d : PrototypeData) → AreAgreed d → AreAgreed (get_or (play stamp a d) d)
unfolding play
play-AreAgreed stamp found_idle d h = found-AreAgreed stamp d h
play-AreAgreed stamp recovered d h = recovered-AreAgreed stamp d h
play-AreAgreed stamp first_observation d h = first-AreAgreed d h
play-AreAgreed stamp a d h = h
