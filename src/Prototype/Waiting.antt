-- ===== src/Prototype/Waiting.antt =====
-- No device of the preview has two watches that wait for it, whatever is done.
use charge_api.Prelude.{
  ℕ, ◌≡◌, refl, arith, Bool, true, false, not, ◌&&◌, Option, none, some, String, List, [], ◌∷◌, any,
  str_eq, get_or, if◌then◌else◌,
}
use charge_api.Types.{Port, Pile}
use charge_api.Prototype.Model.{cancelled, notified, Duration, DemoWatch, PrototypeData, Clock}
use charge_api.Prototype.Seed.{initial_data}
use charge_api.Prototype.Update.{update_first, update_all, find}
use charge_api.Prototype.Change.{
  Action, act, add_audit, is_active, on_device, end_watch, remove_pile, cancel_watch, complete_scan,
  refresh_user,
}
use charge_api.Prototype.Recipes.{
  Change, apply, did, add_pile, save_watch, watches, save_watch_in, watches_with,
}
use charge_api.Prototype.Plays.{
  Play, play, found_idle, recovered, first_observation, play_found, play_recovered, play_first,
  found_on, found_at, found_for, recovered_at, first_at, has_id, is_lost, is_unread,
}

-- An active watch has no other after it on its device.
abbrev pub is_single : List DemoWatch → Bool
is_single [] = true
is_single (w ∷ ws) = not (is_active w && any (watches w.device_id) ws) && is_single ws

abbrev pub IsSingle : PrototypeData → Type 0
IsSingle d = is_single d.watches ≡ true

pub initial_data-IsSingle : IsSingle initial_data
unfolding initial_data
initial_data-IsSingle = refl

-- A watch keeps its device, and waits only where it did.
abbrev IsWeaker : (DemoWatch → DemoWatch) → Type 0
IsWeaker f =
    (w : DemoWatch)
    → (is_active w ≡ false → is_active (f w) ≡ false) × ((f w).device_id ≡ w.device_id)

ended : IsWeaker (end_watch cancelled)
ended w = (λ q. refl, refl)

told : IsWeaker (end_watch notified)
told w = (λ q. refl, refl)

any-update_all :
    (p : DemoWatch → Bool) (f : DemoWatch → DemoWatch)
    → IsWeaker f
    → (id : String) (ws : List DemoWatch) → any (watches id) ws ≡ false
    → any (watches id) (update_all p f ws) ≡ false
unfolding update_all
any-update_all p f weak id [] h = refl
any-update_all p f weak id (w ∷ ws) h = ground (arith, weak w, any-update_all p f weak id ws)

any-update_first :
    (p : DemoWatch → Bool) (f : DemoWatch → DemoWatch)
    → IsWeaker f
    → (id : String) (ws : List DemoWatch) → any (watches id) ws ≡ false
    → any (watches id) (update_first p f ws) ≡ false
unfolding update_first
any-update_first p f weak id [] h = refl
any-update_first p f weak id (w ∷ ws) h = ground (arith, weak w, any-update_first p f weak id ws)

both :
    (a a' x x' s s' : Bool)
    → (not (a && x) && s) ≡ true
    → (a ≡ false → a' ≡ false)
    → (x ≡ false → x' ≡ false)
    → s' ≡ true
    → (not (a' && x') && s') ≡ true
both a a' x x' s s' h weak fewer rest = ground (arith, h, weak, fewer, rest)

single_cons :
    (w w' : DemoWatch) (ws ws' : List DemoWatch)
    → is_single (w ∷ ws) ≡ true
    → (is_active w ≡ false → is_active w' ≡ false)
    → w'.device_id ≡ w.device_id
    → (any (watches w.device_id) ws ≡ false → any (watches w.device_id) ws' ≡ false)
    → is_single ws' ≡ true
    → is_single (w' ∷ ws') ≡ true
single_cons w w' ws ws' h weak same fewer rest = rw (same) (
    both (is_active w) (is_active w') (any (watches w.device_id) ws) (any (watches w.device_id) ws')
      (is_single ws) (is_single ws') h weak fewer rest)

single_tail :
    (w : DemoWatch) (ws : List DemoWatch) → is_single (w ∷ ws) ≡ true → is_single ws ≡ true
single_tail w ws h = ground arith

single-update_all :
    (p : DemoWatch → Bool) (f : DemoWatch → DemoWatch)
    → IsWeaker f
    → (ws : List DemoWatch) → is_single ws ≡ true
    → is_single (update_all p f ws) ≡ true
unfolding update_all
single-update_all p f weak [] h = refl
single-update_all p f weak (w ∷ ws) h =
    single_cons w (if p w then f w else w) ws (update_all p f ws) h (ground (arith, weak w))
      (ground (arith, weak w)) (any-update_all p f weak w.device_id ws)
      (single-update_all p f weak ws (single_tail w ws h))

single-update_first :
    (p : DemoWatch → Bool) (f : DemoWatch → DemoWatch)
    → IsWeaker f
    → (ws : List DemoWatch) → is_single ws ≡ true
    → is_single (update_first p f ws) ≡ true
unfolding update_first
single-update_first p f weak [] h = refl
single-update_first p f weak (w ∷ ws) h = ground (
  arith,
  h,
  single_cons w (f w) ws ws h (weak w).0 (weak w).1 (λ q. q) (single_tail w ws h),
  single_cons w w ws (update_first p f ws) h (λ q. q) refl
      (any-update_first p f weak w.device_id ws),
  single-update_first p f weak ws (single_tail w ws h),
)

find-any : (p : DemoWatch → Bool) (ws : List DemoWatch) → find p ws ≡ none → any p ws ≡ false
unfolding find
find-any p [] h = refl
find-any p (w ∷ ws) h = ground (arith, find-any p ws)

act-IsSingle : (stamp : ℕ) (a : Action) (d : PrototypeData) → IsSingle d → IsSingle (act stamp a d)
unfolding act add_audit
act-IsSingle stamp (remove_pile id) d h =
    single-update_all (λ w. on_device id w && is_active w) (end_watch cancelled) ended d.watches h
act-IsSingle stamp (cancel_watch id) d h =
    single-update_first (λ (w : DemoWatch). str_eq w.id id) (end_watch cancelled) ended d.watches h
act-IsSingle stamp (complete_scan true) d h = h
act-IsSingle stamp (complete_scan false) d h = h
act-IsSingle stamp (refresh_user id username true) d h = h
act-IsSingle stamp (refresh_user id username false) d h = h
act-IsSingle stamp a d h = h

saved :
    (clock : Clock) (stamp : ℕ) (device_id : String) (duration : Duration) (end : String)
    (o : Option DemoWatch) (d : PrototypeData)
    → IsSingle d
    → (o ≡ none → any (watches device_id) d.watches ≡ false)
    → is_single (watches_with clock stamp device_id duration end o d) ≡ true
unfolding watches_with
saved clock stamp device_id duration end none d h absent = rw (absent refl) h
saved clock stamp device_id duration end (some w) d h absent =
    single-update_first (watches device_id) _ (λ w. (λ r. r, refl)) d.watches h

pub apply-IsSingle :
    (clock : Clock) (stamp : ℕ) (c : Change) (d : PrototypeData)
    → IsSingle d
    → IsSingle (apply clock stamp c d)
unfolding apply add_audit save_watch_in
apply-IsSingle clock stamp (did a) d h = act-IsSingle stamp a d h
apply-IsSingle clock stamp (add_pile true identifier name address) d h = refl
apply-IsSingle clock stamp (add_pile false identifier name address) d h = h
apply-IsSingle clock stamp (save_watch device_id duration end) d h =
    saved clock stamp device_id duration end (find (watches device_id) d.watches) d h
      (find-any (watches device_id) d.watches)
apply-IsSingle clock stamp c d h = h

found-IsSingle :
    (stamp : ℕ) (d : PrototypeData) → IsSingle d → IsSingle (get_or (play_found stamp d) d)
unfolding play_found found_for found_on
found-IsSingle stamp d h = at_watch (find is_active d.watches)
  where
    on_ports : (p : Pile) (ports : List Port) → IsSingle (get_or (found_on stamp p ports d) d)
    on_ports p [] = h
    on_ports p (port ∷ ports) = single-update_first is_active (end_watch notified) told d.watches h

    at_pile : (o : Option Pile) → IsSingle (get_or (found_at stamp o d) d)
    at_pile none = h
    at_pile (some p) = on_ports p p.ports

    at_watch : (o : Option DemoWatch) → IsSingle (get_or (found_for stamp o d) d)
    at_watch none = h
    at_watch (some w) = at_pile (find (has_id w.device_id) d.piles)

recovered-IsSingle :
    (stamp : ℕ) (o : Option Pile) (d : PrototypeData)
    → IsSingle d
    → IsSingle (get_or (recovered_at stamp o d) d)
recovered-IsSingle stamp none d h = h
recovered-IsSingle stamp (some p) d h = h

first-IsSingle :
    (o : Option Pile) (d : PrototypeData) → IsSingle d → IsSingle (get_or (first_at o d) d)
first-IsSingle none d h = h
first-IsSingle (some p) d h = h

pub play-IsSingle :
    (stamp : ℕ) (a : Play) (d : PrototypeData) → IsSingle d → IsSingle (get_or (play stamp a d) d)
unfolding play play_recovered play_first
play-IsSingle stamp found_idle d h = found-IsSingle stamp d h
play-IsSingle stamp recovered d h = recovered-IsSingle stamp (find is_lost d.piles) d h
play-IsSingle stamp first_observation d h = first-IsSingle (find is_unread d.piles) d h
play-IsSingle stamp a d h = h
