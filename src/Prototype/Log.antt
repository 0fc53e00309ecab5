-- ===== src/Prototype/Log.antt =====
-- The log of what is done with the data of the preview: the data that it leaves, and the recipes in it.
use charge_api.Prelude.{
  ◌≡◌, refl, ap, ◌∙◌, Bool, true, false, not, ◌||◌, is_some, if◌then◌else◌, Option, none, some,
  List, [], ◌∷◌, ◌++◌, get_or,
}
use charge_api.Prototype.Model.{PrototypeData, Clock}
use charge_api.Prototype.Seed.{initial_data}
use charge_api.Prototype.Recipes.{Change, apply}
use charge_api.Prototype.Storage.{Storage, data_in, put_data, update_data}
use charge_api.Prototype.Events.{played}
use charge_api.Prototype.App.{Pending, Effect, accepted, wrote, wrote_play, restored, set_error}

-- The data that a log leaves.
unfoldable pub replay : Clock → List Effect → PrototypeData → PrototypeData
replay clock [] d = d
replay clock (wrote stamp c ∷ log) d = replay clock log (apply clock stamp c d)
replay clock (wrote_play stamp p ∷ log) d = replay clock log (played stamp p d)
replay clock (restored ∷ log) d = replay clock log initial_data
replay clock (_ ∷ log) d = replay clock log d

-- What a log leaves in memory and in the storage.
unfoldable pub stored_by : Clock → List Effect → Storage → Storage
stored_by clock [] s = s
stored_by clock (wrote stamp c ∷ log) s = stored_by clock log (update_data (apply clock stamp c) s)
stored_by clock (wrote_play stamp p ∷ log) s = stored_by clock log (update_data (played stamp p) s)
stored_by clock (restored ∷ log) s = stored_by clock log (put_data initial_data s)
stored_by clock (_ ∷ log) s = stored_by clock log s

-- What is written is what is read from then on: the storage takes it, cannot be read, or holds nothing.
abbrev pub takes : Storage → Bool
takes s = s.writable || not s.readable || not (is_some s.item)

data_in-put_data :
    (d : PrototypeData) (s : Storage)
    → (takes (put_data d s) ≡ takes s)
      × (data_in (put_data d s) ≡ (if takes s then d else data_in s))
unfolding put_data data_in
data_in-put_data d s = of s.readable s.writable s.item
  where
    of :
        (r w : Bool) (o : Option PrototypeData)
        → ((w || not r || not (is_some (if w then some d else o)))
            ≡ (w || not r || not (is_some o)))
          × ((if r then get_or (if w then some d else o) d else d) ≡ (
              if w || not r || not (is_some o)
              then d
              else (if r then get_or o s.memory else s.memory)))
    of true true o = (refl, refl)
    of false true o = (refl, refl)
    of false false o = (refl, refl)
    of true false none = (refl, refl)
    of true false (some e) = (refl, refl)

-- The recipes that a log accepts, those that it writes, and the one that waits.
unfoldable pub taken : List Effect → List Change
taken [] = []
taken (accepted c ∷ log) = c ∷ taken log
taken (_ ∷ log) = taken log

unfoldable pub made : List Effect → List Change
made [] = []
made (wrote stamp c ∷ log) = c ∷ made log
made (_ ∷ log) = made log

unfoldable pub waiting : Option Pending → List Change
waiting none = []
waiting (some p) = p.request.change ∷ []

pub stored_by-append :
    (clock : Clock) (log more : List Effect) (s : Storage)
    → stored_by clock (log ++ more) s ≡ stored_by clock more (stored_by clock log s)
unfolding stored_by
stored_by-append clock [] more s = refl
stored_by-append clock (wrote stamp c ∷ log) more s =
    stored_by-append clock log more (update_data (apply clock stamp c) s)
stored_by-append clock (wrote_play stamp p ∷ log) more s =
    stored_by-append clock log more (update_data (played stamp p) s)
stored_by-append clock (restored ∷ log) more s =
    stored_by-append clock log more (put_data initial_data s)
stored_by-append clock (accepted c ∷ log) more s = stored_by-append clock log more s
stored_by-append clock (set_error m ∷ log) more s = stored_by-append clock log more s

written_lem :
    (clock : Clock) (log : List Effect) (d : PrototypeData) (s : Storage)
    → data_in (stored_by clock log (put_data d s)) ≡ (
        if takes (put_data d s)
        then replay clock log (data_in (put_data d s))
        else data_in (put_data d s))
    → data_in (stored_by clock log (put_data d s))
      ≡ (if takes s then replay clock log d else data_in s)
written_lem clock log d s h =
    h
    ∙ ap (λ b. if b then replay clock log (data_in (put_data d s)) else data_in (put_data d s))
        (data_in-put_data d s).0
    ∙ ap (λ x. if takes s then replay clock log x else x) (data_in-put_data d s).1
    ∙ same (takes s)
  where
    same :
        (b : Bool)
        → (if b
            then replay clock log (if b then d else data_in s)
            else (if b then d else data_in s))
          ≡ (if b then replay clock log d else data_in s)
    same true = refl
    same false = refl

kept_lem : (b : Bool) (d : PrototypeData) → d ≡ (if b then d else d)
kept_lem true d = refl
kept_lem false d = refl

-- The data that are read after a log: those that its recipes make of the data before, or the same.
pub data_in-stored_by :
    (clock : Clock) (log : List Effect) (s : Storage)
    → data_in (stored_by clock log s)
      ≡ (if takes s then replay clock log (data_in s) else data_in s)
unfolding replay stored_by update_data
data_in-stored_by clock [] s = kept_lem (takes s) (data_in s)
data_in-stored_by clock (wrote stamp c ∷ log) s =
    let d = apply clock stamp c (data_in s) in
    written_lem clock log d s (data_in-stored_by clock log (put_data d s))
data_in-stored_by clock (wrote_play stamp p ∷ log) s =
    let d = played stamp p (data_in s) in
    written_lem clock log d s (data_in-stored_by clock log (put_data d s))
data_in-stored_by clock (restored ∷ log) s =
    written_lem clock log initial_data s (data_in-stored_by clock log (put_data initial_data s))
data_in-stored_by clock (accepted c ∷ log) s = data_in-stored_by clock log s
data_in-stored_by clock (set_error m ∷ log) s = data_in-stored_by clock log s

pub taken-append : (log more : List Effect) → taken (log ++ more) ≡ taken log ++ taken more
unfolding taken
taken-append [] more = refl
taken-append (accepted c ∷ log) more = ap (λ cs. c ∷ cs) (taken-append log more)
taken-append (wrote stamp c ∷ log) more = taken-append log more
taken-append (wrote_play stamp p ∷ log) more = taken-append log more
taken-append (restored ∷ log) more = taken-append log more
taken-append (set_error m ∷ log) more = taken-append log more

pub made-append : (log more : List Effect) → made (log ++ more) ≡ made log ++ made more
unfolding made
made-append [] more = refl
made-append (wrote stamp c ∷ log) more = ap (λ cs. c ∷ cs) (made-append log more)
made-append (accepted c ∷ log) more = made-append log more
made-append (wrote_play stamp p ∷ log) more = made-append log more
made-append (restored ∷ log) more = made-append log more
made-append (set_error m ∷ log) more = made-append log more
