-- ===== src/Prelude/Runs.antt =====
-- Runs of a component: its events in order, each with a new state and effects.
use mathlib.Core.Path.{◌≡◌, refl}
use mathlib.Core.Bool.{Bool, false}
use mathlib.Core.List.{List, [], ◌∷◌, ◌++◌}
use package.charge_api.Prelude.Lists.{any, All, any-append, All-append}

module _ {E S F : Type 0} (step : E → S → S × List F) where
  -- The state after the events, and their effects in order.
  unfoldable pub run_of : List E → S → S × List F
  run_of [] s = (s, [])
  run_of (e ∷ es) s =
      let (next, effects) = step e s in let (last, more) = run_of es next in (last, effects ++ more)

  -- An effect that no event of a kind has, from states that such events keep, is not in a run of them.
  pub run_of-none :
      (P : S → Type 0) (Q : E → Type 0) (p : F → Bool)
      → ((e : E) (s : S) → Q e → P s → P (step e s).0 × (any p (step e s).1 ≡ false))
      → (es : List E) (s : S) → All Q es
      → P s
      → any p (run_of es s).1 ≡ false
  unfolding run_of
  run_of-none P Q p one [] s q h = refl
  run_of-none P Q p one (e ∷ es) s (q, qs) h =
      let (still, none_here) = one e s q h in
      any-append p (step e s).1 (run_of es (step e s).0).1 none_here
        (run_of-none P Q p one es (step e s).0 qs still)

  -- Events that do nothing in a state do nothing in a row.
  pub run_of_still :
      (Q : E → Type 0) (s : S)
      → ((e : E) → Q e → step e s ≡ (s, []))
      → (es : List E) → All Q es
      → run_of es s ≡ (s, [])
  unfolding run_of
  run_of_still Q s one [] q = refl
  run_of_still Q s one (e ∷ es) (q, qs) = rw (one e q, run_of_still Q s one es qs)

  -- What every event keeps, a run keeps.
  pub run_of-kept :
      (P : S → Type 0)
      → ((e : E) (s : S) → P s → P (step e s).0)
      → (es : List E) (s : S) → P s
      → P (run_of es s).0
  unfolding run_of
  run_of-kept P one [] s h = h
  run_of-kept P one (e ∷ es) s h = run_of-kept P one es (step e s).0 (one e s h)

  -- What the effects of every event are, those of a run are.
  pub run_of-All :
      (P : F → Type 0)
      → ((e : E) (s : S) → All P (step e s).1)
      → (es : List E) (s : S) → All P (run_of es s).1
  unfolding run_of
  run_of-All P one [] s = tt
  run_of-All P one (e ∷ es) s =
      All-append P (step e s).1 (run_of es (step e s).0).1 (one e s)
        (run_of-All P one es (step e s).0)
