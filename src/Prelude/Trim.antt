-- ===== src/Prelude/Trim.antt =====
-- Trimming a text twice is trimming it once.
use Prim.Native.Char.{code}
use Prim.Native.String.{String}
use mathlib.Core.Path.{◌≡◌, refl, ◌∙◌, ap}
use mathlib.Core.Bool.{Bool, false, ◌&&◌}
use mathlib.Core.Logic.{inl, inr}
use text.Mathlib.Text.{◌==◌ as str_eq}
use package.charge_api.Prelude.Tests.{Bool-cases}
use package.charge_api.Prelude.Text.{is_space, trim_start, trim_end, trim}

-- Whether a text begins with white space.
abbrev begins : String → Bool
begins String.[] = false
begins (String.◌∷◌ c s) = is_space (code c)

trim_start-begins : (s : String) → begins (trim_start s) ≡ false
unfolding trim_start
trim_start-begins String.[] = refl
trim_start-begins (String.◌∷◌ c s) = elim (Bool-cases (is_space (code c))) [
  | inl space ↦ rw space (trim_start-begins s)
  | inr other ↦ rw other other
]

trim_start_of_begins : (s : String) → begins s ≡ false → trim_start s ≡ s
unfolding trim_start
trim_start_of_begins String.[] h = refl
trim_start_of_begins (String.◌∷◌ c s) h = rw h

trim_end-begins : (s : String) → begins s ≡ false → begins (trim_end s) ≡ false
unfolding trim_end
trim_end-begins String.[] h = refl
trim_end-begins (String.◌∷◌ c s) h = rw h h

trim_end_idempotent : (s : String) → trim_end (trim_end s) ≡ trim_end s
unfolding trim_end
trim_end_idempotent String.[] = refl
trim_end_idempotent (String.◌∷◌ c s) =
    elim (Bool-cases (is_space (code c) && str_eq (trim_end s) "")) [
      | inl gone ↦ rw gone
      | inr kept ↦ rw kept (rw (trim_end_idempotent s) (rw kept))
    ]

pub trim_idempotent : (s : String) → trim (trim s) ≡ trim s
unfolding trim
trim_idempotent s =
    ap trim_end (
      trim_start_of_begins (trim_end (trim_start s))
        (trim_end-begins (trim_start s) (trim_start-begins s)))
    ∙ trim_end_idempotent (trim_start s)
