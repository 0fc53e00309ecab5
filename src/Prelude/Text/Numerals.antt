-- ===== src/Prelude/Text/Numerals.antt =====
-- A number that is printed is read back.
use Prim.Native.Nat.{ℕ, zero, suc, ◌+◌, ◌*◌, ◌/◌, ◌%◌, ◌<◌, ◌≤◌}
use Prim.Native.Char.{code}
use Prim.Native.String
use Prim.Native.String.{String}
use mathlib.Core.Path.{◌≡◌, refl, ap, ◌∙◌}
use mathlib.Core.Bool.{true, false}
use mathlib.Core.Option.{Option, none, some}
use mathlib.Core.Logic.{inl, inr}
use native.Mathlib.Omega.{arith}
use text.Mathlib.TextLemmas.{cons-append, nil-append}
use package.charge_api.Prelude.Tests.{ltb, Bool-cases}
use package.charge_api.Prelude.Text.{
  digit, decimal_from, decimal, digit_value, number_from, to_number,
}

abbrev then_from : Option ℕ → String → Option ℕ
then_from none t = none
then_from (some n) t = number_from n t

number_from-append :
    (n : ℕ) (s t : String) → number_from n (String.◌++◌ s t) ≡ then_from (number_from n s) t
unfolding number_from
number_from-append n String.[] t = rw (nil-append t)
number_from-append n (String.◌∷◌ c s) t =
    rw (cons-append c s t) (go (digit_value (code c)) (λ d. number_from-append (n * 10 + d) s t))
  where
    go :
        (o : Option ℕ)
        → ((d : ℕ)
            → number_from (n * 10 + d) (String.◌++◌ s t) ≡ then_from (number_from (n * 10 + d) s) t)
        → (elim o [ none ↦ none | some d ↦ number_from (n * 10 + d) (String.◌++◌ s t) ])
          ≡ then_from (elim o [ none ↦ none | some d ↦ number_from (n * 10 + d) s ]) t
    go none h = refl
    go (some d) h = h d

number_from-digit : (n d : ℕ) → d < 10 → number_from n (digit d) ≡ some (n * 10 + d)
unfolding number_from digit digit_value
number_from-digit n zero h = refl
number_from-digit n (suc zero) h = refl
number_from-digit n (suc (suc zero)) h = refl
number_from-digit n (suc (suc (suc zero))) h = refl
number_from-digit n (suc (suc (suc (suc zero)))) h = refl
number_from-digit n (suc (suc (suc (suc (suc zero))))) h = refl
number_from-digit n (suc (suc (suc (suc (suc (suc zero)))))) h = refl
number_from-digit n (suc (suc (suc (suc (suc (suc (suc zero))))))) h = refl
number_from-digit n (suc (suc (suc (suc (suc (suc (suc (suc zero)))))))) h = refl
number_from-digit n (suc (suc (suc (suc (suc (suc (suc (suc (suc zero))))))))) h = refl
number_from-digit n (suc (suc (suc (suc (suc (suc (suc (suc (suc (suc d)))))))))) h =
    absurd (omega arith)

number_from-decimal_from : (fuel n : ℕ) → n < fuel → number_from 0 (decimal_from fuel n) ≡ some n
unfolding decimal_from
number_from-decimal_from zero n h = absurd (omega arith)
number_from-decimal_from (suc fuel) n h = elim (Bool-cases (ltb n 10)) [
  | inl small ↦ rw small (number_from-digit 0 n (small_lem n small) ∙ ap some (omega arith))
  | inr large ↦ rw large (
      number_from-append 0 (decimal_from fuel (n / 10)) (digit (n % 10))
      ∙ ap (λ o. then_from o (digit (n % 10)))
          (number_from-decimal_from fuel (n / 10) (large_lem n fuel h large))
      ∙ number_from-digit (n / 10) (n % 10) (omega arith)
      ∙ ap some (omega arith))
]
  where
    small_lem : (n : ℕ) → ltb n 10 ≡ true → n < 10
    small_lem n h = ground arith

    large_lem : (n fuel : ℕ) → n < suc fuel → ltb n 10 ≡ false → n / 10 < fuel
    large_lem n fuel h k = let l = at_least n k in omega arith
      where
        at_least : (n : ℕ) → ltb n 10 ≡ false → 10 ≤ n
        at_least n k = ground arith

pub to_number-decimal : (n : ℕ) → to_number (decimal n) ≡ some n
unfolding to_number decimal
to_number-decimal n = number_from-decimal_from (suc n) n (omega arith)
