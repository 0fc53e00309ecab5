-- ===== src/Watch/Clock.antt =====
-- Times of the day as text, there and back; and weekdays, each mask with a text of its own.
use Prim.Native.Nat.{min}
use Prim.Native.Char.{code}
use text.Mathlib.TextEquality.{Char-path}
use mathlib.Core.Path.{ap₂}
use charge_api.Prelude.{
  ℕ, zero, suc, ◌+◌, ◌/◌, ◌%◌, ◌<◌, ◌≡◌, refl, sym, arith, Bool, true, false, not, ◌&&◌, ◌||◌,
  Option, none, some, String, List, [], ◌∷◌, str_eq, eq_iff, ◌==◌,
}
use charge_api.Watch.Format.{minutes_to_time, time_to_minutes, format_weekdays}

-- A test that holds of the first `count` numbers.
holds_to : (count : ℕ) → (test : ℕ → Bool) → Bool
holds_to zero test = true
holds_to (suc last) test = holds_to last test && test last

holds_to-below :
    (count : ℕ) (test : ℕ → Bool) (m : ℕ) → holds_to count test ≡ true → m < count → test m ≡ true
unfolding holds_to
holds_to-below zero test m all_of below = absurd (omega arith)
holds_to-below (suc last) test m all_of below = ground (arith, holds_to-below last test m)

abbrev is_value : ℕ → Option ℕ → Bool
is_value m none = false
is_value m (some n) = n == m

is_value_sound : (m : ℕ) (o : Option ℕ) → is_value m o ≡ true → o ≡ some m
is_value_sound m none h = cc
is_value_sound m (some n) h = ground arith

read_table : holds_to 1440 (λ m. is_value m (time_to_minutes (minutes_to_time m))) ≡ true
unfolding holds_to time_to_minutes minutes_to_time
read_table = refl

clamp : (value : ℕ) → minutes_to_time value ≡ minutes_to_time (min 1439 value)
unfolding minutes_to_time
clamp value = rw (min_twice value)
  where
    min_twice : (v : ℕ) → min 1439 (min 1439 v) ≡ min 1439 v
    min_twice v = omega arith

-- A time that was written is read back, a number past the end of the day as its last minute.
pub time_to_minutes-minutes_to_time :
    (value : ℕ) → time_to_minutes (minutes_to_time value) ≡ some (min 1439 value)
time_to_minutes-minutes_to_time value = rw (clamp value) (
    is_value_sound (min 1439 value) _ (
      holds_to-below 1440 (λ m. is_value m (time_to_minutes (minutes_to_time m))) (min 1439 value)
        read_table (omega arith)))

weekday_table :
    holds_to 128
      (λ a. holds_to 128 (λ b. a == b || not (str_eq (format_weekdays a) (format_weekdays b))))
    ≡ true
unfolding holds_to format_weekdays
weekday_table = refl

weekday_sound :
    (a b : ℕ)
    → (a == b || not (str_eq (format_weekdays a) (format_weekdays b))) ≡ true
    → format_weekdays a ≡ format_weekdays b
    → a ≡ b
weekday_sound a b h e = ground (arith, eq_iff (format_weekdays a) (format_weekdays b))

-- Two masks of the seven weekdays that read alike are the same mask.
format_weekdays_injective :
    (a b : ℕ) → a < 128 → b < 128 → format_weekdays a ≡ format_weekdays b → a ≡ b
format_weekdays_injective a b p q e =
    weekday_sound a b
      (holds_to-below 128 (λ y. a == y || not (str_eq (format_weekdays a) (format_weekdays y))) b
        (holds_to-below 128
          (λ x. holds_to 128 (λ y. x == y || not (str_eq (format_weekdays x) (format_weekdays y))))
          a weekday_table p)
        q)
      e

-- The five code points of a text that is long enough.
abbrev codes : String → List ℕ
codes (String.◌∷◌ first rest) = code first ∷ codes rest
codes String.[] = []

abbrev same_codes : List ℕ → List ℕ → Bool
same_codes [] [] = true
same_codes (a ∷ rest) (b ∷ bs) = a == b && same_codes rest bs
same_codes _ _ = false

same_codes_sound :
    (s : String) (ks : List ℕ) (t : String) → same_codes (codes s) ks ≡ true → codes t ≡ ks → s ≡ t
same_codes_sound String.[] [] String.[] h e = refl
same_codes_sound String.[] [] (String.◌∷◌ c t) h e = absurd (cc)
same_codes_sound String.[] (k ∷ ks) t h e = absurd (cc)
same_codes_sound (String.◌∷◌ c s) [] t h e = absurd (cc)
same_codes_sound (String.◌∷◌ c s) (k ∷ ks) String.[] h e = absurd (cc)
same_codes_sound (String.◌∷◌ c s) (k ∷ ks) (String.◌∷◌ d t) h e =
    let rest = same_codes_sound s ks t (ground arith) (ground arith) in
    let head = Char-path c d (ground arith) in ap₂ String.◌∷◌ head rest

abbrev clock_codes : ℕ → List ℕ
clock_codes m =
    (48 + m / 60 / 10) ∷ (48 + m / 60 % 10) ∷ 58 ∷ (48 + m % 60 / 10) ∷ (48 + m % 60 % 10) ∷ []

print_table : holds_to 1440 (λ m. same_codes (codes (minutes_to_time m)) (clock_codes m)) ≡ true
unfolding holds_to minutes_to_time
print_table = refl

-- A text that is read as a time is exactly how that time is written, and the time lies in the day.
minutes_to_time-time_to_minutes :
    (s : String) (m : ℕ) → time_to_minutes s ≡ some m → (m < 1440) × (minutes_to_time m ≡ s)
unfolding time_to_minutes
minutes_to_time-time_to_minutes
      (String.◌∷◌ a (String.◌∷◌ b (String.◌∷◌ c (String.◌∷◌ d (String.◌∷◌ e String.[]))))) m h =
    let below : m < 1440 = ground arith in
    let digits : clock_codes m ≡ code a ∷ code b ∷ code c ∷ code d ∷ code e ∷ [] = ground arith in
    (
      below,
      same_codes_sound (minutes_to_time m) (clock_codes m) _
          (holds_to-below 1440 (λ k. same_codes (codes (minutes_to_time k)) (clock_codes k)) m
            print_table below)
          (sym digits),
    )
minutes_to_time-time_to_minutes _ m h = cc
