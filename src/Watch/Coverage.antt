-- ===== src/Watch/Coverage.antt =====
-- The estimates of frontend/lib/watch-format.ts are the least numbers that cover the time.
use Prim.Native.Nat.{max}
use native.Mathlib.Nat.{mod-lt, div-add-mod'}
use charge_api.Prelude.{
  ℕ, zero, suc, ◌+◌, ◌-◌, ◌*◌, ◌%◌, ◌≤◌, ◌<◌, ◌≡◌, ◌≢◌, refl, arith, subst, sym, ◌↔◌, Option, none,
  some, ℤ, pos_part, neg_part, ◌≤ℤ◌, ◌<ℤ◌, ◌⊎◌, inl,
}
use charge_api.Api.{WatchTemporaryDuration, one_hour, two_hours, four_hours, until_power_off}
use charge_api.Watch.Estimates.{
  ceil_div, estimated_temporary_checks, window_minutes, estimated_recurring_checks,
  remaining_minutes,
}

-- `n` checks, one every `interval` minutes, cover `duration` minutes, and one fewer would not.
abbrev pub Covers : ℕ → ℕ → ℕ → Type 0
Covers n interval duration = (duration ≤ n * interval) × (n * interval < duration + interval)

ceil_div-Covers : (a b : ℕ) → b ≢ 0 → Covers (ceil_div a b) b a
ceil_div-Covers a b h =
    omega (arith, mod-lt (a + (b - 1)) {m = b} (omega arith), div-add-mod' (a + (b - 1)) b)

pos_of_mul : (c b : ℕ) → 0 < c * b → 0 < c
pos_of_mul zero b h = absurd (omega arith)
pos_of_mul (suc c) b h = omega arith

max-Covers : (d i : ℕ) → d ≢ 0 → i ≢ 0 → Covers (max 1 (ceil_div d i)) i d
max-Covers d i p q =
    let cover = ceil_div-Covers d i q in
    let least = pos_of_mul (ceil_div d i) i (omega (arith, cover.0)) in
    let same : max 1 (ceil_div d i) ≡ ceil_div d i = omega (arith, least) in
    subst (λ n. Covers n i d) (sym same) cover

-- The number of checks that a day's window is said to take is the least that covers it, one check
-- at every interval, where the window runs from `start` forward to the next `end`, a whole day if
-- the two are equal.
estimated_recurring_checks-Covers :
    (start end interval : ℕ)
    → start < 1440
    → end < 1440
    → interval ≢ 0
    → (n : ℕ) × (estimated_recurring_checks start end interval ≡ some n)
      × Covers n interval ((end + 1440 - start - 1) % 1440 + 1)
estimated_recurring_checks-Covers start end interval s e i =
    let window : window_minutes start end ≡ (end + 1440 - start - 1) % 1440 + 1 =
      (unfold window_minutes in ground arith) in
    let cover = max-Covers (window_minutes start end) interval (omega arith) i in
    (
      max 1 (ceil_div (window_minutes start end) interval),
      (unfold estimated_recurring_checks in ground arith),
      subst (λ w. Covers (max 1 (ceil_div (window_minutes start end) interval)) interval w) window
          cover,
    )

-- How long a temporary reminder runs, where that is known beforehand.
abbrev pub length_of : WatchTemporaryDuration → Option ℕ
length_of one_hour = some 60
length_of two_hours = some 120
length_of four_hours = some 240
length_of until_power_off = none

-- The number of checks of a temporary reminder is the least that covers how long it runs, where that
-- is known. There is none exactly where the interval is 0
-- or the reminder runs until the power goes off.
estimated_temporary_checks_lem :
    (duration : WatchTemporaryDuration) (interval : ℕ)
    → ((estimated_temporary_checks duration interval ≡ none)
        ↔ ((duration ≡ until_power_off) ⊎ (interval ≡ 0)))
      × ((n d : ℕ)
          → estimated_temporary_checks duration interval ≡ some n
          → length_of duration ≡ some d
          → Covers n interval d)
unfolding estimated_temporary_checks
estimated_temporary_checks_lem one_hour interval =
    ((λ h. ground arith, λ h. ground arith), λ n d e l. ground (arith, max-Covers 60 interval))
estimated_temporary_checks_lem two_hours interval =
    ((λ h. ground arith, λ h. ground arith), λ n d e l. ground (arith, max-Covers 120 interval))
estimated_temporary_checks_lem four_hours interval =
    ((λ h. ground arith, λ h. ground arith), λ n d e l. ground (arith, max-Covers 240 interval))
estimated_temporary_checks_lem until_power_off interval =
    ((λ h. inl refl, λ h. refl), λ n d e l. cc)

-- The minutes left are the least number of whole minutes that covers the time up to the end, and 0
-- exactly when the end is not in the future.
remaining_minutes_lem :
    (end now : ℤ)
    → ((remaining_minutes end now ≡ 0) ↔ (end ≤ℤ now))
      × (pos_part end + neg_part now
          ≤ remaining_minutes end now * 60000 + (pos_part now + neg_part end))
      × (now <ℤ end
          → remaining_minutes end now * 60000 + (pos_part now + neg_part end)
            < pos_part end + neg_part now + 60000)
unfolding remaining_minutes
remaining_minutes_lem end now =
    ((λ h. omega arith, λ h. omega arith), omega arith, λ h. omega arith)
