-- ===== src/History/Durations.antt =====
-- The text of a duration.
use charge_api.Prelude.{
  ℕ, zero, suc, ◌+◌, ◌*◌, ◌/◌, ◌==◌, ◌≡◌, ◌<◌, ◌≤◌, refl, ap, ◌∙◌, arith, false, some, String, [],
  ◌∷◌, concat, decimal, ltb, if◌then◌else◌,
}
use charge_api.History.{rounded_minutes, hours_text, format_duration}

-- Hours and minutes in words, without the part that is nothing.
unfoldable pub spoken : (hours minutes : ℕ) → String
spoken zero minutes = concat (decimal minutes ∷ " 分钟" ∷ [])
spoken (suc hours) zero = concat (decimal (suc hours) ∷ " 小时" ∷ [])
spoken (suc hours) (suc minutes) =
    concat (decimal (suc hours) ∷ " 小时 " ∷ decimal (suc minutes) ∷ " 分钟" ∷ [])

not_zero : (n : ℕ) → (suc n == 0) ≡ false
not_zero n = ground arith

hours_text-spoken : (hours minutes : ℕ) → hours_text hours minutes ≡ spoken hours minutes
unfolding hours_text spoken
hours_text-spoken zero minutes = refl
hours_text-spoken (suc hours) zero = rw (not_zero hours) refl
hours_text-spoken (suc hours) (suc minutes) = rw (not_zero hours, not_zero minutes) refl

format_long :
    (n : ℕ) → 60 ≤ n → format_duration (some n) ≡ hours_text (n / 3600) (rounded_minutes n)
unfolding format_duration
format_long n long = rw (below n long) refl
  where
    below : (n : ℕ) → 60 ≤ n → ltb n 60 ≡ false
    below n long = ground arith

minutes_lem :
    (hours minutes seconds : ℕ)
    → minutes < 60
    → seconds < 60
    → let n = 3600 * hours + 60 * minutes + seconds in
      (n / 3600 ≡ hours) × (rounded_minutes n ≡ (if ltb seconds 30 then minutes else minutes + 1))
unfolding rounded_minutes
minutes_lem hours minutes seconds m s = (omega arith, ground arith)

-- A duration of a minute or more is shown as its hours and minutes, and one minute more from half a minute
-- on: also after 59 minutes, which makes it 60 minutes beside the same hours.
pub format_duration_lem :
    (hours minutes seconds : ℕ)
    → minutes < 60
    → seconds < 60
    → 60 ≤ 3600 * hours + 60 * minutes + seconds
    → format_duration (some (3600 * hours + 60 * minutes + seconds))
      ≡ spoken hours (if ltb seconds 30 then minutes else minutes + 1)
format_duration_lem hours minutes seconds m s long =
    let n = 3600 * hours + 60 * minutes + seconds in
    let (whole, rest) = minutes_lem hours minutes seconds m s in
    format_long n long
    ∙ ap (λ h. hours_text h (rounded_minutes n)) whole
    ∙ ap (hours_text hours) rest
    ∙ hours_text-spoken hours (if ltb seconds 30 then minutes else minutes + 1)
