-- ===== src/Admin/Health.antt =====
-- `healthSummary` of frontend/components/admin-health-status.tsx.
use charge_api.Prelude.{
  ◌≡◌, ◌↔◌, arith, Bool, true, false, Option, none, some, String, List, [], ◌∷◌, any, filter,
  length, concat, decimal, if◌then◌else◌,
}
use charge_api.Types.Admin.{HealthState, healthy, degraded, unavailable, AdminHealth}

pub data Dot : Type 0 where
  muted destructive warning success : Dot

pub record Summary : Type 0 where
  pub label : String
  pub dot : Dot

abbrev is_healthy : HealthState → Bool
is_healthy healthy = true
is_healthy _ = false

abbrev is_unavailable : HealthState → Bool
is_unavailable unavailable = true
is_unavailable _ = false

abbrev is_degraded : HealthState → Bool
is_degraded degraded = true
is_degraded _ = false

-- The services of the page, in order.
abbrev pub states : AdminHealth → List HealthState
states health = health.charge.state ∷ health.database.state ∷ health.yyb.state ∷ []

abbrev counted : List HealthState → String
counted ss = concat (decimal (length (filter is_healthy ss)) ∷ "/3 正常" ∷ [])

abbrev summary_of : List HealthState → Summary
summary_of ss =
    if any is_unavailable ss
    then record { label = counted ss; dot = destructive }
    else if any is_degraded ss
    then record { label = counted ss; dot = warning }
    else record { label = "全部正常"; dot = success }

unfoldable pub health_summary : Option AdminHealth → Summary
health_summary none = record { label = "检查中"; dot = muted }
health_summary (some health) = summary_of (states health)

-- The dot is green exactly if all three services are healthy, and red exactly if one of them cannot be
-- reached.
health_summary_dot :
    (health : AdminHealth)
    → (((health_summary (some health)).dot ≡ success) ↔ (
        (health.charge.state ≡ healthy)
        × (health.database.state ≡ healthy)
        × (health.yyb.state ≡ healthy)))
      × (((health_summary (some health)).dot ≡ destructive)
          ↔ (any is_unavailable (states health) ≡ true))
unfolding health_summary
health_summary_dot health =
    ((λ h. ground arith, λ h. ground arith), (λ h. ground arith, λ h. ground arith))
