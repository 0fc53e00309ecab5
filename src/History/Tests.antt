-- ===== src/History/Tests.antt =====
-- Two hours but for a second.
use charge_api.Prelude.{◌≡◌, arith, some}
use charge_api.History.{format_duration}
use charge_api.History.Durations.{spoken, format_duration_lem}

format_duration_lem_example : format_duration (some 7199) ≡ spoken 1 60
format_duration_lem_example = format_duration_lem 1 59 59 (omega arith) (omega arith) (omega arith)
