-- ===== src/Watch/Window.antt =====
-- `isWithinWindow` of frontend/components/watch-rule-dialog.tsx against the length of the window in
-- frontend/lib/watch-format.ts.
use charge_api.Prelude.{
  ℕ, ◌+◌, ◌-◌, ◌%◌, ◌<◌, ◌≡◌, ◌↔◌, arith, Bool, true, ◌&&◌, ◌||◌, leb, ltb, ◌==◌, if◌then◌else◌,
}
use charge_api.Watch.Estimates.{window_minutes}

unfoldable pub is_within_window : ℕ → ℕ → ℕ → Bool
is_within_window value start end =
    if start == end
    then true
    else if ltb start end
    then leb start value && ltb value end
    else leb start value || ltb value end

-- A minute of the day is within a window exactly if it lies less far after the start, going forward
-- round the clock, than the window is long; so the test and the estimate mean the same window.
is_within_window-window_minutes :
    (value start end : ℕ)
    → value < 1440
    → start < 1440
    → end < 1440
    → (is_within_window value start end ≡ true)
      ↔ ((value + 1440 - start) % 1440 < window_minutes start end)
unfolding is_within_window window_minutes
is_within_window-window_minutes value start end v s e = (λ h. ground arith, λ h. ground arith)
