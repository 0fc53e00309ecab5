-- ===== src/Channel/Refresh.antt =====
-- The effect of frontend/components/wxpusher-channel-card.tsx that refreshes the channel while a delivery
-- is pending, every ten seconds and when the page is shown again.
use charge_api.Prelude.{◌≡◌, arith, Bool, true, false, not, ◌||◌, List, [], ◌∷◌, if◌then◌else◌}

-- The variables of the effect, and `document.visibilityState === "visible"`.
pub record Refresher : Type 0 where
  pub disposed : Bool
  pub timer : Bool
  pub refreshing : Bool
  pub visible : Bool

-- `schedule`: a timer that is set takes the place of the one before.
unfoldable pub schedule : Refresher → Refresher
schedule r = if r.disposed || not r.visible then r else record r { timer = true }

-- `refresh`, up to the load of the channel: whether it is loaded.
unfoldable pub refresh_begin : Refresher → Refresher × Bool
refresh_begin r =
    if r.disposed || r.refreshing then (r, false) else (record r { refreshing = true }, true)

-- `refresh`, after the load, however it ended.
unfoldable pub refresh_settle : Refresher → Refresher
unfolding schedule
refresh_settle r = schedule (record r { refreshing = false })

-- The timer has run out.
unfoldable pub fire : Refresher → Refresher × Bool
unfolding refresh_begin
fire r = if r.timer then refresh_begin (record r { timer = false }) else (r, false)

-- `handleVisibilityChange`.
unfoldable pub visibility_change : Bool → Refresher → Refresher × Bool
unfolding refresh_begin
visibility_change visible r =
    if visible
    then refresh_begin (record r { timer = false; visible = true })
    else (record r { timer = false; visible = false }, false)

-- The cleanup.
unfoldable pub dispose : Refresher → Refresher
dispose r = record r { disposed = true; timer = false }

unfoldable pub start : Bool → Refresher
unfolding schedule
start visible =
    schedule (record { disposed = false; timer = false; refreshing = false; visible = visible })

pub data Event : Type 0 where
  fired loaded disposal : Event
  changed : (visible : Bool) → Event

unfoldable pub step : Event → Refresher → Refresher × Bool
unfolding fire refresh_settle dispose visibility_change
step fired r = fire r
step loaded r = if r.refreshing then (refresh_settle r, false) else (r, false)
step disposal r = (dispose r, false)
step (changed visible) r = visibility_change visible r

unfoldable pub run : List Event → Refresher → Refresher
unfolding step
run [] r = r
run (e ∷ es) r = run es (step e r).0

-- Nothing is lost and nothing runs unseen: a page that is shown has a timer or a load on its way, one
-- that is hidden has no timer, and one that is left has none.
pub record IsLive (r : Refresher) : Type 0 where
  pub shown : r.disposed ≡ false → r.visible ≡ true → (r.timer || r.refreshing) ≡ true
  pub hidden : r.visible ≡ false → r.timer ≡ false
  pub left : r.disposed ≡ true → r.timer ≡ false

start-IsLive : (visible : Bool) → IsLive (start visible)
unfolding start
start-IsLive visible = ground arith

step-IsLive : (e : Event) (r : Refresher) → IsLive r → IsLive (step e r).0
unfolding step
step-IsLive fired r l = grind arith
step-IsLive loaded r l = grind arith
step-IsLive disposal r l = grind arith
step-IsLive (changed visible) r l = grind arith

run_from-IsLive : (es : List Event) (r : Refresher) → IsLive r → IsLive (run es r)
unfolding run
run_from-IsLive [] r l = l
run_from-IsLive (e ∷ es) r l = run_from-IsLive es (step e r).0 (step-IsLive e r l)

-- Whatever happens, a page that is shown has a timer or a load on its way, so that the channel is read
-- again; a hidden page has no timer, and one that is left has none.
pub run-IsLive : (es : List Event) (visible : Bool) → IsLive (run es (start visible))
run-IsLive es visible = run_from-IsLive es (start visible) (start-IsLive visible)
