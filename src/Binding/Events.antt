-- ===== src/Binding/Events.antt =====
-- What can happen to the binding of an account, and runs of such events.
use charge_api.Prelude.{ℕ, true, List, [], if◌then◌else◌, run_of}
use charge_api.Api.Binding.{YybBinding, YybQr, YybQrPoll}
use charge_api.Http.{Settled}
use charge_api.Binding.{
  State, Effect, create_begin, create_settle, disconnect, unmount, check_begin, check_settle,
  is_due, confirm_begin, confirm_settle,
}

pub data Event : Type 0 where
  -- The first code, or a new one.
  create : Event
  create_reply : ℕ → Settled YybQr → Event
  -- The timer of the automatic check, or the button.
  timer : Event
  check : Event
  check_reply : ℕ → YybQr → Settled YybQrPoll → Event
  confirm : Event
  confirm_reply : ℕ → YybQr → Settled YybBinding → Event
  went_offline : Event
  went_online : Event
  unmounted : Event

unfoldable pub step : Event → State → State × List Effect
step create s = create_begin s
step (create_reply version reply) s = (create_settle version reply s, [])
step timer s = if is_due s then check_begin s else (s, [])
step check s = check_begin s
step (check_reply version qr reply) s = (check_settle version qr reply s, [])
step confirm s = confirm_begin s
step (confirm_reply version qr reply) s = (confirm_settle version qr reply s, [])
step went_offline s = disconnect s
step went_online s = (record s { online = true }, [])
step unmounted s = unmount s

-- The state after the events, and their effects in order.
abbrev pub run : List Event → State → State × List Effect
run = run_of step
