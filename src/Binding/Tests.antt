-- ===== src/Binding/Tests.antt =====
-- A code that was authorized and is confirmed twice, a dialog that is left, and checks that fail.
use Prim.Native.Nat.{min}
use charge_api.Prelude.{
  ◌+◌, ◌-◌, ◌≡◌, refl, true, false, none, some, List, [], ◌∷◌, any, length, ltb,
}
use charge_api.Api.Binding.{YybQr, YybQrPoll}
use charge_api.Http.{Settled, rejected, other_error}
use charge_api.Binding.{State, authorized, pending, confirm_begin, is_due}
use charge_api.Binding.Events.{confirm, confirm_reply, run}
use charge_api.Binding.Guards.{is_confirm, run-confirm_once}
use charge_api.Binding.Polling.{poll_all, poll_all-stops}

abbrev code : YybQr
code = record { image_base64 = some "abc"; image_url = none; session_id = "s1"; status = none }

abbrev waiting : State
waiting = record {
  qr = some code;
  status = pending;
  result = none;
  error = "";
  loading = false;
  busy = false;
  failures = 0;
  revision = 0;
  epoch = 1;
  operation = false;
  mounted = true;
  online = true;
}

abbrev scanned_code : State
scanned_code = record waiting { status = authorized }

abbrev lost : {A : Type 0} → Settled A
lost = rejected (other_error "lost")

run-confirm_once_example :
    any is_confirm
      (run (confirm ∷ confirm_reply 1 code lost ∷ confirm ∷ []) (confirm_begin scanned_code).0).1
    ≡ false
unfolding confirm_begin
run-confirm_once_example =
    run-confirm_once (confirm ∷ confirm_reply 1 code lost ∷ confirm ∷ []) scanned_code refl
      (tt, (tt, (tt, tt)))

abbrev failed_checks : List (Settled YybQrPoll)
failed_checks = lost ∷ lost ∷ lost ∷ lost ∷ []

poll_all-stops_example :
    let (last, made) = poll_all failed_checks waiting in
    (made ≡ min (length failed_checks) (3 - waiting.failures))
    × (last.failures ≡ waiting.failures + made)
    × (is_due last ≡ ltb last.failures 3)
unfolding is_due
poll_all-stops_example =
    poll_all-stops failed_checks waiting (tt, (tt, (tt, (tt, tt)))) (refl, refl) refl
