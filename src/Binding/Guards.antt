-- ===== src/Binding/Guards.antt =====
-- What is never sent: a second confirmation before the first is reconciled, and anything by a reply.
use charge_api.Prelude.{
  ℕ, ◌≡◌, ◌≤◌, ◌<◌, arith, Bool, true, false, List, [], any, All, run_of-none, run_of_still,
}
use charge_api.Http.{resolved, rejected}
use charge_api.Binding.{
  State, is_ready, Effect, send_confirm, create_begin, create_settle, disconnect, unmount,
  check_begin, check_settle, is_due, confirm_begin, confirm_settle,
}
use charge_api.Binding.Events.{
  Event, create, create_reply, timer, check, check_reply, confirm, confirm_reply, went_offline,
  went_online, unmounted, step, run,
}

abbrev pub is_confirm : Effect → Bool
is_confirm (send_confirm epoch qr) = true
is_confirm _ = false

abbrev pub IsNoCheckReply : Event → Type 0
IsNoCheckReply (check_reply version qr reply) = ⊥
IsNoCheckReply _ = Unit

-- Nothing is ready to be confirmed.
abbrev IsUnready : State → Type 0
IsUnready s = is_ready s.status ≡ false

step-IsUnready :
    (e : Event) (s : State)
    → IsNoCheckReply e
    → IsUnready s
    → IsUnready (step e s).0 × (any is_confirm (step e s).1 ≡ false)
unfolding step create_begin create_settle disconnect unmount check_begin is_due confirm_begin
    confirm_settle
step-IsUnready create s n h = ground arith
step-IsUnready (create_reply version (resolved next)) s n h = ground arith
step-IsUnready (create_reply version (rejected reason)) s n h = ground arith
step-IsUnready timer s n h = ground arith
step-IsUnready check s n h = ground arith
step-IsUnready (check_reply version qr reply) s n h = absurd n
step-IsUnready confirm s n h = ground arith
step-IsUnready (confirm_reply version qr (resolved next)) s n h = ground arith
step-IsUnready (confirm_reply version qr (rejected reason)) s n h = ground arith
step-IsUnready went_offline s n h = ground arith
step-IsUnready went_online s n h = ground arith
step-IsUnready unmounted s n h = ground arith

-- After a confirmation was sent, and whatever happens then, its own reply and new codes included, no
-- other is sent before a reply to a check has come.
pub run-confirm_once :
    (es : List Event) (s : State)
    → any is_confirm (confirm_begin s).1 ≡ true
    → All IsNoCheckReply es
    → any is_confirm (run es (confirm_begin s).0).1 ≡ false
run-confirm_once es s sent n =
    run_of-none step IsUnready IsNoCheckReply is_confirm step-IsUnready es (confirm_begin s).0 n
      (unready s sent)
  where
    unready :
        (s : State) → any is_confirm (confirm_begin s).1 ≡ true → IsUnready (confirm_begin s).0
    unready s sent = unfold confirm_begin in ground arith

-- The event is a reply to a request of that epoch or an earlier one.
abbrev pub IsReplyUpTo : ℕ → Event → Type 0
IsReplyUpTo v (create_reply version reply) = version ≤ v
IsReplyUpTo v (check_reply version qr reply) = version ≤ v
IsReplyUpTo v (confirm_reply version qr reply) = version ≤ v
IsReplyUpTo v _ = ⊥

stale_step : (e : Event) (v : ℕ) (s : State) → v < s.epoch → IsReplyUpTo v e → step e s ≡ (s, [])
unfolding step create_settle check_settle confirm_settle
stale_step create v s h r = absurd r
stale_step (create_reply version (resolved next)) v s h r = ground arith
stale_step (create_reply version (rejected reason)) v s h r = ground arith
stale_step timer v s h r = absurd r
stale_step check v s h r = absurd r
stale_step (check_reply version qr (resolved next)) v s h r = ground arith
stale_step (check_reply version qr (rejected reason)) v s h r = ground arith
stale_step confirm v s h r = absurd r
stale_step (confirm_reply version qr (resolved next)) v s h r = ground arith
stale_step (confirm_reply version qr (rejected reason)) v s h r = ground arith
stale_step went_offline v s h r = absurd r
stale_step went_online v s h r = absurd r
stale_step unmounted v s h r = absurd r

stale_run :
    (es : List Event) (v : ℕ) (s : State)
    → v < s.epoch
    → All (IsReplyUpTo v) es
    → run es s ≡ (s, [])
stale_run es v s h = run_of_still step (IsReplyUpTo v) s (λ e. stale_step e v s h) es

-- Once a new code was asked for, the connection was lost or the page was left, no reply to a request
-- that was sent before changes anything or sends anything.
run-overtaken :
    (es : List Event) (s : State)
    → All (IsReplyUpTo s.epoch) es
    → (run es (create_begin s).0 ≡ ((create_begin s).0, []))
      × (run es (disconnect s).0 ≡ ((disconnect s).0, []))
      × (run es (unmount s).0 ≡ ((unmount s).0, []))
run-overtaken es s r = (
  stale_run es s.epoch (create_begin s).0 (unfold create_begin in omega arith) r,
  stale_run es s.epoch (disconnect s).0 (unfold disconnect in omega arith) r,
  stale_run es s.epoch (unmount s).0 (unfold unmount in omega arith) r,
)
