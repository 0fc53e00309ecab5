-- ===== src/AddPile/Once.antt =====
-- When a pile is sent, and when it is not.
use charge_api.Prelude.{
  ℕ, ◌≡◌, ◌⊎◌, arith, Bool, true, false, some, String, List, [], All, any, run_of, run_of-none,
  eq_iff,
}
use charge_api.Types.{Pile}
use charge_api.Api.Binding.{YybBinding}
use charge_api.Http.{Settled, resolved, rejected, request_error}
use charge_api.AddPile.{
  PileForm, State, Effect, add_pile, change_open, retry, check_settle, continue_with, submit_begin,
  submit_settle,
}

pub data Event : Type 0 where
  open_changed : Bool → Event
  again : Event
  checked : (controller : ℕ) → Settled YybBinding → Event
  continued : YybBinding → Event
  edited : PileForm → Event
  submit : Event
  submitted : Settled Pile → Event
  line : (online : Bool) → Event

unfoldable pub step : Event → State → State × List Effect
step (open_changed next) s = change_open next s
step again s = retry s
step (checked k reply) s = (check_settle k reply s, [])
step (continued next) s = (continue_with next s, [])
step (edited form) s = (record s { values = form }, [])
step submit s = submit_begin s
step (submitted reply) s = submit_settle reply s
step (line online) s = (record s { online = online }, [])

abbrev pub run : List Event → State → State × List Effect
run = run_of step

abbrev pub is_add : Effect → Bool
is_add (add_pile form) = true
is_add _ = false

abbrev pub IsNoReply : Event → Type 0
IsNoReply (submitted reply) = ⊥
IsNoReply _ = Unit

abbrev IsLocked : State → Type 0
IsLocked s = s.submit_lock ≡ true

step-IsLocked :
    (e : Event) (s : State)
    → IsNoReply e
    → IsLocked s
    → IsLocked (step e s).0 × (any is_add (step e s).1 ≡ false)
unfolding step change_open retry check_settle continue_with submit_begin
step-IsLocked (open_changed true) s n h = ground arith
step-IsLocked (open_changed false) s n h = ground arith
step-IsLocked again s n h = ground arith
step-IsLocked (checked k (resolved next)) s n h = ground arith
step-IsLocked (checked k (rejected reason)) s n h = ground arith
step-IsLocked (continued next) s n h = ground arith
step-IsLocked (edited form) s n h = ground arith
step-IsLocked submit s n h = ground arith
step-IsLocked (submitted reply) s n h = absurd n
step-IsLocked (line online) s n h = ground arith

-- After a pile was sent, none is sent again before the reply has come, whatever is typed and pressed
-- meanwhile, the dialog closed and opened again included.
run-add_once :
    (es : List Event) (s : State)
    → any is_add (submit_begin s).1 ≡ true
    → All IsNoReply es
    → any is_add (run es (submit_begin s).0).1 ≡ false
run-add_once es s sent n =
    run_of-none step IsLocked IsNoReply is_add step-IsLocked es (submit_begin s).0 n (locked s sent)
  where
    locked : (s : State) → any is_add (submit_begin s).1 ≡ true → IsLocked (submit_begin s).0
    locked s sent = unfold submit_begin in ground arith

-- The event is not about the binding, and no dialog is opened by it.
abbrev pub IsUnbound : Event → Type 0
IsUnbound (checked k reply) = ⊥
IsUnbound (continued next) = ⊥
IsUnbound _ = Unit

abbrev NeedsBinding : State → Type 0
NeedsBinding s = s.binding_required ≡ true

step-NeedsBinding :
    (e : Event) (s : State)
    → IsUnbound e
    → NeedsBinding s
    → NeedsBinding (step e s).0 × (any is_add (step e s).1 ≡ false)
unfolding step change_open retry submit_begin submit_settle
step-NeedsBinding (open_changed true) s n h = ground arith
step-NeedsBinding (open_changed false) s n h = ground arith
step-NeedsBinding again s n h = ground arith
step-NeedsBinding (checked k reply) s n h = absurd n
step-NeedsBinding (continued next) s n h = absurd n
step-NeedsBinding (edited form) s n h = ground arith
step-NeedsBinding submit s n h = ground arith
step-NeedsBinding (submitted (resolved added)) s n h = ground arith
step-NeedsBinding (submitted (rejected reason)) s n h = ground arith
step-NeedsBinding (line online) s n h = ground arith

-- Once the server has refused a pile because the account is to be bound, or scanned again, none is sent
-- before the binding was checked or made.
run-refused :
    (es : List Event) (message : String) (status : ℕ) (code : String) (s : State)
    → ((code ≡ "YYB_RESCAN_REQUIRED") ⊎ (code ≡ "YYB_BINDING_REQUIRED"))
    → All IsUnbound es
    → any is_add
        (run es (submit_settle (rejected (request_error message status (some code))) s).0).1
      ≡ false
run-refused es message status code s c n =
    let s' = (submit_settle (rejected (request_error message status (some code))) s).0 in
    run_of-none step NeedsBinding IsUnbound is_add step-NeedsBinding es s' n
      (refused message status code s c)
  where
    refused :
        (message : String) (status : ℕ) (code : String) (s : State)
        → ((code ≡ "YYB_RESCAN_REQUIRED") ⊎ (code ≡ "YYB_BINDING_REQUIRED"))
        → NeedsBinding (submit_settle (rejected (request_error message status (some code))) s).0
    refused message status code s c =
        unfold submit_settle in
        ground (arith, eq_iff code "YYB_RESCAN_REQUIRED", eq_iff code "YYB_BINDING_REQUIRED")
