-- ===== src/Channel/Binding.antt =====
-- Binding the channel by a QR code, in frontend/components/wxpusher-channel-card.tsx: the code, the poll
-- for its result, and its expiry.
use charge_api.Prelude.{
  ℕ, ◌+◌, ◌==◌, Bool, true, false, not, ◌&&◌, ◌||◌, Option, none, some, String, List, [], ◌∷◌, ℤ,
  less, any, if◌then◌else◌, ltb,
}
use charge_api.Api.Channel.{
  WxPusherBindSession, WxPusherBindSessionStatus, waiting_scan, bound, expired,
}
use charge_api.Http.{Settled, resolved, rejected}
use charge_api.Feedback.{success}
use charge_api.Channel.{
  State, Effect, create_session, poll_session, tell, tell_error, load_channel_begin,
}
use charge_api.Channel.Texts.{seconds_until}

abbrev pub is_waiting : WxPusherBindSessionStatus → Bool
is_waiting waiting_scan = true
is_waiting _ = false

abbrev pub is_bound : WxPusherBindSessionStatus → Bool
is_bound bound = true
is_bound _ = false

abbrev abort_all : Option ℕ → List ℕ → List ℕ
abort_all none aborted = aborted
abort_all (some k) aborted = k ∷ aborted

unfoldable pub stop_polling : State → State
stop_polling s = record s {
  aborted = abort_all s.abort_ref s.aborted;
  abort_ref = none;
  poll_in_flight = false;
}

unfoldable pub change_bind_open : Bool → State → State
unfolding stop_polling
change_bind_open true s = record s { bind_open = true }
change_bind_open false s = stop_polling (record s { bind_open = false })

-- A poll for the code of the render that made the callback.
unfoldable pub poll_begin : Option WxPusherBindSession → State → State × List Effect
poll_begin none s = (s, [])
poll_begin (some session) s =
    if not (is_waiting session.status) || s.poll_in_flight then (s, []) else (
      record s {
        poll_in_flight = true;
        abort_ref = some s.next_controller;
        next_controller = s.next_controller + 1;
      },
      poll_session session.id s.next_controller ∷ [],
    )

abbrev pub clear_ref : ℕ → Option ℕ → Option ℕ
clear_ref k none = none
clear_ref k (some j) = if j == k then none else some j

-- The `finally` of the poll with controller `k`.
unfoldable pub poll_finally : ℕ → State → State
poll_finally k s = record s { abort_ref = clear_ref k s.abort_ref; poll_in_flight = false }

abbrev pub is_aborted : ℕ → State → Bool
is_aborted k s = any (λ j. j == k) s.aborted

-- The poll's reply. Where the account is bound, the rest waits for the channel (`bound_settle`).
unfoldable pub poll_settle : ℕ → ℤ → Settled WxPusherBindSession → State → State × List Effect
unfolding stop_polling poll_finally load_channel_begin
poll_settle k now (resolved updated) s =
    if is_bound updated.status
    then load_channel_begin (stop_polling (record s { session = some updated; now = now }))
    else (poll_finally k (record s { session = some updated; now = now }), [])
poll_settle k now (rejected reason) s = (
  poll_finally k s,
  if is_aborted k s then [] else tell_error reason "查询绑定状态失败" (some "wxpusher-binding-poll") ∷ [],
)

unfoldable pub bound_settle : ℕ → State → State × List Effect
unfolding poll_finally
bound_settle k s =
    (poll_finally k s, tell success "微信提醒绑定成功" none (some "wxpusher-binding-poll") ∷ [])

-- `new Date(text).getTime()` is the host's, with `none` for NaN, of which every comparison is false.
module _ (parse_date : String → Option ℤ) where
  abbrev pub is_after : Option ℤ → ℤ → Bool
  is_after none now = false
  is_after (some time) now = less now time

  abbrev pub is_over : Option ℤ → ℤ → Bool
  is_over none now = false
  is_over (some time) now = not (less now time)

  abbrev pub is_current : Option WxPusherBindSession → ℤ → Bool
  is_current none now = false
  is_current (some session) now =
      is_waiting session.status && is_after (parse_date session.expires_at) now

  -- `beginBinding`, up to the request: a code that can still be scanned is shown again.
  unfoldable pub begin_binding : ℤ → State → State × List Effect
  begin_binding now s =
      if is_current s.session now
      then (record s { now = now; bind_open = true }, [])
      else (record s { binding = true }, create_session ∷ [])

  abbrev pub expire : WxPusherBindSession → WxPusherBindSession
  expire session = record session { status = expired; message = "二维码已过期，请重新获取。" }

  -- The interval of an open dialog; its effect is torn down where the code is not to be scanned.
  unfoldable pub tick : ℤ → State → State
  unfolding stop_polling
  tick now s = elim s.session [
    | none ↦ s
    | some session ↦
        if not s.bind_open || not (is_waiting session.status)
        then s
        else if is_over (parse_date session.expires_at) now
        then record (stop_polling (record s { now = now })) { session = some (expire session) }
        else record s { now = now }
  ]

  abbrev pub is_pos : Option ℕ → Bool
  is_pos none = false
  is_pos (some n) = ltb 0 n

  abbrev pub is_zero : Option ℕ → Bool
  is_zero none = false
  is_zero (some n) = n == 0

  abbrev poll_due_of : Option WxPusherBindSession → State → Bool
  poll_due_of none s = false
  poll_due_of (some session) s =
      s.bind_open
      && is_waiting session.status
      && is_pos (seconds_until parse_date (some session.expires_at) s.now)
      && is_zero (seconds_until parse_date (some session.next_poll_at) s.now)

  -- The guard of the effect that polls.
  unfoldable pub is_poll_due : State → Bool
  unfolding seconds_until
  is_poll_due s = poll_due_of s.session s

-- `beginBinding`, from the reply.
unfoldable pub begin_settle : ℤ → Settled WxPusherBindSession → State → State × List Effect
begin_settle now (resolved created) s =
    (record s { now = now; session = some created; bind_open = true; binding = false }, [])
begin_settle now (rejected reason) s =
    (record s { binding = false }, tell_error reason "获取绑定二维码失败" none ∷ [])
