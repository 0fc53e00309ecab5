-- ===== src/Channel/Polls.antt =====
-- When the result of a scan is polled, and when no longer.
use charge_api.Prelude.{
  ◌≡◌, ◌↔◌, arith, true, Option, none, some, String, [], ◌∷◌, ℤ, ◌<ℤ◌, ◌≤ℤ◌, is_truthy,
}
use charge_api.Api.Channel.{WxPusherBindSession, waiting_scan}
use charge_api.Channel.{State, create_session}
use charge_api.Channel.Binding.{poll_begin, begin_binding, expire, tick, is_poll_due}

module _ (parse_date : String → Option ℤ) where
  -- Where both times of the code are dates, a poll is due exactly if the dialog is open, the code is
  -- to be scanned and has not expired, and the server's next time for a poll has come.
  is_poll_due_iff :
      (session : WxPusherBindSession) (expires next : ℤ) (s : State)
      → s.session ≡ some session
      → is_truthy (some session.expires_at) ≡ true
      → is_truthy (some session.next_poll_at) ≡ true
      → parse_date session.expires_at ≡ some expires
      → parse_date session.next_poll_at ≡ some next
      → (is_poll_due parse_date s ≡ true) ↔ (
          (s.bind_open ≡ true)
          × (session.status ≡ waiting_scan)
          × (s.now <ℤ expires)
          × (next ≤ℤ s.now))
  unfolding is_poll_due
  is_poll_due_iff session expires next s e te tn pe pn =
      rw (e, pe, pn) (λ h. ground arith, λ h. ground arith)

  -- Once an open dialog's code has expired, it is shown as expired, the poll on its way is given up,
  -- no other is sent for it, and binding again asks for a new code.
  tick_expired :
      (session : WxPusherBindSession) (expires now later : ℤ) (s : State)
      → s.session ≡ some session
      → s.bind_open ≡ true
      → session.status ≡ waiting_scan
      → parse_date session.expires_at ≡ some expires
      → expires ≤ℤ now
      → let s' = tick parse_date now s in
        (s'.session ≡ some (expire parse_date session))
        × (s'.abort_ref ≡ none)
        × (poll_begin s'.session s' ≡ (s', []))
        × ((begin_binding parse_date later s').1 ≡ create_session ∷ [])
  unfolding tick poll_begin begin_binding
  tick_expired session expires now later s e o w p over = rw (e, o, w, p) (ground arith)
