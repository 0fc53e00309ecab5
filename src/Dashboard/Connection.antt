-- ===== src/Dashboard/Connection.antt =====
-- The stream's connection: the event source that the browser holds open, and the one that the store has.
use charge_api.Prelude.{
  ℕ, ◌≡◌, refl, arith, Bool, true, false, Option, none, some, String, List, [], ◌∷◌, ℤ, ap, ◌∙◌,
  ◌||◌, ◌&&◌, is_some, if◌then◌else◌,
}
use charge_api.Types.{DashboardSnapshot}
use charge_api.Http.{resolved, rejected}
use charge_api.Dashboard.Store.{
  Store, reset, fetch_begin, fetch_settle, snapshot_settle, mutation_settle, apply_snapshot,
  initial,
}
use charge_api.Dashboard.Stream.{
  subscribe_notifications, unsubscribe_notifications, subscribe_stream_open,
  unsubscribe_stream_open, connect_stream, disconnect_stream, unmount, on_open, on_notification,
  on_error, on_snapshot, close, delete,
}
use charge_api.Dashboard.Events.{
  Event, set_snapshot, cleared, fetch, fetch_reply, snapshot_reply, mutation_reply, connect,
  disconnect, unmounted, opened, snapshot_message, notification_message, failed,
  notification_listener, open_listener, step, run,
}

-- The sources that should be open: the one in use.
abbrev pub held : Option ℕ → List ℕ
held none = []
held (some k) = k ∷ []

-- The browser holds open exactly the event source in use; none, where a fatal error has closed it.
abbrev pub IsConnected : (lost : Bool) → Store → Type 0
IsConnected lost s = s.sources ≡ (if lost then [] else held s.stream)

-- Whether a fatal error has closed the source in use, after an event.
abbrev lost_after : Event → Store → (lost : Bool) → Bool
lost_after (failed fatal) s lost = lost || (fatal && is_some s.stream)
lost_after disconnect s lost = false
lost_after unmounted s lost = false
lost_after e s lost = lost

-- Only a source that the store has can be lost.
abbrev IsHeld : (lost : Bool) → Store → Type 0
IsHeld lost s = IsConnected lost s × (lost ≡ true → is_some s.stream ≡ true)

connect-IsHeld :
    (supported lost : Bool) (s : Store) → IsHeld lost s → IsHeld lost (connect_stream supported s)
unfolding connect_stream
connect-IsHeld supported lost s (h, k) = (ground (arith, h, k), λ l. ground (arith, k l))

delete_self : (k : ℕ) → delete k (k ∷ []) ≡ []
delete_self k = ground arith

close-held :
    (lost : Bool) (stream : Option ℕ) → close stream (if lost then [] else held stream) ≡ []
close-held true none = refl
close-held false none = refl
close-held true (some k) = refl
close-held false (some k) = delete_self k

disconnect-IsHeld : (lost : Bool) (s : Store) → IsHeld lost s → IsHeld false (disconnect_stream s)
unfolding disconnect_stream
disconnect-IsHeld lost s (h, k) = (ap (close s.stream) h ∙ close-held lost s.stream, λ l. cc)

unmount-IsHeld : (lost : Bool) (s : Store) → IsHeld lost s → IsHeld false (unmount s)
unfolding unmount
unmount-IsHeld lost s (h, k) = (ap (close s.stream) h ∙ close-held lost s.stream, λ l. cc)

failed-IsHeld :
    (fatal lost : Bool) (s : Store)
    → IsHeld lost s
    → IsHeld (lost || (fatal && is_some s.stream)) (on_error fatal s)
unfolding on_error
failed-IsHeld fatal lost s (h, k) = (
  ap (λ sources. if fatal then close s.stream sources else sources) h
      ∙ of_error fatal lost s.stream,
  λ l. ground (arith, k, l),
)
  where
    of_error :
        (fatal lost : Bool) (stream : Option ℕ)
        → (if fatal
            then close stream (if lost then [] else held stream)
            else (if lost then [] else held stream))
          ≡ (if lost || (fatal && is_some stream) then [] else held stream)
    of_error true true none = refl
    of_error true true (some k) = refl
    of_error true false none = refl
    of_error true false (some k) = delete_self k
    of_error false true stream = refl
    of_error false false stream = refl

module _ (parse_date : String → Option ℤ) where
  apply_snapshot-IsHeld :
      (x : DashboardSnapshot) (lost : Bool) (s : Store)
      → IsHeld lost s
      → IsHeld lost (apply_snapshot parse_date x s)
  unfolding apply_snapshot
  apply_snapshot-IsHeld x lost s (h, k) = (ground (arith, h), λ l. ground (arith, k l))

  step-IsHeld :
      (e : Event) (lost : Bool) (s : Store)
      → IsHeld lost s
      → IsHeld (lost_after e s lost) (step parse_date e s)
  unfolding step
  step-IsHeld (set_snapshot next) lost s h = apply_snapshot-IsHeld next lost s h
  step-IsHeld (cleared now) lost s h = unfold reset in h
  step-IsHeld fetch lost s h = unfold fetch_begin in h
  step-IsHeld (fetch_reply (resolved next)) lost s h =
      unfold fetch_settle in apply_snapshot-IsHeld next lost s h
  step-IsHeld (fetch_reply (rejected reason)) lost s h = unfold fetch_settle in h
  step-IsHeld (snapshot_reply (resolved next)) lost s h =
      unfold snapshot_settle in apply_snapshot-IsHeld next lost s h
  step-IsHeld (snapshot_reply (rejected reason)) lost s h = unfold snapshot_settle in h
  step-IsHeld (mutation_reply supported is_open (resolved u)) lost s (h, k) =
      unfold mutation_settle in (ground (arith, h, k), λ l. ground (arith, k l))
  step-IsHeld (mutation_reply supported is_open (rejected reason)) lost s h =
      unfold mutation_settle in h
  step-IsHeld (connect supported) lost s h = connect-IsHeld supported lost s h
  step-IsHeld disconnect lost s h = disconnect-IsHeld lost s h
  step-IsHeld unmounted lost s h = unmount-IsHeld lost s h
  step-IsHeld opened lost s h = unfold on_open in h
  step-IsHeld (snapshot_message none) lost s h = unfold on_snapshot in h
  step-IsHeld (snapshot_message (some next)) lost s h =
      unfold on_snapshot in apply_snapshot-IsHeld next lost s h
  step-IsHeld (notification_message delivered) lost s h = unfold on_notification in h
  step-IsHeld (failed fatal) lost s h = failed-IsHeld fatal lost s h
  step-IsHeld (notification_listener true k) lost s h = unfold subscribe_notifications in h
  step-IsHeld (notification_listener false k) lost s h = unfold unsubscribe_notifications in h
  step-IsHeld (open_listener true k) lost s h = unfold subscribe_stream_open in h
  step-IsHeld (open_listener false k) lost s h = unfold unsubscribe_stream_open in h

  -- Whether a fatal error among the events has closed the source in use at their end.
  unfoldable pub lost_in : List Event → Store → (lost : Bool) → Bool
  lost_in [] s lost = lost
  lost_in (e ∷ es) s lost = lost_in es (step parse_date e s) (lost_after e s lost)

  run_from-IsHeld :
      (es : List Event) (lost : Bool) (s : Store)
      → IsHeld lost s
      → IsHeld (lost_in es s lost) (run parse_date es s)
  unfolding run lost_in
  run_from-IsHeld [] lost s h = h
  run_from-IsHeld (e ∷ es) lost s h =
      run_from-IsHeld es (lost_after e s lost) (step parse_date e s) (step-IsHeld e lost s h)

  -- From the initial store, after any events, the browser holds open exactly the event source in use,
  -- never two and none that the store has forgotten; unless a fatal error came since the source was
  -- opened, with no disconnecting since. Then it holds none, and the store still has a source, so that
  -- connecting again changes nothing that the browser holds.
  pub run-IsConnected :
      (es : List Event) (now : String) (supported : Bool)
      → let s = run parse_date es (initial now) in
        let lost = lost_in es (initial now) false in
        IsConnected lost s × (lost ≡ true → (connect_stream supported s).sources ≡ [])
  unfolding connect_stream
  run-IsConnected es now supported =
      let (held_open, kept) =
        run_from-IsHeld es false (initial now) (unfold initial in (refl, λ l. cc)) in
      (held_open, λ l. ground (arith, held_open, kept l, l))

-- Connecting twice is connecting once; and a connection that is closed and asked for again is a new
-- one, with the store's data kept.
reconnect_lem :
    (s : Store)
    → IsConnected false s
    → (connect_stream true (connect_stream true s) ≡ connect_stream true s)
      × (let s' = connect_stream true (disconnect_stream s) in
          (s'.stream ≡ some s.next_source)
          × (s'.sources ≡ s.next_source ∷ [])
          × (s'.snapshot ≡ s.snapshot)
          × (s'.last_server_stamp ≡ s.last_server_stamp))
unfolding connect_stream disconnect_stream
reconnect_lem s h = (ground arith, ground arith)
