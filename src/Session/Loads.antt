-- ===== src/Session/Loads.antt =====
-- What loads of the workbench do, alone and after they were overtaken.
use charge_api.Prelude.{
  ℕ, ◌+◌, ◌<◌, ◌≤◌, ◌≡◌, refl, arith, Bool, true, false, ◌||◌, Option, none, some, String, List, [],
  ◌∷◌, ◌++◌, All, any,
}
use charge_api.Types.{CurrentUser, user}
use charge_api.Http.{Settled, resolved, rejected, message_of}
use charge_api.Session.{
  State, Effect, fetch_me, fetch_snapshot, load_watch, load_notifications, connect_stream, is_user,
  load_begin, user_settle, snapshot_settle, unmount, Event, load, user_reply, snapshot_reply,
  unmounted, step, run,
}

-- The event is a reply to a load of that version or an earlier one.
abbrev pub IsReplyUpTo : ℕ → Event → Type 0
IsReplyUpTo v (user_reply current reply) = current ≤ v
IsReplyUpTo v (snapshot_reply current reply) = current ≤ v
IsReplyUpTo v _ = ⊥

stale_step : (e : Event) (v : ℕ) (s : State) → v < s.version → IsReplyUpTo v e → step e s ≡ (s, [])
unfolding step user_settle snapshot_settle
stale_step (load me) v s h r = absurd r
stale_step (user_reply current (resolved me)) v s h r = ground arith
stale_step (user_reply current (rejected reason)) v s h r = ground arith
stale_step (snapshot_reply current (resolved u)) v s h r = ground arith
stale_step (snapshot_reply current (rejected reason)) v s h r = ground arith
stale_step unmounted v s h r = absurd r

stale_run :
    (es : List Event) (v : ℕ) (s : State)
    → v < s.version
    → All (IsReplyUpTo v) es
    → run es s ≡ (s, [])
unfolding run
stale_run [] v s h r = refl
stale_run (e ∷ es) v s h (r, rs) = rw (stale_step e v s h r, stale_run es v s h rs)

-- Once the workbench is left, no reply to a load that was begun before changes its state or has an
-- effect: none sets a page, and none connects the stream again.
unmount-run :
    (es : List Event) (s : State)
    → All (IsReplyUpTo s.version) es
    → run es (unmount s).0 ≡ ((unmount s).0, [])
unfolding unmount
unmount-run es s h = stale_run es s.version (record s { version = s.version + 1 }) (omega arith) h

-- A load from its begin to the reply to the snapshot, where the account is known, or is asked for.
abbrev pub visit : Bool → CurrentUser → ℕ → Settled (Unit {0}) → List Event
visit true me v reply = load (some me) ∷ snapshot_reply v reply ∷ []
visit false me v reply = load none ∷ user_reply v (resolved (some me)) ∷ snapshot_reply v reply ∷ []

abbrev pub error_of : Settled (Unit {0}) → Option String
error_of (resolved u) = none
error_of (rejected reason) = some (message_of reason)

abbrev pub asked_first : Bool → List Effect
asked_first true = []
asked_first false = fetch_me ∷ []

-- A load of a user's workbench ends, whatever the snapshot's reply: the user is let in, the reminders and
-- the notifications are loaded, the stream is connected once and last, and the error that is shown is
-- that of the snapshot, or none.
run-visit :
    (me : CurrentUser) (known : Bool) (reply : Settled (Unit {0})) (s : State)
    → me.role ≡ user
    → run (visit known me (s.version + 1) reply) s ≡ (
      record {
        authorized = true;
        initial_loading = false;
        error = error_of reply;
        version = s.version + 1;
      },
      asked_first known ++ (fetch_snapshot ∷ load_watch ∷ load_notifications ∷ connect_stream ∷ []),
    )
unfolding run step load_begin user_settle snapshot_settle
run-visit me true (resolved u) s h = rw h (ground arith)
run-visit me true (rejected reason) s h = rw h (ground arith)
run-visit me false (resolved u) s h = rw h (ground arith)
run-visit me false (rejected reason) s h = rw h (ground arith)

-- The event names a user, who is no administrator.
abbrev pub names_user : Event → Bool
names_user (load (some me)) = is_user me.role
names_user (user_reply current (resolved (some me))) = is_user me.role
names_user _ = false

step-authorized :
    (e : Event) (s : State) → (step e s).0.authorized ≡ true → (s.authorized || names_user e) ≡ true
unfolding step load_begin user_settle snapshot_settle unmount
step-authorized (load none) s h = ground arith
step-authorized (load (some me)) s h = ground arith
step-authorized (user_reply current (resolved none)) s h = ground arith
step-authorized (user_reply current (resolved (some me))) s h = ground arith
step-authorized (user_reply current (rejected reason)) s h = ground arith
step-authorized (snapshot_reply current (resolved u)) s h = ground arith
step-authorized (snapshot_reply current (rejected reason)) s h = ground arith
step-authorized unmounted s h = ground arith

-- The workbench is shown only if it was before, or if an account was known or answered that is a user's
-- and no administrator's.
run-authorized :
    (es : List Event) (s : State)
    → (run es s).0.authorized ≡ true
    → (s.authorized || any names_user es) ≡ true
unfolding run
run-authorized [] s h = ground arith
run-authorized (e ∷ es) s h = ground (arith, run-authorized es (step e s).0 h, step-authorized e s)
