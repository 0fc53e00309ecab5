-- ===== src/Announcements/Superseded.antt =====
-- A load of the summary that another has taken the place of.
use charge_api.Prelude.{
  ℕ, ◌<◌, ◌≡◌, ◌≢◌, arith, Bool, true, Option, some, String, List, [], ℤ, run_of, run_of-kept,
}
use charge_api.Http.{Settled, resolved, rejected}
use charge_api.Announcements.{
  AnnouncementSummary, State, Effect, initial, load_begin, load_settle, unmount, is_aborted,
}

module _ (parse_date : String → Option ℤ) where
  pub data Event : Type 0 where
    load : (force : Bool) → (now : ℤ) → Event
    reply : (controller : ℕ) → (now : ℤ) → Settled AnnouncementSummary → Event
    left : Event
    line : (online : Bool) → Event

  unfoldable pub step : Event → State → State × List Effect
  step (load force now) s = load_begin force now s
  step (reply k now r) s = (load_settle parse_date k now r s, [])
  step left s = (unmount s, [])
  step (line online) s = (record s { online = online }, [])

  abbrev pub run : List Event → State → State × List Effect
  run = run_of step

  -- The controller in use was made before the next one.
  abbrev pub IsKnown : State → Type 0
  IsKnown s = (k : ℕ) → s.operation ≡ some k → k < s.next_controller

  -- Controller k is given up.
  abbrev pub IsGone : ℕ → State → Type 0
  IsGone k s = (is_aborted k s ≡ true) × (k < s.next_controller) × (s.operation ≢ some k)

  step-IsKnown : (e : Event) (s : State) → IsKnown s → IsKnown (step e s).0
  unfolding step load_begin load_settle unmount
  step-IsKnown (load force now) s h = λ k e. ground (arith, h k)
  step-IsKnown (reply j now (resolved given)) s h = λ k e. ground (arith, h k)
  step-IsKnown (reply j now (rejected reason)) s h = λ k e. ground (arith, h k)
  step-IsKnown left s h = λ k e. ground (arith, h k)
  step-IsKnown (line online) s h = h

  step-IsGone : (k : ℕ) (e : Event) (s : State) → IsGone k s → IsGone k (step e s).0
  unfolding step load_begin load_settle unmount
  step-IsGone k (load force now) s h = ground arith
  step-IsGone k (reply j now (resolved given)) s h = ground arith
  step-IsGone k (reply j now (rejected reason)) s h = ground arith
  step-IsGone k left s h = ground arith
  step-IsGone k (line online) s h = h

  forced-IsGone :
      (k : ℕ) (now : ℤ) (s : State)
      → s.operation ≡ some k
      → s.online ≡ true
      → IsKnown s
      → IsGone k (load_begin true now s).0
  unfolding load_begin
  forced-IsGone k now s h o known = ground (arith, known k)

  gone_reply :
      (k : ℕ) (now : ℤ) (r : Settled AnnouncementSummary) (s : State)
      → IsGone k s
      → load_settle parse_date k now r s ≡ s
  unfolding load_settle
  gone_reply k now (resolved given) s h = ground arith
  gone_reply k now (rejected reason) s h = ground arith

  -- From the first state on: once a load is forced while another is on its way, the reply to the other
  -- changes nothing, whenever it comes and whatever happens before.
  pub run-superseded :
      (before between : List Event) (online : Bool) (k : ℕ) (now later : ℤ)
      (r : Settled AnnouncementSummary)
      → let s = (run before (initial online)).0 in
        s.operation ≡ some k
        → s.online ≡ true
        → let s' = (run between (load_begin true now s).0).0 in
          load_settle parse_date k later r s' ≡ s'
  run-superseded before between online k now later r h o =
      let s = (run before (initial online)).0 in
      let known =
        run_of-kept step IsKnown step-IsKnown before (initial online) (initial-IsKnown online) in
      gone_reply k later r (run between (load_begin true now s).0).0 (
        run_of-kept step (IsGone k) (step-IsGone k) between (load_begin true now s).0
          (forced-IsGone k now s h o known))
    where
      initial-IsKnown : (online : Bool) → IsKnown (initial online)
      initial-IsKnown online = unfold initial in λ k e. ground arith
