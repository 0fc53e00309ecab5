-- ===== src/Announcements/Reading.antt =====
-- Acknowledging an announcement.
use charge_api.Prelude.{
  ℕ, ◌≡◌, arith, Bool, true, false, String, List, [], All, any, run_of, run_of-none,
}
use charge_api.Http.{Settled, resolved, rejected}
use charge_api.Announcements.{Announcement}
use charge_api.Announcements.Reader.{
  Reader, Effect, send_acknowledge, load_begin, load_settle, Loaded, a_page, an_announcement, turn,
  turn_later, leave, check_settle, acknowledge_begin, acknowledge_settle,
}

pub data Event : Type 0 where
  reload : (selection : String) → Event
  loaded : (aborted : Bool) → (current : ℕ) → Settled Loaded → Event
  turned : Event
  turned_later : (aborted : Bool) → (selection : String) → Event
  left : Event
  checked : (aborted : Bool) → Announcement → Settled Announcement → Event
  acknowledge : Event
  acknowledge_reply : (current : ℕ) → Announcement → Settled (Unit {0}) → Event
  line : (online : Bool) → Event

module _ (encode : String → String) where
  unfoldable pub step : Event → Reader → Reader × List Effect
  step (reload selection) r = load_begin encode selection r
  step (loaded aborted current reply) r = (load_settle aborted current reply r, [])
  step turned r = (turn r, [])
  step (turned_later aborted selection) r = turn_later encode aborted selection r
  step left r = (leave r, [])
  step (checked aborted given reply) r = (check_settle aborted given reply r, [])
  step acknowledge r = acknowledge_begin r
  step (acknowledge_reply current given reply) r = acknowledge_settle current given reply r
  step (line online) r = (record r { online = online }, [])

  abbrev pub is_acknowledge : Effect → Bool
  is_acknowledge (send_acknowledge id version reminder current) = true
  is_acknowledge _ = false

  abbrev pub IsNoReply : Event → Type 0
  IsNoReply (acknowledge_reply current given reply) = ⊥
  IsNoReply _ = Unit

  abbrev pub IsLocked : Reader → Type 0
  IsLocked r = r.lock ≡ true

  step-IsLocked :
      (e : Event) (r : Reader)
      → IsNoReply e
      → IsLocked r
      → IsLocked (step e r).0 × (any is_acknowledge (step e r).1 ≡ false)
  unfolding step load_begin load_settle turn turn_later leave check_settle acknowledge_begin
  step-IsLocked (reload selection) r n h = ground arith
  step-IsLocked (loaded aborted current (resolved (a_page next))) r n h = ground arith
  step-IsLocked (loaded aborted current (resolved (an_announcement next))) r n h = ground arith
  step-IsLocked (loaded aborted current (rejected reason)) r n h = ground arith
  step-IsLocked turned r n h = ground arith
  step-IsLocked (turned_later aborted selection) r n h = ground arith
  step-IsLocked left r n h = ground arith
  step-IsLocked (checked aborted given (resolved next)) r n h = ground arith
  step-IsLocked (checked aborted given (rejected reason)) r n h = ground arith
  step-IsLocked acknowledge r n h = ground arith
  step-IsLocked (acknowledge_reply current given reply) r n h = absurd n
  step-IsLocked (line online) r n h = ground arith

  -- After an acknowledgement was sent, no other is sent before its reply has come, whatever is opened,
  -- loaded and pressed meanwhile.
  run-acknowledge_once :
      (es : List Event) (r : Reader)
      → any is_acknowledge (acknowledge_begin r).1 ≡ true
      → All IsNoReply es
      → any is_acknowledge (run_of step es (acknowledge_begin r).0).1 ≡ false
  run-acknowledge_once es r sent n =
      run_of-none step IsLocked IsNoReply is_acknowledge step-IsLocked es (acknowledge_begin r).0 n
        (locked r sent)
    where
      locked :
          (r : Reader)
          → any is_acknowledge (acknowledge_begin r).1 ≡ true
          → IsLocked (acknowledge_begin r).0
      locked r sent = unfold acknowledge_begin in ground arith

  -- The reply to an acknowledgement of an announcement that is no longer read changes nothing that is
  -- shown and tells nobody; the next can be sent.
  acknowledge_left :
      (given : Announcement) (reply : Settled (Unit {0})) (r : Reader)
      → let (after, effects) = acknowledge_settle r.version given reply (leave r) in
        (effects ≡ [])
        × (after.shown ≡ r.shown)
        × (after.error ≡ r.error)
        × (after.changed ≡ r.changed)
        × (after.lock ≡ false)
  unfolding acknowledge_settle leave
  acknowledge_left given (resolved u) r = ground arith
  acknowledge_left given (rejected reason) r = ground arith
