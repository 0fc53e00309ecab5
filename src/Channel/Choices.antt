-- ===== src/Channel/Choices.antt =====
-- What the switches of frontend/components/wxpusher-channel-card.tsx send.
use charge_api.Prelude.{◌≡◌, arith, Bool, List, if◌then◌else◌}
use charge_api.Api.Channel.{
  WxPusherEventType, pile_available, credential_expired, pile_offline, pile_recovered,
}
use charge_api.Channel.Settings.{same_event, has_event, chosen_events}

has_event-chosen_events :
    (e t : WxPusherEventType) (on : Bool) (ts : List WxPusherEventType)
    → has_event t (chosen_events e on ts) ≡ (if same_event e t then on else has_event t ts)
unfolding chosen_events
has_event-chosen_events e t on ts = ground arith

-- A switch sends its own type exactly if it is turned on, and every other type exactly if it was chosen
-- before; and the list that is sent depends on nothing else: neither on the order of the old list nor
-- on how often a type stands in it.
chosen_events_lem :
    (e : WxPusherEventType) (on : Bool) (ts us : List WxPusherEventType)
    → ((t : WxPusherEventType)
        → has_event t (chosen_events e on ts) ≡ (if same_event e t then on else has_event t ts))
      × (((t : WxPusherEventType) → has_event t ts ≡ has_event t us)
          → chosen_events e on ts ≡ chosen_events e on us)
unfolding chosen_events
chosen_events_lem e on ts us = (
  λ t. has_event-chosen_events e t on ts,
  λ same. rw (same pile_available, same credential_expired, same pile_offline, same pile_recovered),
)
