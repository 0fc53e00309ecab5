-- ===== src/Notifications/Loads.antt =====
-- Overlapping loads of the notification list.
use charge_api.Prelude.{ℕ, ◌≡◌, ◌≢◌, arith, false, none}
use charge_api.Api.{NotificationPage, NotificationStatusFilter}
use charge_api.Http.{Settled, resolved, rejected}
use charge_api.Notifications.Store.{Store}
use charge_api.Notifications.Actions.{load_begin, load_settle}

-- A reply to a request that is not the newest changes nothing, and its promise resolves.
load_settle_stale :
    (version : ℕ) (reply : Settled NotificationPage) (now : ℕ) (s : Store)
    → version ≢ s.request_version
    → load_settle version reply now s ≡ (s, resolved tt)
unfolding load_settle
load_settle_stale version (resolved page) now s h = ground arith
load_settle_stale version (rejected reason) now s h = ground arith

-- Of two loads whose requests overlap, where the later one is answered with a page, the later one
-- decides: whichever reply comes first, and whatever the earlier one's is, the state is the same, and
-- it shows the page and the filter of the later load, without an error.
pub load_last_wins :
    (first second : NotificationStatusFilter) (early : Settled NotificationPage)
    (page : NotificationPage) (t₁ t₂ : ℕ) (s : Store)
    → let (s₁, v₁) = load_begin first s in
      let (s₂, v₂) = load_begin second s₁ in
      let settled = (load_settle v₂ (resolved page) t₂ (load_settle v₁ early t₁ s₂).0).0 in
      (settled ≡ (load_settle v₁ early t₁ (load_settle v₂ (resolved page) t₂ s₂).0).0)
      × (settled.items ≡ page.items)
      × (settled.unread_count ≡ page.unread_count)
      × (settled.status_ref ≡ second)
      × (settled.status ≡ second)
      × (settled.loading ≡ false)
      × (settled.error ≡ none)
unfolding load_begin load_settle
load_last_wins first second (resolved early) page t₁ t₂ s = ground arith
load_last_wins first second (rejected reason) page t₁ t₂ s = ground arith
