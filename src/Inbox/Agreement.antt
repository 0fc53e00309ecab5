-- ===== src/Inbox/Agreement.antt =====
-- The page of the notifications and the store filter alike.
use charge_api.Prelude.{◌≡◌, refl, ap, arith, String, List, [], ◌∷◌, All, filter}
use charge_api.Api.{Notification, NotificationStatusFilter, all, unread, pending, resolved}
use charge_api.Notifications.Store.{visible}
use charge_api.Notifications.Filters.{IsVisible}
use charge_api.Inbox.{fits_status, fits_query, shown}

fits_status-visible :
    (status : NotificationStatusFilter) (n : Notification) → fits_status status n ≡ visible status n
unfolding fits_status visible
fits_status-visible all n = refl
fits_status-visible unread n = ground arith
fits_status-visible pending n = ground arith
fits_status-visible resolved n = ground arith

filter-All :
    (status : NotificationStatusFilter) (ns : List Notification)
    → All (IsVisible status) ns
    → filter (fits_status status) ns ≡ ns
filter-All status [] h = refl
filter-All status (n ∷ ns) (v, h) =
    rw (fits_status-visible status n, v) (ap (λ xs. n ∷ xs) (filter-All status ns h))

-- The page's own filter keeps what the store's listener lets in, for each of the four filters; so a
-- list that the store loaded and kept for a filter is shown whole, up to the search.
shown-visible :
    (status : NotificationStatusFilter) (query : String) (ns : List Notification)
    → ((n : Notification) → fits_status status n ≡ visible status n)
      × (All (IsVisible status) ns → shown status query ns ≡ filter (fits_query query) ns)
unfolding shown
shown-visible status query ns =
    (fits_status-visible status, λ h. ap (filter (fits_query query)) (filter-All status ns h))
