-- ===== src/Notifications/Filters.antt =====
-- What the list shows under the current filter.
use charge_api.Prelude.{
  ℕ, ◌≡◌, refl, arith, Bool, true, false, none, some, String, List, [], ◌∷◌, map, All, Bool-cases,
  inl, ◌⊎◌, subst, inr, is_truthy, if◌then◌else◌, str_eq, eq_iff,
}
use charge_api.Api.{Notification, NotificationPage, NotificationStatusFilter, unread}
use charge_api.Http
use charge_api.Http.{Settled}
use charge_api.Notifications.Store.{Store, visible, is_unread, remove, merge_notifications, put_all}
use charge_api.Notifications.Actions.{
  load_begin, load_settle, load_more_settle, mark_read_settle, mark_all_read_settle, read_from,
}
use charge_api.Notifications.Stream.{receive}
use charge_api.Notifications.Listing.{find, remove-All, replace-All, All-put}

abbrev pub IsVisible : NotificationStatusFilter → Notification → Type 0
IsVisible status n = visible status n ≡ true

-- Every notification of the list belongs to the current filter.
abbrev pub Fits : Store → Type 0
Fits s = All (IsVisible s.status_ref) s.items

find-remove :
    (id k : String) (ns : List Notification)
    → find k (remove id ns) ≡ (if str_eq id k then none else find k ns)
find-remove id k [] = ground arith
find-remove id k (n ∷ ns) =
    ground (arith, find-remove id k ns, eq_iff n.id id, eq_iff n.id k, eq_iff id k)

receive-Fits : (n : Notification) (s : Store) → Fits s → Fits (receive n s)
unfolding receive
receive-Fits n s h = elim (Bool-cases (visible s.status_ref n)) [
  | inl shown ↦ rw shown (shown, remove-All _ n.id s.items h)
  | inr hidden ↦ rw hidden (remove-All _ n.id s.items h)
]

receive-find :
    (n : Notification) (s : Store) (id : String)
    → find id (receive n s).items ≡ (
        if str_eq n.id id
        then (if visible s.status_ref n then some n else none)
        else find id s.items)
unfolding receive
receive-find n s id = ground (arith, find-remove n.id id s.items)

-- A notification from the stream keeps a list that is within its filter so, shows its newest version if it
-- belongs there and nothing of it if not, and leaves every other notification as it was.
pub receive_lem :
    (n : Notification) (s : Store)
    → Fits s
    → Fits (receive n s)
      × ((id : String)
          → find id (receive n s).items ≡ (
              if str_eq n.id id
              then (if visible s.status_ref n then some n else none)
              else find id s.items))
receive_lem n s h = (receive-Fits n s h, receive-find n s)

-- Marking one notification as read keeps the list within its filter, where the server's answer
-- belongs to the filter or the filter is that of unread notifications.
mark_read_settle-Fits :
    (seen : List Notification) (id : String) (updated : Notification) (s : Store)
    → (s.status_ref ≡ unread) ⊎ IsVisible s.status_ref updated
    → Fits s
    → Fits (mark_read_settle seen id (Http.resolved updated) s).0
unfolding mark_read_settle
mark_read_settle-Fits seen id updated s ok h = ground (
  arith,
  remove-All (IsVisible s.status_ref) updated.id s.items h,
  replace-All (IsVisible s.status_ref) updated s.items,
)

IsVisible-read_from :
    (status : NotificationStatusFilter) (read_at : String) (n : Notification)
    → (status ≡ unread → ⊥)
    → IsVisible status n
    → IsVisible status (read_from read_at n)
unfolding visible
IsVisible-read_from status read_at n other v = ground arith

read_from-All :
    (status : NotificationStatusFilter) (read_at : String) (ns : List Notification)
    → (status ≡ unread → ⊥)
    → All (IsVisible status) ns
    → All (IsVisible status) (map (read_from read_at) ns)
read_from-All status read_at [] other h = tt
read_from-All status read_at (n ∷ ns) other (v, h) =
    (IsVisible-read_from status read_at n other v, read_from-All status read_at ns other h)

All-read :
    (read_at : String) (ns : List Notification)
    → is_truthy (some read_at) ≡ true
    → All (λ n. is_unread n ≡ false) (map (read_from read_at) ns)
All-read read_at [] h = tt
All-read read_at (n ∷ ns) h = (ground arith, All-read read_at ns h)

abbrev pub IsOff : String × Bool → Type 0
IsOff e = e.1 ≡ false

no_unread : (m : List (String × Bool)) → All IsOff (map (λ e. (e.0, false)) m)
no_unread [] = tt
no_unread (e ∷ m) = (refl, no_unread m)

-- After `markAllRead` the count is 0, no listed notification is unread, none is remembered as
-- unread, and the list still belongs to its filter; `read_at` is any time that is not the empty text.
mark_all_read_settle_lem :
    (read_at : String) (updated : ℕ) (s : Store)
    → is_truthy (some read_at) ≡ true
    → Fits s
    → let s' = (mark_all_read_settle read_at (Http.resolved updated) s).0 in
      (s'.unread_count ≡ 0)
      × All (λ n. is_unread n ≡ false) s'.items
      × All IsOff s'.unread_state
      × Fits s'
unfolding mark_all_read_settle
mark_all_read_settle_lem read_at updated s t h = ground (
  arith,
  All-read read_at s.items t,
  no_unread s.unread_state,
  read_from-All s.status_ref read_at s.items,
)

All-put_all :
    (P : Notification → Type 0) (n : Notification) (merged : List Notification)
    → All P (put_all merged (n ∷ []))
    → P n
unfolding put_all
All-put_all P n merged h = All-put P n merged h

All-merge_one :
    (P : Notification → Type 0) (n : Notification) (current : List Notification)
    → All P (merge_notifications current (n ∷ []))
    → P n
unfolding merge_notifications
All-merge_one P n current h = All-put_all P n (put_all [] current) h

-- A further page that was asked for under one filter and arrives after the filter has changed is
-- merged all the same: where its one notification does not belong to the new filter, the list no
-- longer fits the filter.
pub load_more_overtaken :
    (second : NotificationStatusFilter) (page more : NotificationPage) (n : Notification) (now : ℕ)
    (s : Store)
    → more.items ≡ n ∷ []
    → visible second n ≡ false
    → let (s₁, version) = load_begin second s in
      let s₂ = (load_settle version (Http.resolved page) now s₁).0 in
      ¬ Fits (load_more_settle (Http.resolved more) s₂).0
load_more_overtaken second page more n now s e hidden h =
    let s₁ = (load_begin second s).0 in
    let s₂ = (load_settle (load_begin second s).1 (Http.resolved page) now s₁).0 in
    let s₃ = (load_more_settle (Http.resolved more) s₂).0 in
    let items : s₃.items ≡ merge_notifications page.items (n ∷ []) =
      (unfold load_begin load_settle load_more_settle in ground arith) in
    let status : s₃.status_ref ≡ second =
      (unfold load_begin load_settle load_more_settle in ground arith) in
    let shown : IsVisible second n = All-merge_one (IsVisible second) n page.items (
      subst (λ l. All (IsVisible second) l) items
        (subst (λ k. All (IsVisible k) s₃.items) status h)) in
    cc
