-- ===== src/Notifications/Listing.antt =====
-- The list operations of the notification store: what they keep, and what they find.
use charge_api.Prelude.{
  ◌≡◌, refl, arith, false, ◌||◌, Option, none, some, String, List, [], ◌∷◌, map, member, Distinct,
  All, str_eq, eq_iff, if◌then◌else◌, inl, inr, Bool-cases,
}
use charge_api.Api.{Notification}
use charge_api.Notifications.Store.{has_id, put, put_all, merge_notifications, replace, remove}
use charge_api.Notifications.Actions.{read_from}

abbrev pub ids : List Notification → List String
ids = map (λ n. n.id)

-- The notification of an identifier.
abbrev pub find : String → List Notification → Option Notification
find id [] = none
find id (n ∷ ns) = if has_id id n then some n else find id ns

member-put :
    (id : String) (n : Notification) (ns : List Notification)
    → member id (ids (put n ns)) ≡ (str_eq n.id id || member id (ids ns))
unfolding put
member-put id n [] = refl
member-put id n (m ∷ ms) =
    ground (arith, member-put id n ms, eq_iff m.id n.id, eq_iff m.id id, eq_iff n.id id)

put-Distinct :
    (n : Notification) (ns : List Notification) → Distinct (ids ns) → Distinct (ids (put n ns))
unfolding put
put-Distinct n [] h = (refl, tt)
put-Distinct n (m ∷ ms) (new, h) =
    ground (arith, put-Distinct n ms h, member-put m.id n ms, eq_iff m.id n.id, eq_iff n.id m.id)

put_all-Distinct :
    (merged incoming : List Notification)
    → Distinct (ids merged)
    → Distinct (ids (put_all merged incoming))
unfolding put_all
put_all-Distinct merged [] h = h
put_all-Distinct merged (n ∷ ns) h = put_all-Distinct (put n merged) ns (put-Distinct n merged h)

-- However often an identifier stands in the two lists, it stands once in the merged one.
pub merge_notifications-Distinct :
    (current incoming : List Notification) → Distinct (ids (merge_notifications current incoming))
unfolding merge_notifications
merge_notifications-Distinct current incoming =
    put_all-Distinct (put_all [] current) incoming (put_all-Distinct [] current tt)

find-put :
    (id : String) (n : Notification) (ns : List Notification)
    → find id (put n ns) ≡ (if has_id id n then some n else find id ns)
unfolding put
find-put id n [] = refl
find-put id n (m ∷ ms) =
    ground (arith, find-put id n ms, eq_iff m.id n.id, eq_iff m.id id, eq_iff n.id id)

-- The last notification of an identifier in a list, or another value.
abbrev pub newest : String → List Notification → Option Notification → Option Notification
newest id [] other = other
newest id (n ∷ ns) other = newest id ns (if has_id id n then some n else other)

find-put_all :
    (id : String) (merged incoming : List Notification)
    → find id (put_all merged incoming) ≡ newest id incoming (find id merged)
unfolding put_all
find-put_all id merged [] = refl
find-put_all id merged (n ∷ ns) = rw (find-put_all id (put n merged) ns, find-put)

-- After a merge an identifier shows its last version in the incoming list, and where that has none,
-- its last version in the current list.
pub find-merge_notifications :
    (id : String) (current incoming : List Notification)
    → find id (merge_notifications current incoming) ≡ newest id incoming (newest id current none)
unfolding merge_notifications
find-merge_notifications id current incoming =
    rw (find-put_all id (put_all [] current) incoming, find-put_all id [] current)

ids-replace : (updated : Notification) (ns : List Notification) → ids (replace updated ns) ≡ ids ns
ids-replace updated [] = refl
ids-replace updated (n ∷ ns) = ground (arith, ids-replace updated ns, eq_iff n.id updated.id)

pub replace-Distinct :
    (updated : Notification) (ns : List Notification)
    → Distinct (ids ns)
    → Distinct (ids (replace updated ns))
replace-Distinct updated ns h = rw (ids-replace updated ns) h

ids-read_from :
    (read_at : String) (ns : List Notification) → ids (map (read_from read_at) ns) ≡ ids ns
ids-read_from read_at [] = refl
ids-read_from read_at (n ∷ ns) = ground (arith, ids-read_from read_at ns)

pub read_from-Distinct :
    (read_at : String) (ns : List Notification)
    → Distinct (ids ns)
    → Distinct (ids (map (read_from read_at) ns))
read_from-Distinct read_at ns h = rw (ids-read_from read_at ns) h

pub member-remove_self :
    (id : String) (ns : List Notification) → member id (ids (remove id ns)) ≡ false
member-remove_self id [] = refl
member-remove_self id (n ∷ ns) = ground (arith, member-remove_self id ns)

member-remove :
    (k id : String) (ns : List Notification)
    → member k (ids ns) ≡ false
    → member k (ids (remove id ns)) ≡ false
member-remove k id [] h = refl
member-remove k id (n ∷ ns) h = ground (arith, member-remove k id ns)

pub remove-Distinct :
    (id : String) (ns : List Notification) → Distinct (ids ns) → Distinct (ids (remove id ns))
remove-Distinct id [] h = tt
remove-Distinct id (n ∷ ns) (new, h) =
    ground (arith, remove-Distinct id ns h, member-remove n.id id ns new)

module _ {ℓ} (P : Notification → Type ℓ) where
  pub All-put : (n : Notification) (ns : List Notification) → All P (put n ns) → P n
  unfolding put
  All-put n [] h = h.0
  All-put n (m ∷ ms) h = elim (Bool-cases (str_eq m.id n.id)) [
    | inl same ↦ (rw same at h).0
    | inr other ↦ All-put n ms (rw other at h).1
  ]

  pub put-All : (n : Notification) (ns : List Notification) → P n → All P ns → All P (put n ns)
  unfolding put
  put-All n [] p h = (p, tt)
  put-All n (m ∷ ms) p (q, h) = elim (Bool-cases (str_eq m.id n.id)) [
    | inl same ↦ rw same (p, h)
    | inr other ↦ rw other (q, put-All n ms p h)
  ]

  put_all-All :
      (merged incoming : List Notification)
      → All P merged
      → All P incoming
      → All P (put_all merged incoming)
  unfolding put_all
  put_all-All merged [] h k = h
  put_all-All merged (n ∷ ns) h (p, k) = put_all-All (put n merged) ns (put-All n merged p h) k

  pub merge_notifications-All :
      (current incoming : List Notification)
      → All P current
      → All P incoming
      → All P (merge_notifications current incoming)
  unfolding merge_notifications
  merge_notifications-All current incoming h k =
      put_all-All (put_all [] current) incoming (put_all-All [] current tt h) k

  pub remove-All : (id : String) (ns : List Notification) → All P ns → All P (remove id ns)
  remove-All id [] h = tt
  remove-All id (n ∷ ns) (p, h) = elim (Bool-cases (has_id id n)) [
    | inl same ↦ rw same (remove-All id ns h)
    | inr other ↦ rw other (p, remove-All id ns h)
  ]

  pub replace-All :
      (updated : Notification) (ns : List Notification)
      → P updated
      → All P ns
      → All P (replace updated ns)
  replace-All updated [] p h = tt
  replace-All updated (n ∷ ns) p (q, h) = elim (Bool-cases (has_id updated.id n)) [
    | inl same ↦ rw same (p, replace-All updated ns p h)
    | inr other ↦ rw other (q, replace-All updated ns p h)
  ]
