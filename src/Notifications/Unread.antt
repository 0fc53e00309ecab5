-- ===== src/Notifications/Unread.antt =====
-- The unread count against what the client remembers of each notification.
use charge_api.Prelude.{
  ℕ, ◌+◌, ◌-◌, ◌≤◌, ◌≡◌, arith, Bool, true, false, Option, some, String, List, [], ◌∷◌, lookup,
  insert, lookup-insert, eq_refl, any, ◌&&◌, not, ◌==◌, is_some,
}
use charge_api.Api.{Notification}
use charge_api.Http.{resolved}
use charge_api.Notifications.Store.{Store, is_unread, has_id}
use charge_api.Notifications.Actions.{mark_read_settle}
use charge_api.Notifications.Stream.{receive, count_after}

abbrev pub bit : Option Bool → ℕ
bit (some true) = 1
bit _ = 0

-- How many notifications the client remembers as unread.
abbrev pub known_unread : List (String × Bool) → ℕ
known_unread [] = 0
known_unread ((id, b) ∷ m) = bit (some b) + known_unread m

known_unread-insert :
    (id : String) (b : Bool) (m : List (String × Bool))
    → known_unread (insert id b m) + bit (lookup id m) ≡ known_unread m + bit (some b)
unfolding insert lookup
known_unread-insert id b [] = omega arith
known_unread-insert id b ((k, c) ∷ m) = ground (arith, known_unread-insert id b m)

bit_le : (id : String) (m : List (String × Bool)) → bit (lookup id m) ≤ known_unread m
unfolding lookup
bit_le id [] = omega arith
bit_le id ((k, c) ∷ m) = ground (arith, bit_le id m)

-- The client remembers no more unread notifications than it counts.
abbrev pub IsCounted : Store → Type 0
IsCounted s = known_unread s.unread_state ≤ s.unread_count

-- An unread notification that the client first meets on a later occurrence: the count has it already.
abbrev is_met_late : Notification → Store → Bool
is_met_late n s =
    not (is_some (lookup n.id s.unread_state)) && is_unread n && not (n.occurrence_count == 1)

abbrev late_bit : Bool → ℕ
late_bit true = 1
late_bit false = 0

receive-balance :
    (n : Notification) (s : Store)
    → known_unread s.unread_state + late_bit (is_met_late n s) ≤ s.unread_count
    → ((receive n s).unread_count + known_unread s.unread_state + late_bit (is_met_late n s)
        ≡ s.unread_count + known_unread (receive n s).unread_state)
unfolding receive count_after
receive-balance n s h =
    ground
      (arith, known_unread-insert n.id (is_unread n) s.unread_state, bit_le n.id s.unread_state)

-- The stream's messages in order, each one new.
unfoldable pub receive_all : List Notification → Store → Store
receive_all [] s = s
receive_all (n ∷ ns) s = receive_all ns (receive n s)

-- How many of the messages bring an unread notification that the client meets on a later occurrence.
unfoldable pub met_late : List Notification → Store → ℕ
met_late [] s = 0
met_late (n ∷ ns) s = late_bit (is_met_late n s) + met_late ns (receive n s)

-- However many messages the stream brings, of whatever occurrence, the count changes by exactly as much as
-- the number of notifications that the client remembers as unread, less one for each unread notification
-- that it meets on a later occurrence; and it stays at least that number. Condition: the count is at
-- least the number remembered as unread, with those that are to be met late, which it has already.
pub receive_all-balance :
    (ns : List Notification) (s : Store)
    → known_unread s.unread_state + met_late ns s ≤ s.unread_count
    → IsCounted (receive_all ns s)
      × ((receive_all ns s).unread_count + known_unread s.unread_state + met_late ns s
          ≡ s.unread_count + known_unread (receive_all ns s).unread_state)
unfolding receive_all met_late
receive_all-balance [] s h = (omega arith, omega arith)
receive_all-balance (n ∷ ns) s h =
    let one = receive-balance n s (omega arith) in
    let (counted, more) = receive_all-balance ns (receive n s) (omega arith) in
    (counted, omega arith)

-- Marking as read a notification that was rendered as unread and is remembered as unread lowers the
-- count and what is remembered together; one rendered as read and remembered so changes neither.
mark_read_settle-balance :
    (seen : List Notification) (updated : Notification) (s : Store)
    → IsCounted s
    → lookup updated.id s.unread_state ≡ some (any (λ n. has_id updated.id n && is_unread n) seen)
    → let s' = (mark_read_settle seen updated.id (resolved updated) s).0 in
      IsCounted s'
      × (s'.unread_count + known_unread s.unread_state
          ≡ s.unread_count + known_unread s'.unread_state)
unfolding mark_read_settle
mark_read_settle-balance seen updated s h e =
    ground
      (arith, known_unread-insert updated.id false s.unread_state, bit_le updated.id s.unread_state)

-- Two marks of one notification made before the list is rendered again both see it as unread, and
-- lower the count twice, although the second one changes nothing that the client remembers.
pub mark_read_twice :
    (seen : List Notification) (updated : Notification) (s : Store)
    → any (λ n. has_id updated.id n && is_unread n) seen ≡ true
    → let s₁ = (mark_read_settle seen updated.id (resolved updated) s).0 in
      let s₂ = (mark_read_settle seen updated.id (resolved updated) s₁).0 in
      (s₁.unread_count ≡ s.unread_count - 1)
      × (s₂.unread_count ≡ s.unread_count - 2)
      × (known_unread s₂.unread_state ≡ known_unread s₁.unread_state)
unfolding mark_read_settle
mark_read_twice seen updated s h = ground (
  arith,
  known_unread-insert updated.id false s.unread_state,
  known_unread-insert updated.id false (insert updated.id false s.unread_state),
  lookup-insert updated.id updated.id false s.unread_state,
  eq_refl updated.id,
)
