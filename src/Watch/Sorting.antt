-- ===== src/Watch/Sorting.antt =====
-- The order of the reminder list.
use charge_api.Prelude.{
  ◌≡◌, arith, Bool, true, false, Option, none, some, List, [], ◌∷◌, String, All, Bool-cases, inl,
  inr,
}
use mathlib.Core.List.{Perm}
use mathlib.Core.List.Perm
use charge_api.Api.{WatchRule}
use charge_api.Http.{resolved, rejected}
use charge_api.Watch.Store.{
  Store, initial, comes_first, insert_rule, to_sorted, apply_rules, created, create_rule_settle,
  update_rule_settle, delete_rule_settle, load_begin, load_settle, update_preference_settle,
}
use charge_api.Watch.Rules.{
  Event, load, load_reply, create_reply, update_reply, delete_reply, preference_reply, step, run,
}

-- `at_most` is a total order of the times, as `localeCompare` is documented to be.
pub record IsOrder (at_most : String → String → Bool) : Type 0 where
  pub total : (a b : String) → at_most a b ≡ false → at_most b a ≡ true
  pub trans : (a b c : String) → at_most a b ≡ true → at_most b c ≡ true → at_most a c ≡ true

module _ (at_most : String → String → Bool) where
  -- `left` was updated at the time of `right`, or after it.
  abbrev pub IsBefore : WatchRule → WatchRule → Type 0
  IsBefore left right = at_most right.updated_at left.updated_at ≡ true

  abbrev pub IsSorted : List WatchRule → Type 0
  IsSorted [] = Unit
  IsSorted (r ∷ rs) = All (IsBefore r) rs × IsSorted rs

  -- The rules that a load brings are in order.
  abbrev pub IsLoadSorted : Event → Type 0
  IsLoadSorted (load_reply (resolved (rules, _, _))) = IsSorted rules
  IsLoadSorted _ = Unit

  insert_rule-perm :
      (r : WatchRule) (rs : List WatchRule) → Perm (insert_rule at_most r rs) (r ∷ rs)
  unfolding insert_rule
  insert_rule-perm r [] = Perm.refl (r ∷ [])
  insert_rule-perm r (x ∷ xs) = elim (Bool-cases (comes_first at_most r x)) [
    | inl first ↦ rw first (Perm.refl (r ∷ x ∷ xs))
    | inr later ↦ rw later (Perm.trans (Perm.cons x (insert_rule-perm r xs)) (Perm.swap r x xs))
  ]

  to_sorted-perm : (rs : List WatchRule) → Perm (to_sorted at_most rs) rs
  unfolding to_sorted
  to_sorted-perm [] = Perm.refl []
  to_sorted-perm (r ∷ rs) =
      Perm.trans (insert_rule-perm r (to_sorted at_most rs)) (Perm.cons r (to_sorted-perm rs))

  insert_rule-All :
      (P : WatchRule → Type 0) (r : WatchRule) (rs : List WatchRule)
      → P r
      → All P rs
      → All P (insert_rule at_most r rs)
  unfolding insert_rule
  insert_rule-All P r [] p h = (p, tt)
  insert_rule-All P r (x ∷ xs) p (q, h) = elim (Bool-cases (comes_first at_most r x)) [
    | inl first ↦ rw first (p, (q, h))
    | inr later ↦ rw later (q, insert_rule-All P r xs p h)
  ]

  module _ (order : IsOrder at_most) where
    All-IsBefore :
        (r x : WatchRule) (xs : List WatchRule)
        → IsBefore r x
        → All (IsBefore x) xs
        → All (IsBefore r) xs
    All-IsBefore r x [] b h = tt
    All-IsBefore r x (y ∷ ys) b (c, h) =
        (order.trans y.updated_at x.updated_at r.updated_at c b, All-IsBefore r x ys b h)

    insert_rule-IsSorted :
        (r : WatchRule) (rs : List WatchRule) → IsSorted rs → IsSorted (insert_rule at_most r rs)
    unfolding insert_rule
    insert_rule-IsSorted r [] h = (tt, tt)
    insert_rule-IsSorted r (x ∷ xs) (b, h) = elim (Bool-cases (comes_first at_most r x)) [
      | inl first ↦ rw first ((first, All-IsBefore r x xs first b), (b, h))
      | inr later ↦ rw later (
        insert_rule-All (IsBefore x) r xs (order.total x.updated_at r.updated_at later) b,
        insert_rule-IsSorted r xs h,
      )
    ]

    to_sorted-IsSorted : (rs : List WatchRule) → IsSorted (to_sorted at_most rs)
    unfolding to_sorted
    to_sorted-IsSorted [] = tt
    to_sorted-IsSorted (r ∷ rs) =
        insert_rule-IsSorted r (to_sorted at_most rs) (to_sorted-IsSorted rs)

    applied-IsSorted :
        (next : List WatchRule) (s : Store) → IsSorted (apply_rules at_most next s).rules
    unfolding apply_rules
    applied-IsSorted next s = to_sorted-IsSorted next

    created-IsSorted :
        (rule : Option WatchRule) (s : Store)
        → IsSorted s.rules
        → IsSorted (created at_most rule s).rules
    created-IsSorted none s h = h
    created-IsSorted (some rule) s h = applied-IsSorted _ s

    step-IsSorted :
        (e : Event) (s : Store)
        → IsLoadSorted e
        → IsSorted s.rules
        → IsSorted (step at_most e s).rules
    unfolding step
    step-IsSorted load s f h = unfold load_begin in ground arith
    step-IsSorted (load_reply (resolved (rules, overview, preference))) s f h =
        unfold load_settle in f
    step-IsSorted (load_reply (rejected reason)) s f h = unfold load_settle in h
    step-IsSorted (create_reply (resolved result)) s f h =
        unfold create_rule_settle in created-IsSorted result.rule s h
    step-IsSorted (create_reply (rejected reason)) s f h = unfold create_rule_settle in h
    step-IsSorted (update_reply (resolved updated)) s f h =
        unfold update_rule_settle in applied-IsSorted _ s
    step-IsSorted (update_reply (rejected reason)) s f h = unfold update_rule_settle in h
    step-IsSorted (delete_reply id (resolved u)) s f h =
        unfold delete_rule_settle in applied-IsSorted _ s
    step-IsSorted (delete_reply id (rejected reason)) s f h = unfold delete_rule_settle in h
    step-IsSorted (preference_reply (resolved p)) s f h = unfold update_preference_settle in h
    step-IsSorted (preference_reply (rejected reason)) s f h = unfold update_preference_settle in h

    run_from-IsSorted :
        (es : List Event) (s : Store)
        → All IsLoadSorted es
        → IsSorted s.rules
        → IsSorted (run at_most es s).rules
    unfolding run
    run_from-IsSorted [] s f h = h
    run_from-IsSorted (e ∷ es) s (f, fs) h =
        run_from-IsSorted es (step at_most e s) fs (step-IsSorted e s f h)

    -- After any replies in any order, each rule of the rendered list was updated no earlier than those
    -- below it. Conditions: the times are compared in a total order, and the rules that a load brings
    -- are in this order already.
    pub run-IsSorted :
        (es : List Event) → All IsLoadSorted es → IsSorted (run at_most es initial).rules
    run-IsSorted es f = run_from-IsSorted es initial f (unfold initial in tt)
