-- ===== src/Watch/Rules.antt =====
-- The reminder list under replies in any order: one state, no identifier twice, and a true count.
use charge_api.Prelude.{
  ◌≡◌, refl, arith, Bool, false, not, ◌&&◌, ◌||◌, List, [], ◌∷◌, String, if◌then◌else◌, map, filter,
  member, Distinct, str_eq, eq_iff, ◌∙◌,
}
use charge_api.Api.{NotificationPreference, WatchOverview, WatchRule, WatchRuleCreateResult}
use charge_api.Http.{Settled, resolved}
use charge_api.Watch.Store.{
  Store, insert_rule, to_sorted, create_rule_settle, update_rule_settle, delete_rule_settle,
  load_begin, load_settle, update_preference_settle,
}

pub data Event : Type 0 where
  load : Event
  load_reply : Settled (List WatchRule × WatchOverview × NotificationPreference) → Event
  create_reply : Settled WatchRuleCreateResult → Event
  update_reply : Settled WatchRule → Event
  delete_reply : String → Settled (Unit {0}) → Event
  preference_reply : Settled NotificationPreference → Event

abbrev pub ids : List WatchRule → List String
ids = map (λ r. r.id)

-- Both copies of the list are one, and no identifier stands twice in it.
pub record IsValid (s : Store) : Type 0 where
  pub same : s.rules_ref ≡ s.rules
  pub unique : Distinct (ids s.rules)

-- The server sends no identifier twice.
abbrev pub IsFair : Event → Type 0
IsFair (load_reply (resolved (rules, _, _))) = Distinct (ids rules)
IsFair _ = Unit

module _ (at_most : String → String → Bool) where
  unfoldable pub step : Event → Store → Store
  step load s = (load_begin s).0
  step (load_reply reply) s = (load_settle reply s).0
  step (create_reply reply) s = (create_rule_settle at_most reply s).0
  step (update_reply reply) s = (update_rule_settle at_most reply s).0
  step (delete_reply id reply) s = (delete_rule_settle at_most id reply s).0
  step (preference_reply reply) s = (update_preference_settle reply s).0

  unfoldable pub run : List Event → Store → Store
  run [] s = s
  run (e ∷ es) s = run es (step e s)

  member-insert_rule :
      (k : String) (r : WatchRule) (rs : List WatchRule)
      → member k (ids (insert_rule at_most r rs)) ≡ (str_eq r.id k || member k (ids rs))
  unfolding insert_rule
  member-insert_rule k r [] = refl
  member-insert_rule k r (x ∷ xs) = ground (arith, member-insert_rule k r xs)

  pub member-to_sorted :
      (k : String) (rs : List WatchRule) → member k (ids (to_sorted at_most rs)) ≡ member k (ids rs)
  unfolding to_sorted
  member-to_sorted k [] = refl
  member-to_sorted k (r ∷ rs) =
      ground (arith, member-insert_rule k r (to_sorted at_most rs), member-to_sorted k rs)

  insert_rule-Distinct :
      (r : WatchRule) (rs : List WatchRule)
      → member r.id (ids rs) ≡ false
      → Distinct (ids rs)
      → Distinct (ids (insert_rule at_most r rs))
  unfolding insert_rule
  insert_rule-Distinct r [] m h = (refl, tt)
  insert_rule-Distinct r (x ∷ xs) m (new, h) = ground (
    arith,
    insert_rule-Distinct r xs,
    member-insert_rule x.id r xs,
    eq_iff x.id r.id,
    eq_iff r.id x.id,
  )

  pub to_sorted-Distinct :
      (rs : List WatchRule) → Distinct (ids rs) → Distinct (ids (to_sorted at_most rs))
  unfolding to_sorted
  to_sorted-Distinct [] h = tt
  to_sorted-Distinct (r ∷ rs) (new, h) =
      insert_rule-Distinct r (to_sorted at_most rs) (member-to_sorted r.id rs ∙ new)
        (to_sorted-Distinct rs h)

pub member-without :
    (k id : String) (rs : List WatchRule)
    → member k (ids (filter (λ r. not (str_eq r.id id)) rs))
      ≡ (member k (ids rs) && not (str_eq id k))
member-without k id [] = refl
member-without k id (r ∷ rs) =
    ground (arith, member-without k id rs, eq_iff r.id id, eq_iff r.id k, eq_iff id k)

pub without-Distinct :
    (id : String) (rs : List WatchRule)
    → Distinct (ids rs)
    → Distinct (ids (filter (λ r. not (str_eq r.id id)) rs))
without-Distinct id [] h = tt
without-Distinct id (r ∷ rs) (new, h) =
    ground (arith, without-Distinct id rs h, member-without r.id id rs)

pub ids-updated :
    (updated : WatchRule) (rs : List WatchRule)
    → ids (map (λ r. if str_eq r.id updated.id then updated else r) rs) ≡ ids rs
ids-updated updated [] = refl
ids-updated updated (r ∷ rs) = ground (arith, ids-updated updated rs, eq_iff r.id updated.id)
