-- ===== src/Watch/Valid.antt =====
-- What the replies of the server do to the reminder list, alone and in any order.
use charge_api.Prelude.{
  ◌≡◌, refl, sym, ◌∙◌, ap, arith, Bool, not, ◌&&◌, ◌||◌, List, [], ◌∷◌, String, Option, none, some,
  All, if◌then◌else◌, map, filter, member, Distinct, str_eq, eq_refl, subst,
}
use charge_api.Api.{WatchOverview, WatchRule, WatchRuleCreateResult}
use charge_api.Http.{resolved, rejected}
use charge_api.Watch.Store.{
  Store, apply_rules, created, create_rule_settle, update_rule_settle, delete_rule_settle,
  load_begin, load_settle, update_preference_settle, reminder_pile_count, initial,
}
use charge_api.Watch.Rules.{
  Event, load, load_reply, create_reply, update_reply, delete_reply, preference_reply, IsFair,
  IsValid, ids, step, run, member-to_sorted, to_sorted-Distinct, member-without, without-Distinct,
  ids-updated,
}

module _ (at_most : String → String → Bool) where
  apply_rules-IsValid :
      (next : List WatchRule) (s : Store)
      → Distinct (ids next)
      → IsValid (apply_rules at_most next s)
  unfolding apply_rules
  apply_rules-IsValid next s h = record { same = refl; unique = to_sorted-Distinct at_most next h }

  unique_ref : (s : Store) → IsValid s → Distinct (ids s.rules_ref)
  unique_ref s v = subst (λ rs. Distinct (ids rs)) (sym v.same) v.unique

  created-IsValid :
      (rule : Option WatchRule) (s : Store) → IsValid s → IsValid (created at_most rule s)
  created-IsValid none s v = v
  created-IsValid (some rule) s v =
      let others = filter (λ r. not (str_eq r.id rule.id)) s.rules_ref in
      apply_rules-IsValid (rule ∷ others) s (
        ground (arith, member-without rule.id rule.id s.rules_ref, eq_refl rule.id),
        without-Distinct rule.id s.rules_ref (unique_ref s v),
      )

  step-IsValid : (e : Event) (s : Store) → IsFair e → IsValid s → IsValid (step at_most e s)
  unfolding step
  step-IsValid load s f v = unfold load_begin in ground arith
  step-IsValid (load_reply (resolved (rules, overview, preference))) s f v =
      unfold load_settle in record { same = refl; unique = f }
  step-IsValid (load_reply (rejected reason)) s f v =
      unfold load_settle in record { same = v.same; unique = v.unique }
  step-IsValid (create_reply (resolved result)) s f v =
      unfold create_rule_settle in created-IsValid result.rule s v
  step-IsValid (create_reply (rejected reason)) s f v = unfold create_rule_settle in v
  step-IsValid (update_reply (resolved updated)) s f v =
      unfold update_rule_settle in
      apply_rules-IsValid (map (λ r. if str_eq r.id updated.id then updated else r) s.rules_ref) s
        (rw (ids-updated updated s.rules_ref) (unique_ref s v))
  step-IsValid (update_reply (rejected reason)) s f v = unfold update_rule_settle in v
  step-IsValid (delete_reply id (resolved u)) s f v =
      unfold delete_rule_settle in
      apply_rules-IsValid (filter (λ r. not (str_eq r.id id)) s.rules_ref) s
        (without-Distinct id s.rules_ref (unique_ref s v))
  step-IsValid (delete_reply id (rejected reason)) s f v = unfold delete_rule_settle in v
  step-IsValid (preference_reply (resolved p)) s f v =
      unfold update_preference_settle in record { same = v.same; unique = v.unique }
  step-IsValid (preference_reply (rejected reason)) s f v = unfold update_preference_settle in v

  run_from-IsValid :
      (es : List Event) (s : Store) → All IsFair es → IsValid s → IsValid (run at_most es s)
  unfolding run
  run_from-IsValid [] s f v = v
  run_from-IsValid (e ∷ es) s (f, fs) v =
      run_from-IsValid es (step at_most e s) fs (step-IsValid e s f v)

  -- From the initial store, after any replies in any order, the rendered list and the ref hold the
  -- same rules, and no identifier twice, if no reply to a load holds one twice.
  pub run-IsValid : (es : List Event) → All IsFair es → IsValid (run at_most es initial)
  run-IsValid es f =
      run_from-IsValid es initial f (unfold initial in record { same = refl; unique = tt })

  -- The overview, where there is one, counts the piles of the rules that are listed.
  abbrev pub IsCounted : Store → Type 0
  IsCounted s =
      (o : WatchOverview)
      → s.overview ≡ some o
      → o.reminder_pile_count ≡ reminder_pile_count s.rules

  apply_rules-IsCounted :
      (next : List WatchRule) (s : Store) → IsCounted (apply_rules at_most next s)
  unfolding apply_rules
  apply_rules-IsCounted next s o e = ground arith

  listed :
      (next : List WatchRule) (s : Store) (k : String)
      → member k (ids (apply_rules at_most next s).rules) ≡ member k (ids next)
  unfolding apply_rules
  listed next s k = member-to_sorted at_most k next

  -- What `create_rule_settle` gives, of the rule in the reply.
  abbrev Lists : Store → WatchRule → Store → Type 0
  Lists s rule s' =
      IsCounted s'
      × ((k : String) → member k (ids s'.rules) ≡ (str_eq rule.id k || member k (ids s.rules)))

  created_lem :
      (rule : WatchRule) (s : Store) → IsValid s → Lists s rule (created at_most (some rule) s)
  created_lem rule s v =
      let others = filter (λ r. not (str_eq r.id rule.id)) s.rules_ref in
      (
        apply_rules-IsCounted (rule ∷ others) s,
        λ k.
            listed (rule ∷ others) s k
            ∙ ground
                (arith, member-without k rule.id s.rules_ref, ap (λ rs. member k (ids rs)) v.same),
      )

  -- Which identifiers are listed after a reply, and that the overview then counts the listed rules:
  -- a created rule is there with those before it, an update changes none, and a deleted one is gone.
  pub replies_lem :
      (s : Store)
      → IsValid s
      → ((result : WatchRuleCreateResult) (rule : WatchRule)
          → result.rule ≡ some rule
          → let s' = (create_rule_settle at_most (resolved result) s).0 in
            IsCounted s'
            × ((k : String)
                → member k (ids s'.rules) ≡ (str_eq rule.id k || member k (ids s.rules))))
        × ((updated : WatchRule)
            → let s' = (update_rule_settle at_most (resolved updated) s).0 in
              IsCounted s' × ((k : String) → member k (ids s'.rules) ≡ member k (ids s.rules)))
        × ((id : String)
            → let s' = (delete_rule_settle at_most id (resolved tt) s).0 in
              IsCounted s'
              × ((k : String)
                  → member k (ids s'.rules) ≡ (member k (ids s.rules) && not (str_eq id k))))
  unfolding create_rule_settle update_rule_settle delete_rule_settle
  replies_lem s v = (
    λ result rule e. subst (λ o. Lists s rule (created at_most o s)) (sym e) (created_lem rule s v),
    λ updated.
        let next = map (λ r. if str_eq r.id updated.id then updated else r) s.rules_ref in
        (
          apply_rules-IsCounted next s,
          λ k.
              listed next s k
              ∙ ap (member k) (ids-updated updated s.rules_ref)
              ∙ ap (λ rs. member k (ids rs)) v.same,
        ),
    λ id.
        let next = filter (λ r. not (str_eq r.id id)) s.rules_ref in
        (
          apply_rules-IsCounted next s,
          λ k.
              listed next s k
              ∙ member-without k id s.rules_ref
              ∙ ap (λ rs. member k (ids rs) && not (str_eq id k)) v.same,
        ),
  )
