-- ===== src/Watch/Store.antt =====
-- The state of `WatchProvider` (frontend/lib/watch-context.tsx) and its callbacks, each from the reply
-- of the server; `load` has a part before the wait too.
use charge_api.Prelude.{
  ℕ, Bool, true, false, not, ◌&&◌, Option, none, some, String, List, [], ◌∷◌, ◌++◌, map, filter,
  length, str_eq, is_truthy, member, if◌then◌else◌,
}
use charge_api.Api.{
  NotificationPreference, WatchOverview, WatchRule, WatchRuleCreateResult, WatchRuleMode, temporary,
  recurring,
}
use charge_api.Http.{Settled, resolved, rejected, message_of}

pub record Store : Type 0 where
  pub rules : List WatchRule
  pub overview : Option WatchOverview
  pub preference : Option NotificationPreference
  pub loading : Bool
  pub loaded : Bool
  pub error : Option String
  pub rules_ref : List WatchRule
  -- `loadPromiseRef`: a load is on its way.
  pub load_promise : Bool

unfoldable pub initial : Store
initial = record {
  rules = [];
  overview = none;
  preference = none;
  loading = false;
  loaded = false;
  error = none;
  rules_ref = [];
  load_promise = false;
}

abbrev is_temporary : WatchRuleMode → Bool
is_temporary temporary = true
is_temporary recurring = false

-- The rules that `reminderPileCount` looks at.
abbrev pub is_active : WatchRule → Bool
is_active rule = is_temporary rule.mode && rule.enabled && not (is_truthy rule.completed_at)

-- `new Set(ids)`, in order of insertion: each text that is not there yet goes to the end.
unfoldable pub set_from : List String → List String → List String
set_from seen [] = seen
set_from seen (k ∷ ks) = set_from (if member k seen then seen else seen ++ (k ∷ [])) ks

unfoldable pub reminder_devices : List WatchRule → List String
unfolding set_from
reminder_devices rules = set_from [] (map (λ rule. rule.device_id) (filter is_active rules))

unfoldable pub reminder_pile_count : List WatchRule → ℕ
unfolding reminder_devices
reminder_pile_count rules = length (reminder_devices rules)

-- `localeCompare` belongs to the host: `at_most a b` says that `a.localeCompare(b)` is at most 0.
module _ (at_most : String → String → Bool) where
  -- The comparator of the sort puts `left` first if `right.updatedAt` is at most `left.updatedAt`.
  abbrev pub comes_first : WatchRule → WatchRule → Bool
  comes_first left right = at_most right.updated_at left.updated_at

  -- `toSorted` is stable: a rule goes before those of its own time that follow it.
  unfoldable pub insert_rule : WatchRule → List WatchRule → List WatchRule
  insert_rule rule [] = rule ∷ []
  insert_rule rule (r ∷ rs) = if comes_first rule r then rule ∷ r ∷ rs else r ∷ insert_rule rule rs

  unfoldable pub to_sorted : List WatchRule → List WatchRule
  to_sorted [] = []
  to_sorted (r ∷ rs) = insert_rule r (to_sorted rs)

  abbrev pub recount : List WatchRule → Option WatchOverview → Option WatchOverview
  recount sorted none = none
  recount sorted (some current) =
      some (record current { reminder_pile_count = reminder_pile_count sorted })

  unfoldable pub apply_rules : List WatchRule → Store → Store
  apply_rules next s =
      let sorted = to_sorted next in
      record s { rules_ref = sorted; rules = sorted; overview = recount sorted s.overview }

  abbrev pub created : Option WatchRule → Store → Store
  created none s = s
  created (some rule) s = apply_rules (rule ∷ filter (λ r. not (str_eq r.id rule.id)) s.rules_ref) s

  unfoldable pub create_rule_settle :
      Settled WatchRuleCreateResult → Store → Store × Settled WatchRuleCreateResult
  create_rule_settle (resolved result) s = (created result.rule s, resolved result)
  create_rule_settle (rejected reason) s = (s, rejected reason)

  unfoldable pub update_rule_settle : Settled WatchRule → Store → Store × Settled WatchRule
  update_rule_settle (resolved updated) s = (
    apply_rules (map (λ r. if str_eq r.id updated.id then updated else r) s.rules_ref) s,
    resolved updated,
  )
  update_rule_settle (rejected reason) s = (s, rejected reason)

  unfoldable pub delete_rule_settle :
      String → Settled (Unit {0}) → Store → Store × Settled (Unit {0})
  delete_rule_settle rule_id (resolved u) s =
      (apply_rules (filter (λ r. not (str_eq r.id rule_id)) s.rules_ref) s, resolved u)
  delete_rule_settle rule_id (rejected reason) s = (s, rejected reason)

-- `load`, up to the requests: whether any are sent. A load on its way is shared.
unfoldable pub load_begin : Store → Store × Bool
load_begin s =
    if s.load_promise
    then (s, false)
    else (record s { loading = true; error = none; load_promise = true }, true)

-- `load`, from the three replies; the first one that is rejected rejects the load.
unfoldable pub load_settle :
    Settled (List WatchRule × WatchOverview × NotificationPreference)
    → Store
    → Store × Settled (Unit {0})
load_settle (resolved (next_rules, next_overview, next_preference)) s = (
  record s {
    rules_ref = next_rules;
    rules = next_rules;
    overview = some next_overview;
    preference = some next_preference;
    loaded = true;
    loading = false;
    load_promise = false;
  },
  resolved tt,
)
load_settle (rejected reason) s = (
  record s { error = some (message_of reason); loading = false; load_promise = false },
  rejected reason,
)

unfoldable pub update_preference_settle :
    Settled NotificationPreference → Store → Store × Settled NotificationPreference
update_preference_settle (resolved updated) s =
    (record s { preference = some updated }, resolved updated)
update_preference_settle (rejected reason) s = (s, rejected reason)
