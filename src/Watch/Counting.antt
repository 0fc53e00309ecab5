-- ===== src/Watch/Counting.antt =====
-- The number of piles with an active reminder.
use charge_api.Prelude.{
  ◌≡◌, refl, arith, false, ◌&&◌, ◌||◌, List, [], ◌∷◌, ◌++◌, String, map, filter, length, any,
  member, Distinct, str_eq, eq_iff, ◌∙◌, if◌then◌else◌,
}
use charge_api.Api.{WatchRule}
use charge_api.Watch.Store.{is_active, set_from, reminder_devices, reminder_pile_count}

member-concat :
    (k j : String) (xs : List String) → member k (xs ++ (j ∷ [])) ≡ (member k xs || str_eq j k)
member-concat k j [] = ground arith
member-concat k j (x ∷ xs) = ground (arith, member-concat k j xs)

concat-Distinct :
    (j : String) (xs : List String) → member j xs ≡ false → Distinct xs → Distinct (xs ++ (j ∷ []))
concat-Distinct j [] m h = (refl, tt)
concat-Distinct j (x ∷ xs) m (new, h) =
    ground (arith, member-concat x j xs, concat-Distinct j xs, eq_iff j x, eq_iff x j)

set_from-Distinct : (seen ks : List String) → Distinct seen → Distinct (set_from seen ks)
unfolding set_from
set_from-Distinct seen [] h = h
set_from-Distinct seen (k ∷ ks) h =
    set_from-Distinct (if member k seen then seen else seen ++ (k ∷ [])) ks
      (ground (arith, concat-Distinct k seen))

member-set_from :
    (k : String) (seen ks : List String)
    → member k (set_from seen ks) ≡ (member k seen || member k ks)
unfolding set_from
member-set_from k seen [] = ground arith
member-set_from k seen (j ∷ ks) = ground (
  arith,
  member-set_from k (if member j seen then seen else seen ++ (j ∷ [])) ks,
  member-concat k j seen,
  eq_iff j k,
)

member-active :
    (d : String) (rules : List WatchRule)
    → member d (map (λ rule. rule.device_id) (filter is_active rules))
      ≡ any (λ rule. is_active rule && str_eq rule.device_id d) rules
member-active d [] = refl
member-active d (r ∷ rs) = ground (arith, member-active d rs)

-- `reminderPileCount` counts each device once that has an active temporary rule, and no other.
reminder_pile_count_lem :
    (rules : List WatchRule)
    → (reminder_pile_count rules ≡ length (reminder_devices rules))
      × Distinct (reminder_devices rules)
      × ((d : String)
          → member d (reminder_devices rules)
            ≡ any (λ rule. is_active rule && str_eq rule.device_id d) rules)
unfolding reminder_pile_count
reminder_pile_count_lem rules =
    let devices = map (λ rule. rule.device_id) (filter is_active rules) in
    (
      refl,
      set_from-Distinct [] devices tt,
      λ d. member-set_from d [] devices ∙ member-active d rules,
    )
