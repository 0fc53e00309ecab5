-- ===== src/Piles/Tests.antt =====
-- Two of three piles change places, from either side.
use charge_api.Prelude.{◌≡◌, refl, none, some, String, List, [], ◌∷◌}
use charge_api.Piles.Order.{up, down, moved}
use charge_api.Piles.Moves.{moved_lem}

abbrev first_two : List String
first_two = "a" ∷ "b" ∷ []

moved_lem_example :
    (moved down "b" ("a" ∷ "b" ∷ "c" ∷ []) ≡ some ("a" ∷ "c" ∷ "b" ∷ []))
    × (moved up "c" ("a" ∷ "b" ∷ "c" ∷ []) ≡ some ("a" ∷ "c" ∷ "b" ∷ []))
    × (moved up "b" ("b" ∷ []) ≡ none)
    × (moved down "b" first_two ≡ none)
moved_lem_example = moved_lem "b" "c" ("a" ∷ []) [] refl refl
