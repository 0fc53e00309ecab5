-- ===== src/Piles/Order.antt =====
-- `move` of frontend/components/workbench/dashboard-workbench.tsx on the identifiers of the piles: two
-- neighbours change places.
use charge_api.Prelude.{
  ℕ, zero, suc, ◌+◌, Option, none, some, String, List, [], ◌∷◌, str_eq, ltb, length, if◌then◌else◌,
}

-- The two directions that the buttons give: -1 and 1.
pub data Direction : Type 0 where
  up down : Direction

abbrev pub after_one : Option ℕ → Option ℕ
after_one none = none
after_one (some i) = some (suc i)

-- `ids.indexOf(id)`; `none` is -1.
unfoldable pub index_of : String → List String → Option ℕ
index_of id [] = none
index_of id (x ∷ xs) = let later = index_of id xs in if str_eq x id then some 0 else after_one later

-- `ids[i]`, and the assignment to it.
unfoldable pub element : ℕ → List String → Option String
element i [] = none
element zero (x ∷ xs) = some x
element (suc i) (x ∷ xs) = element i xs

unfoldable pub assign : ℕ → String → List String → List String
assign i a [] = []
assign zero a (x ∷ xs) = a ∷ xs
assign (suc i) a (x ∷ xs) = x ∷ assign i a xs

-- `index + direction`, unless it is no index.
abbrev pub next_of : Direction → ℕ → ℕ → Option ℕ
next_of up zero n = none
next_of up (suc i) n = some i
next_of down i n = if ltb (i + 1) n then some (i + 1) else none

abbrev pub swapped : (index next : ℕ) → Option String → Option String → List String → List String
swapped index next (some target) (some other) ids = assign next target (assign index other ids)
swapped index next _ _ ids = ids

abbrev pub moved_at : Option ℕ → (index : ℕ) → List String → Option (List String)
moved_at none index ids = none
moved_at (some next) index ids =
    some (swapped index next (element index ids) (element next ids) ids)

abbrev pub moved_from : Option ℕ → Direction → List String → Option (List String)
moved_from none direction ids = none
moved_from (some index) direction ids = moved_at (next_of direction index (length ids)) index ids

-- The identifiers as they are sent; `none` where nothing is.
unfoldable pub moved : Direction → String → List String → Option (List String)
unfolding index_of element assign
moved direction id ids = moved_from (index_of id ids) direction ids
