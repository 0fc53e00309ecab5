-- ===== src/Piles/Moves.antt =====
-- What a move sends: the list with two neighbours in each other's places.
use charge_api.Prelude.{
  ℕ, suc, ◌+◌, ◌≡◌, refl, ap, arith, false, none, some, String, List, [], ◌∷◌, ◌++◌, eq_refl,
  length, length-append, member,
}
use charge_api.Piles.Order.{up, down, index_of, element, assign, next_of, moved, moved_at}

index_of_later :
    (a : String) (before after : List String)
    → member a before ≡ false
    → index_of a (before ++ (a ∷ after)) ≡ some (length before)
unfolding index_of
index_of_later a [] after h = rw (eq_refl a) refl
index_of_later a (x ∷ before) after h = ground (arith, h, index_of_later a before after)

element_at :
    (a : String) (before after : List String)
    → element (length before) (before ++ (a ∷ after)) ≡ some a
unfolding element
element_at a [] after = refl
element_at a (x ∷ before) after = element_at a before after

element_next :
    (a b : String) (before after : List String)
    → element (suc (length before)) (before ++ (a ∷ b ∷ after)) ≡ some b
unfolding element
element_next a b [] after = refl
element_next a b (x ∷ before) after = element_next a b before after

assign_at :
    (a c : String) (before after : List String)
    → assign (length before) c (before ++ (a ∷ after)) ≡ before ++ (c ∷ after)
unfolding assign
assign_at a c [] after = refl
assign_at a c (x ∷ before) after = ap (λ xs. x ∷ xs) (assign_at a c before after)

assign_next :
    (a b c : String) (before after : List String)
    → assign (suc (length before)) c (before ++ (a ∷ b ∷ after)) ≡ before ++ (a ∷ c ∷ after)
unfolding assign
assign_next a b c [] after = refl
assign_next a b c (x ∷ before) after = ap (λ xs. x ∷ xs) (assign_next a b c before after)

index_of_second :
    (a b : String) (before after : List String)
    → member b (before ++ (a ∷ [])) ≡ false
    → index_of b (before ++ (a ∷ b ∷ after)) ≡ some (suc (length before))
unfolding index_of
index_of_second a b [] after h = ground (arith, h, eq_refl b)
index_of_second a b (x ∷ before) after h = ground (arith, h, index_of_second a b before after)

next_lem : (n : ℕ) (rest : ℕ) → next_of down n (n + suc (suc rest)) ≡ some (suc n)
next_lem n rest = ground arith

last_lem : (n : ℕ) → next_of down n (n + 1) ≡ none
last_lem n = ground arith

swapped_down :
    (a b : String) (before after : List String)
    → let ids = before ++ (a ∷ b ∷ after) in
      moved_at (some (suc (length before))) (length before) ids ≡ some (before ++ (b ∷ a ∷ after))
swapped_down a b before after =
    rw
      (
        element_at a before (b ∷ after),
        element_next a b before after,
        assign_at a b before (b ∷ after),
        assign_next b b a before after,
      )
      refl

swapped_up :
    (a b : String) (before after : List String)
    → let ids = before ++ (a ∷ b ∷ after) in
      moved_at (some (length before)) (suc (length before)) ids ≡ some (before ++ (b ∷ a ∷ after))
swapped_up a b before after =
    rw
      (
        element_at a before (b ∷ after),
        element_next a b before after,
        assign_next a b a before after,
        assign_at a b before (a ∷ after),
      )
      refl

-- Of two neighbours, the second one moved up, the first one moved down: either way the list is sent with the
-- two in each other's places and all else as it was. The first of all moves no further up and the last of
-- all no further down: nothing is sent. Condition: no identifier stands twice where it is looked for.
pub moved_lem :
    (a b : String) (before after : List String)
    → member a before ≡ false
    → member b (before ++ (a ∷ [])) ≡ false
    → (moved down a (before ++ (a ∷ b ∷ after)) ≡ some (before ++ (b ∷ a ∷ after)))
      × (moved up b (before ++ (a ∷ b ∷ after)) ≡ some (before ++ (b ∷ a ∷ after)))
      × (moved up a (a ∷ after) ≡ none)
      × (moved down a (before ++ (a ∷ [])) ≡ none)
unfolding moved
moved_lem a b before after h k = (
  rw
      (
        index_of_later a before (b ∷ after) h,
        length-append before (a ∷ b ∷ after),
        next_lem (length before) (length after),
      )
      (swapped_down a b before after),
  rw (index_of_second a b before after k) (swapped_up a b before after),
  rw (index_of_later a [] after refl) refl,
  rw (index_of_later a before [] h, length-append before (a ∷ []), last_lem (length before)) refl,
)
