-- ===== src/Prototype/Moves.antt =====
-- A pile of the preview is moved by one place: it is taken out of the list and put back (`splice`).
use charge_api.Prelude.{
  ℕ, zero, suc, ◌+◌, ◌-◌, ◌≡◌, refl, ap, ◌∙◌, arith, Option, some, String, List, [], ◌∷◌, ◌++◌, map,
  length,
}
use charge_api.Types.{Pile}
use charge_api.Prototype.Model.{PrototypeData}
use charge_api.Prototype.Update.{element_at, without, insert_at}
use charge_api.Prototype.Change.{act, move_up, move_down, move_pile, move_found, renumber_from}

abbrev ids : List Pile → List String
ids = map (λ (p : Pile). p.id)

abbrev positions : List Pile → List (Option ℕ)
positions = map (λ (p : Pile). p.sort_order)

abbrev from_on : ℕ → ℕ → List (Option ℕ)
from_on i zero = []
from_on i (suc n) = some i ∷ from_on (i + 1) n

ids_renumbered : (i : ℕ) (piles : List Pile) → ids (renumber_from i piles) ≡ ids piles
ids_renumbered i [] = refl
ids_renumbered i (p ∷ piles) = ap (λ xs. p.id ∷ xs) (ids_renumbered (i + 1) piles)

positions_renumbered :
    (i : ℕ) (piles : List Pile) → positions (renumber_from i piles) ≡ from_on i (length piles)
positions_renumbered i [] = refl
positions_renumbered i (p ∷ piles) = ap (λ xs. some i ∷ xs) (positions_renumbered (i + 1) piles)

ids-append : (front back : List Pile) → ids (front ++ back) ≡ ids front ++ ids back
ids-append [] back = refl
ids-append (p ∷ front) back = ap (λ xs. p.id ∷ xs) (ids-append front back)

element_lem :
    (front back : List Pile) (p : Pile) → element_at (length front) (front ++ (p ∷ back)) ≡ some p
unfolding element_at
element_lem [] back p = refl
element_lem (x ∷ front) back p = element_lem front back p

next_lem :
    (front back : List Pile) (p q : Pile)
    → element_at (suc (length front)) (front ++ (p ∷ q ∷ back)) ≡ some q
unfolding element_at
next_lem [] back p q = refl
next_lem (x ∷ front) back p q = next_lem front back p q

without_lem :
    (front back : List Pile) (p : Pile)
    → without (length front) (front ++ (p ∷ back)) ≡ front ++ back
unfolding without
without_lem [] back p = refl
without_lem (x ∷ front) back p = ap (λ xs. x ∷ xs) (without_lem front back p)

without_next :
    (front back : List Pile) (p q : Pile)
    → without (suc (length front)) (front ++ (p ∷ q ∷ back)) ≡ front ++ (p ∷ back)
unfolding without
without_next [] back p q = refl
without_next (x ∷ front) back p q = ap (λ xs. x ∷ xs) (without_next front back p q)

insert_lem :
    (front back : List Pile) (p q : Pile)
    → insert_at (length front) q (front ++ (p ∷ back)) ≡ front ++ (q ∷ p ∷ back)
unfolding insert_at
insert_lem [] back p q = refl
insert_lem (x ∷ front) back p q = ap (λ xs. x ∷ xs) (insert_lem front back p q)

insert_next :
    (front back : List Pile) (p q : Pile)
    → insert_at (suc (length front)) p (front ++ (q ∷ back)) ≡ front ++ (q ∷ p ∷ back)
unfolding insert_at
insert_next [] [] p q = refl
insert_next [] (x ∷ back) p q = refl
insert_next (x ∷ front) back p q = ap (λ xs. x ∷ xs) (insert_next front back p q)

-- The list after a move, from its parts.
move_parts :
    (from to : ℕ) (piles rest after : List Pile) (p : Pile)
    → element_at from piles ≡ some p
    → without from piles ≡ rest
    → insert_at to p rest ≡ after
    → move_pile from to piles ≡ renumber_from 0 after
unfolding move_pile
move_parts from to piles rest after p q r e =
    ap (λ o. move_found o from to piles) q
    ∙ ap (λ xs. renumber_from 0 (insert_at to p xs)) r
    ∙ ap (renumber_from 0) e

abbrev pub IsExchanged : (front back : List Pile) (p q : Pile) → List Pile → Type 0
IsExchanged front back p q piles =
    (ids piles ≡ ids front ++ (q.id ∷ p.id ∷ ids back))
    × (positions piles ≡ from_on 0 (length (front ++ (q ∷ p ∷ back))))

exchanged :
    (front back : List Pile) (p q : Pile) (piles : List Pile)
    → piles ≡ renumber_from 0 (front ++ (q ∷ p ∷ back))
    → IsExchanged front back p q piles
exchanged front back p q piles e = rw (e) (
  ids_renumbered 0 (front ++ (q ∷ p ∷ back)) ∙ ids-append front (q ∷ p ∷ back),
  positions_renumbered 0 (front ++ (q ∷ p ∷ back)),
)

-- Moving a pile down, and moving the next one up, both exchange the two and leave the order of the others;
-- and the positions are numbered from 0 in the new order.
pub move_lem :
    (stamp : ℕ) (d : PrototypeData) (front back : List Pile) (p q : Pile)
    → d.piles ≡ front ++ (p ∷ q ∷ back)
    → IsExchanged front back p q (act stamp (move_down (length front)) d).piles
      × IsExchanged front back p q (act stamp (move_up (length front + 1)) d).piles
unfolding act
move_lem stamp d front back p q e =
    let n = length front in
    (
      exchanged front back p q _ (
          ap (move_pile n (n + 1)) e
          ∙ ap (λ to. move_pile n to (front ++ (p ∷ q ∷ back))) (omega arith)
          ∙ move_parts n (suc n) (front ++ (p ∷ q ∷ back)) (front ++ (q ∷ back))
              (front ++ (q ∷ p ∷ back)) p (element_lem front (q ∷ back) p)
              (without_lem front (q ∷ back) p) (insert_next front back p q)),
      exchanged front back p q _ (
          ap (move_pile (n + 1) (n + 1 - 1)) e
          ∙ ap (λ to. move_pile (n + 1) to (front ++ (p ∷ q ∷ back))) (omega arith)
          ∙ ap (λ from. move_pile from n (front ++ (p ∷ q ∷ back))) (omega arith)
          ∙ move_parts (suc n) n (front ++ (p ∷ q ∷ back)) (front ++ (p ∷ back))
              (front ++ (q ∷ p ∷ back)) q (next_lem front back p q) (without_next front back p q)
              (insert_lem front back p q)),
    )
