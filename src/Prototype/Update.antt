-- ===== src/Prototype/Update.antt =====
-- How the recipes of the preview write into a list: the element that `find` gives is changed in place, or
-- every element that `filter` keeps; `splice` takes one element out and puts it elsewhere.
use charge_api.Prelude.{
  ℕ, zero, suc, ◌≡◌, arith, Bool, true, Option, none, some, List, [], ◌∷◌, map, filter, All,
  if◌then◌else◌,
}

module _ {A : Type 0} where
  -- `const x = xs.find(p); if (x) …`.
  unfoldable pub update_first : (A → Bool) → (A → A) → List A → List A
  update_first p f [] = []
  update_first p f (x ∷ xs) = let rest = update_first p f xs in if p x then f x ∷ xs else x ∷ rest

  -- `xs.filter(p).forEach(…)`.
  unfoldable pub update_all : (A → Bool) → (A → A) → List A → List A
  update_all p f [] = []
  update_all p f (x ∷ xs) = (if p x then f x else x) ∷ update_all p f xs

  unfoldable pub find : (A → Bool) → List A → Option A
  find p [] = none
  find p (x ∷ xs) = let rest = find p xs in if p x then some x else rest

  -- `xs.splice(i, 1)`, the list it leaves, and `xs.splice(i, 0, x)`.
  unfoldable pub element_at : ℕ → List A → Option A
  element_at i [] = none
  element_at zero (x ∷ xs) = some x
  element_at (suc i) (x ∷ xs) = element_at i xs

  unfoldable pub without : ℕ → List A → List A
  without i [] = []
  without zero (x ∷ xs) = xs
  without (suc i) (x ∷ xs) = x ∷ without i xs

  unfoldable pub insert_at : ℕ → A → List A → List A
  insert_at i a [] = a ∷ []
  insert_at zero a (x ∷ xs) = a ∷ x ∷ xs
  insert_at (suc i) a (x ∷ xs) = x ∷ insert_at i a xs

  -- What a change keeps of the elements it is made to, the list keeps.
  pub update_first-All :
      (P : A → Type 0) (p : A → Bool) (f : A → A)
      → ((x : A) → p x ≡ true → P x → P (f x))
      → (xs : List A) → All P xs
      → All P (update_first p f xs)
  unfolding update_first
  update_first-All P p f keep [] h = tt
  update_first-All P p f keep (x ∷ xs) (h, hs) =
      ground (arith, keep x, h, hs, update_first-All P p f keep xs hs)

  pub update_all-All :
      (P : A → Type 0) (p : A → Bool) (f : A → A)
      → ((x : A) → p x ≡ true → P x → P (f x))
      → (xs : List A) → All P xs
      → All P (update_all p f xs)
  unfolding update_all
  update_all-All P p f keep [] h = tt
  update_all-All P p f keep (x ∷ xs) (h, hs) =
      ground (arith, keep x, h, hs, update_all-All P p f keep xs hs)

  pub find-All :
      (P : A → Type 0) (p : A → Bool) (xs : List A) (x : A) → All P xs → find p xs ≡ some x → P x
  unfolding find
  find-All P p [] x h q = absurd cc
  find-All P p (y ∷ xs) x (h, hs) q = ground (arith, find-All P p xs x hs)

  pub element_at-All :
      (P : A → Type 0) (i : ℕ) (xs : List A) (x : A) → All P xs → element_at i xs ≡ some x → P x
  unfolding element_at
  element_at-All P i [] x h q = absurd cc
  element_at-All P zero (y ∷ xs) x (h, hs) q = ground (arith, h)
  element_at-All P (suc i) (y ∷ xs) x (h, hs) q = element_at-All P i xs x hs q

  pub without-All : (P : A → Type 0) (i : ℕ) (xs : List A) → All P xs → All P (without i xs)
  unfolding without
  without-All P i [] h = tt
  without-All P zero (x ∷ xs) (h, hs) = hs
  without-All P (suc i) (x ∷ xs) (h, hs) = (h, without-All P i xs hs)

  pub insert_at-All :
      (P : A → Type 0) (i : ℕ) (a : A) (xs : List A) → P a → All P xs → All P (insert_at i a xs)
  unfolding insert_at
  insert_at-All P i a [] k h = (k, tt)
  insert_at-All P zero a (x ∷ xs) k (h, hs) = (k, (h, hs))
  insert_at-All P (suc i) a (x ∷ xs) k (h, hs) = (h, insert_at-All P i a xs k hs)

  pub kept-All : (P : A → Type 0) (p : A → Bool) (xs : List A) → All P xs → All P (filter p xs)
  kept-All P p [] h = tt
  kept-All P p (x ∷ xs) (h, hs) = ground (arith, h, kept-All P p xs hs)

  pub map-All :
      (P : A → Type 0) (f : A → A)
      → ((x : A) → P x → P (f x))
      → (xs : List A) → All P xs
      → All P (map f xs)
  map-All P f keep [] h = tt
  map-All P f keep (x ∷ xs) (h, hs) = (keep x h, map-All P f keep xs hs)
