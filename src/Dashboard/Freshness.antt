-- ===== src/Dashboard/Freshness.antt =====
-- Snapshots that arrive out of order: from replies and from the stream.
use charge_api.Prelude.{
  ◌≡◌, ◌≢◌, ◌⊎◌, inl, inr, refl, sym, arith, Option, some, String, List, [], ◌∷◌, ℤ, ◌∙◌, ap, ◌≤ℤ◌,
  ≤ℤ-antisymm, All,
}
use mathlib.Core.List.{Memᴰ}
use charge_api.Types.{DashboardSnapshot}
use charge_api.Dashboard.Store.{Store, apply_snapshot}

-- The snapshots of replies and messages, applied in the order of arrival.
module _ (parse_date : String → Option ℤ) where
  unfoldable pub apply_all : List DashboardSnapshot → Store → Store
  apply_all [] s = s
  apply_all (x ∷ xs) s = apply_all xs (apply_snapshot parse_date x s)

  abbrev pub StampIs : DashboardSnapshot → ℤ → Type 0
  StampIs x t = parse_date x.updated_at ≡ some t

  -- Two snapshots with different stamps may come in either order: the result is the same.
  apply_snapshot_comm :
      (x y : DashboardSnapshot) (t u : ℤ) (s : Store)
      → StampIs x t
      → StampIs y u
      → t ≢ u
      → apply_snapshot parse_date x (apply_snapshot parse_date y s)
        ≡ apply_snapshot parse_date y (apply_snapshot parse_date x s)
  unfolding apply_snapshot
  apply_snapshot_comm x y t u s p q ne = rw (p, q) (ground (arith, ≤ℤ-antisymm t u))

  apply_snapshot_mono :
      (x : DashboardSnapshot) (s : Store)
      → s.last_server_stamp ≤ℤ (apply_snapshot parse_date x s).last_server_stamp
  unfolding apply_snapshot
  apply_snapshot_mono x s = ground arith

  apply_all_mono :
      (xs : List DashboardSnapshot) (s : Store)
      → s.last_server_stamp ≤ℤ (apply_all xs s).last_server_stamp
  unfolding apply_all
  apply_all_mono [] s = omega arith
  apply_all_mono (x ∷ xs) s =
      omega (arith, apply_snapshot_mono x s, apply_all_mono xs (apply_snapshot parse_date x s))

  -- No stamp of the snapshots that arrived lies above the store's.
  abbrev pub IsNewest : ℤ → DashboardSnapshot → Type 0
  IsNewest last x = (t : ℤ) → StampIs x t → t ≤ℤ last

  apply_snapshot-IsNewest :
      (x : DashboardSnapshot) (s : Store)
      → IsNewest (apply_snapshot parse_date x s).last_server_stamp x
  unfolding apply_snapshot
  apply_snapshot-IsNewest x s t p = rw p (ground arith)

  IsNewest-mono :
      (last last' : ℤ) (x : DashboardSnapshot) → last ≤ℤ last' → IsNewest last x → IsNewest last' x
  IsNewest-mono last last' x h k t p = let below = k t p in omega arith

  apply_all-IsNewest :
      (xs : List DashboardSnapshot) (s : Store)
      → All (IsNewest (apply_all xs s).last_server_stamp) xs
  unfolding apply_all
  apply_all-IsNewest [] s = tt
  apply_all-IsNewest (x ∷ xs) s =
      let s' = apply_snapshot parse_date x s in
      (
        IsNewest-mono s'.last_server_stamp (apply_all xs s').last_server_stamp x
            (apply_all_mono xs s') (apply_snapshot-IsNewest x s),
        apply_all-IsNewest xs s',
      )

  -- The store shows what it showed, or one of the snapshots with that snapshot's stamp.
  abbrev pub IsShown : Store → List DashboardSnapshot → Store → Type 0
  IsShown s xs s' =
      ((s'.snapshot ≡ s.snapshot) × (s'.last_server_stamp ≡ s.last_server_stamp))
      ⊎ (Memᴰ s'.snapshot xs × StampIs s'.snapshot s'.last_server_stamp)

  apply_snapshot_cases :
      (x : DashboardSnapshot) (t : ℤ) (s : Store)
      → StampIs x t
      → let s' = apply_snapshot parse_date x s in
        ((s'.snapshot ≡ s.snapshot) × (s'.last_server_stamp ≡ s.last_server_stamp))
        ⊎ ((s'.snapshot ≡ x) × (s'.last_server_stamp ≡ t))
  unfolding apply_snapshot
  apply_snapshot_cases x t s p = rw p (ground arith)

  apply_all-IsShown :
      (xs : List DashboardSnapshot) (s : Store)
      → All (λ x. (t : ℤ) × StampIs x t) xs
      → IsShown s xs (apply_all xs s)
  unfolding apply_all
  apply_all-IsShown [] s h = inl (refl, refl)
  apply_all-IsShown (x ∷ xs) s ((t, p), h) =
      let s' = apply_snapshot parse_date x s in
      elim (apply_all-IsShown xs s' h) [
        | inr (found, stamped) ↦ inr (Memᴰ.tail found, stamped)
        | inl (same, last) ↦ elim (apply_snapshot_cases x t s p) [
          | inl (old, stamp) ↦ inl (same ∙ old, last ∙ stamp)
          | inr (new, stamp) ↦ inr (
            Memᴰ.head (same ∙ new),
            ap (λ y. parse_date y.updated_at) (same ∙ new) ∙ p ∙ ap some (sym (last ∙ stamp)),
          )
        ]
      ]

  -- Whatever order snapshots with readable times arrive in, no stamp among them lies above the
  -- store's, which never falls; and the store shows one of them that has exactly that stamp, or still
  -- what it showed before.
  pub apply_all_lem :
      (xs : List DashboardSnapshot) (s : Store)
      → All (λ x. (t : ℤ) × StampIs x t) xs
      → (s.last_server_stamp ≤ℤ (apply_all xs s).last_server_stamp)
        × All (IsNewest (apply_all xs s).last_server_stamp) xs
        × IsShown s xs (apply_all xs s)
  apply_all_lem xs s h = (apply_all_mono xs s, apply_all-IsNewest xs s, apply_all-IsShown xs s h)
