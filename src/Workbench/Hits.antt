-- ===== src/Workbench/Hits.antt =====
-- What the searches and filters of the piles select.
use charge_api.Prelude.{
  ℕ, ◌+◌, ◌≡◌, ◌≢◌, inl, inr, refl, arith, true, false, ◌&&◌, String, List, [], ◌∷◌, ◌++◌, filter,
  any, All, length, trim, ◌==◌, Bool-cases,
}
use charge_api.Types.{PortStatus, idle, in_use, offline, Port, Pile}
use charge_api.Workbench.Selection.{
  only_idle, Counts, bump, count_from, port_counts, same_status, Hit, is_empty, port_ids,
  keeps_port, select_pile, select_piles, select_workbench_piles,
}

-- How many of the ports have a status.
abbrev pub having : PortStatus → List Port → ℕ
having status ports = length (filter (λ p. same_status p.status status) ports)

count_from_lem :
    (c : Counts) (ports : List Port)
    → ((count_from c ports).idle ≡ c.idle + having idle ports)
      × ((count_from c ports).in_use ≡ c.in_use + having in_use ports)
      × ((count_from c ports).offline ≡ c.offline + having offline ports)
unfolding count_from
count_from_lem c [] = (omega arith, omega arith, omega arith)
count_from_lem c (p ∷ ports) = ground (arith, count_from_lem (bump p.status c) ports)

total :
    (ports : List Port)
    → having idle ports + having in_use ports + having offline ports ≡ length ports
total [] = refl
total (p ∷ ports) = ground (arith, total ports)

-- Each count is the number of the pile's ports in that status, and the three add up to all of them.
port_counts_lem :
    (pile : Pile)
    → let c = port_counts pile in
      (c.idle ≡ having idle pile.ports)
      × (c.in_use ≡ having in_use pile.ports)
      × (c.offline ≡ having offline pile.ports)
      × (c.idle + c.in_use + c.offline ≡ length pile.ports)
unfolding port_counts
port_counts_lem pile =
    let (a, b, c) = count_from_lem (record { idle = 0; in_use = 0; offline = 0 }) pile.ports in
    (omega arith, omega arith, omega arith, omega (arith, total pile.ports))

module _ {ℓ} (P : Hit → Type ℓ) where
  All-append_hits : (xs ys : List Hit) → All P xs → All P ys → All P (xs ++ ys)
  All-append_hits [] ys h k = k
  All-append_hits (x ∷ xs) ys (p, h) k = (p, All-append_hits xs ys h k)

-- One of the ports with this number is idle.
abbrev pub IsIdleIn : List Port → ℕ → Type 0
IsIdleIn ports id = any (λ p. p.id == id && same_status p.status idle) ports ≡ true

-- A hit of the idle filter: its pile is online, it names a port, and only idle ports of that pile.
abbrev pub IsIdleHit : Hit → Type 0
IsIdleHit hit =
    (hit.pile.online ≡ true) × (hit.port_ids ≢ []) × All (IsIdleIn hit.pile.ports) hit.port_ids

idle_later :
    (p : Port) (ports : List Port) (ids : List ℕ)
    → All (IsIdleIn ports) ids
    → All (IsIdleIn (p ∷ ports)) ids
idle_later p ports [] h = tt
idle_later p ports (id ∷ ids) (here, h) = (ground arith, idle_later p ports ids h)

module _ (to_lower_case : String → String) where
  kept_online :
      (query : String) (pile : Pile) (ports : List Port)
      → is_empty (filter (keeps_port to_lower_case query only_idle pile) ports) ≡ false
      → pile.online ≡ true
  unfolding keeps_port
  kept_online query pile [] h = cc
  kept_online query pile (p ∷ ports) h = ground (arith, kept_online query pile ports)

  keeps-idle :
      (query : String) (pile : Pile) (p : Port)
      → keeps_port to_lower_case query only_idle pile p ≡ true
      → same_status p.status idle ≡ true
  unfolding keeps_port
  keeps-idle query pile p h = ground arith

  kept_idle :
      (query : String) (pile : Pile) (ports : List Port)
      → All
          (IsIdleIn ports)
          (port_ids (filter (keeps_port to_lower_case query only_idle pile) ports))
  kept_idle query pile [] = tt
  kept_idle query pile (p ∷ ports) =
      let later = idle_later p ports _ (kept_idle query pile ports) in
      elim (Bool-cases (keeps_port to_lower_case query only_idle pile p)) [
        | inl kept ↦ rw kept (ground (arith, keeps-idle query pile p kept), later)
        | inr dropped ↦ rw dropped later
      ]

  not_empty : (ports : List Port) → is_empty ports ≡ false → port_ids ports ≢ []
  not_empty [] h = cc
  not_empty (p ∷ ports) h = λ e. cc

  select_pile-IsIdleHit :
      (query : String) (pile : Pile)
      → All IsIdleHit (select_pile to_lower_case query only_idle pile)
  unfolding select_pile
  select_pile-IsIdleHit query pile =
      let ports = filter (keeps_port to_lower_case query only_idle pile) pile.ports in
      elim (Bool-cases (is_empty ports)) [
        | inl none_left ↦ ground arith
        | inr some_left ↦ rw some_left (
          (
            kept_online query pile pile.ports some_left,
            not_empty ports some_left,
            kept_idle query pile pile.ports,
          ),
          tt,
        )
      ]

  select_piles-IsIdleHit :
      (query : String) (piles : List Pile)
      → All IsIdleHit (select_piles to_lower_case query only_idle piles)
  unfolding select_piles
  select_piles-IsIdleHit query [] = tt
  select_piles-IsIdleHit query (pile ∷ piles) =
      All-append_hits IsIdleHit (select_pile to_lower_case query only_idle pile) _
        (select_pile-IsIdleHit query pile) (select_piles-IsIdleHit query piles)

  -- Whatever is searched for, under the idle filter every hit is an online pile with at least one port
  -- named, and every port named is idle.
  select_workbench_piles-IsIdleHit :
      (piles : List Pile) (search : String)
      → All IsIdleHit (select_workbench_piles to_lower_case piles search only_idle)
  unfolding select_workbench_piles
  select_workbench_piles-IsIdleHit piles search =
      select_piles-IsIdleHit (to_lower_case (trim search)) piles
