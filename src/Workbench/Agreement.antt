-- ===== src/Workbench/Agreement.antt =====
-- The two searches of the client, frontend/lib/workbench.ts and frontend/lib/dashboard-filters.ts, side by
-- side.
use charge_api.Prelude.{
  ◌≡◌, ◌⊎◌, refl, arith, Bool, true, false, ◌&&◌, ◌||◌, String, List, [], ◌∷◌, filter, All, str_eq,
  trim, is_some, eq_iff, if◌then◌else◌,
}
use charge_api.Types.{Port, Pile}
use charge_api.Workbench.Selection.{
  PortFilter, wanted_by, has_status, port_query, is_number, Hit, is_empty, port_ids, matches_pile,
  keeps_port, select_pile, select_piles, select_workbench_piles, keeps_listed, filter_pile,
  filter_from, filter_piles,
}

-- A query that is empty or a port's number looks at no text of a pile.
abbrev pub IsTextless : String → Type 0
IsTextless query = (query ≡ "") ⊎ (is_some (port_query query) ≡ true)

-- The pile is online and has a port.
abbrev pub IsLive : Pile → Type 0
IsLive pile = (pile.online ≡ true) × (is_empty pile.ports ≡ false)

-- The ports that `filterPiles` keeps, where no text is looked at.
abbrev keeps_plain : String → PortFilter → Port → Bool
keeps_plain query f port =
    (str_eq query "" || is_number (port_query query) port.id)
    && has_status (wanted_by f) port.status

-- `toLocaleLowerCase` and `toLowerCase` of the host.
module _ (to_locale_lower_case to_lower_case : String → String) where
  matches_textless :
      (query : String) (pile : Pile)
      → IsTextless query
      → matches_pile to_locale_lower_case query pile ≡ str_eq query ""
  unfolding matches_pile
  matches_textless query pile h = ground (arith, eq_iff query "")

  keeps_same :
      (query : String) (f : PortFilter) (pile : Pile) (ports : List Port)
      → IsTextless query
      → pile.online ≡ true
      → filter (keeps_port to_locale_lower_case query f pile) ports
        ≡ filter (keeps_plain query f) ports
  unfolding keeps_port
  keeps_same query f pile [] t h = refl
  keeps_same query f pile (p ∷ ports) t h =
      ground (arith, keeps_same query f pile ports t h, matches_textless query pile t)

  listed_same :
      (query : String) (f : PortFilter) (pile : Pile) (ports : List Port)
      → IsTextless query
      → filter (keeps_listed to_lower_case query f pile) ports ≡ filter (keeps_plain query f) ports
  unfolding keeps_listed
  listed_same query f pile [] t = refl
  listed_same query f pile (p ∷ ports) t =
      ground (arith, listed_same query f pile ports t, eq_iff query "")

  abbrev plain : String → PortFilter → Pile → List Hit
  plain query f pile =
      if is_empty (filter (keeps_plain query f) pile.ports)
      then []
      else record { pile = pile; port_ids = port_ids (filter (keeps_plain query f) pile.ports) }
        ∷ []

  select_pile-plain :
      (query : String) (f : PortFilter) (pile : Pile)
      → IsTextless query
      → IsLive pile
      → select_pile to_locale_lower_case query f pile ≡ plain query f pile
  unfolding select_pile
  select_pile-plain query f pile t (online, ports) =
      rw (keeps_same query f pile pile.ports t online) (ground arith)

  filter_pile-plain :
      (query : String) (f : PortFilter) (pile : Pile)
      → IsTextless query
      → filter_pile to_lower_case query f pile ≡ plain query f pile
  unfolding filter_pile
  filter_pile-plain query f pile t = rw (listed_same query f pile pile.ports t)

  select_piles_plain :
      (query : String) (f : PortFilter) (piles : List Pile)
      → IsTextless query
      → All IsLive piles
      → select_piles to_locale_lower_case query f piles ≡ filter_from to_lower_case query f piles
  unfolding select_piles filter_from
  select_piles_plain query f [] t h = refl
  select_piles_plain query f (pile ∷ piles) t (live, h) = rw (
    select_pile-plain query f pile t live,
    filter_pile-plain query f pile t,
    select_piles_plain query f piles t h,
  )

  -- Where every pile is online and has a port, and the search is blank or a port's number, the two
  -- searches give the same hits, under every filter. Condition: the host has one lower case for the
  -- search with and without its locale.
  pub select_workbench_piles-filter_piles :
      (piles : List Pile) (search : String) (f : PortFilter)
      → to_locale_lower_case (trim search) ≡ to_lower_case (trim search)
      → IsTextless (to_lower_case (trim search))
      → All IsLive piles
      → select_workbench_piles to_locale_lower_case piles search f
        ≡ filter_piles to_lower_case piles search f
  unfolding select_workbench_piles filter_piles
  select_workbench_piles-filter_piles piles search f e t h =
      rw e (select_piles_plain (to_lower_case (trim search)) f piles t h)
