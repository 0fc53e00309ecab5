-- ===== src/Workbench/Selection.antt =====
-- `portCounts`, `selectWorkbenchPiles` and `portTime` of frontend/lib/workbench.ts, and `filterPiles` of
-- frontend/lib/dashboard-filters.ts.
use Prim.Native.String.{count}
use text.Mathlib.Text.{find?}
use charge_api.Prelude.{
  ℕ, ◌+◌, ◌/◌, ◌%◌, Bool, true, false, not, ◌&&◌, ◌||◌, Option, none, some, String, List, [], ◌∷◌,
  ◌++◌, map, filter, str_eq, trim, concat, decimal, to_number, is_some, leb, ltb, ◌==◌,
  if◌then◌else◌,
}
use charge_api.Types.{PortStatus, idle, in_use, offline, Port, Pile}

pub data PortFilter : Type 0 where
  all only_idle charging only_offline : PortFilter

pub record Counts : Type 0 where
  pub idle : ℕ
  pub in_use : ℕ
  pub offline : ℕ

-- `count[port.status] += 1`.
abbrev pub bump : PortStatus → Counts → Counts
bump idle c = record c { idle = c.idle + 1 }
bump in_use c = record c { in_use = c.in_use + 1 }
bump offline c = record c { offline = c.offline + 1 }

unfoldable pub count_from : Counts → List Port → Counts
count_from c [] = c
count_from c (port ∷ ports) = count_from (bump port.status c) ports

unfoldable pub port_counts : Pile → Counts
unfolding count_from
port_counts pile = count_from (record { idle = 0; in_use = 0; offline = 0 }) pile.ports

abbrev pub same_status : PortStatus → PortStatus → Bool
same_status idle idle = true
same_status in_use in_use = true
same_status offline offline = true
same_status _ _ = false

-- The status that a filter asks for; `null` is none.
abbrev pub wanted_by : PortFilter → Option PortStatus
wanted_by all = none
wanted_by only_idle = some idle
wanted_by charging = some in_use
wanted_by only_offline = some offline

-- `!wanted || port.status === wanted`.
abbrev pub has_status : Option PortStatus → PortStatus → Bool
has_status none status = true
has_status (some wanted) status = same_status status wanted

abbrev pub wants_idle : Option PortStatus → Bool
wants_idle (some idle) = true
wants_idle _ = false

-- `/^\d{1,2}$/.test(query) ? Number(query) : null`.
unfoldable pub port_query : String → Option ℕ
unfolding to_number
port_query query = if leb 1 (count query) && leb (count query) 2 then to_number query else none

abbrev pub is_number : Option ℕ → ℕ → Bool
is_number none id = false
is_number (some n) id = id == n

-- `text.includes(part)`.
abbrev pub includes : String → String → Bool
includes s part = is_some (find? s part)

pub record Hit : Type 0 where
  pub pile : Pile
  pub port_ids : List ℕ

abbrev pub is_empty : List Port → Bool
is_empty [] = true
is_empty (_ ∷ _) = false

abbrev pub is_all : PortFilter → Bool
is_all all = true
is_all _ = false

abbrev pub port_ids : List Port → List ℕ
port_ids = map (λ p. p.id)

-- Lower case depends on the host's tables and locale: `to_lower_case` is the parameter, which stands for
-- `toLocaleLowerCase` in the functions of frontend/lib/workbench.ts and for `toLowerCase` in those of
-- frontend/lib/dashboard-filters.ts.
module _ (to_lower_case : String → String) where
  unfoldable pub matches_pile : String → Pile → Bool
  matches_pile query pile =
      str_eq query ""
      || (not (is_some (port_query query))
          && includes
              (to_lower_case
                (concat (pile.name ∷ " " ∷ pile.number ∷ " " ∷ pile.id ∷ " " ∷ pile.address ∷ [])))
              query)

  unfoldable pub keeps_port : String → PortFilter → Pile → Port → Bool
  keeps_port query filter pile port =
      (matches_pile query pile || is_number (port_query query) port.id)
      && has_status (wanted_by filter) port.status
      && (not (wants_idle (wanted_by filter)) || pile.online)

  -- The body of the `flatMap`.
  unfoldable pub select_pile : String → PortFilter → Pile → List Hit
  select_pile query f pile =
      let ports = filter (keeps_port query f pile) pile.ports in
      if is_empty ports && not (matches_pile query pile && is_all f && is_empty pile.ports)
      then []
      else record { pile = pile; port_ids = port_ids ports } ∷ []

  unfoldable pub select_piles : String → PortFilter → List Pile → List Hit
  select_piles query f [] = []
  select_piles query f (pile ∷ piles) = select_pile query f pile ++ select_piles query f piles

  unfoldable pub select_workbench_piles : List Pile → String → PortFilter → List Hit
  unfolding select_piles
  select_workbench_piles piles search f = select_piles (to_lower_case (trim search)) f piles

  -- `pileMatches`, the filter of the ports and the body of the `flatMap` of
  -- frontend/lib/dashboard-filters.ts.
  unfoldable pub matches_listed : String → Pile → Bool
  matches_listed query pile =
      str_eq query ""
      || (not (is_some (port_query query))
          && includes
              (to_lower_case
                (concat (pile.name ∷ " " ∷ pile.number ∷ " " ∷ pile.address ∷ " " ∷ pile.id ∷ [])))
              query)

  unfoldable pub keeps_listed : String → PortFilter → Pile → Port → Bool
  unfolding matches_listed
  keeps_listed query f pile port =
      (matches_listed query pile || is_number (port_query query) port.id)
      && has_status (wanted_by f) port.status

  unfoldable pub filter_pile : String → PortFilter → Pile → List Hit
  filter_pile query f pile =
      let ports = filter (keeps_listed query f pile) pile.ports in
      if is_empty ports then [] else record { pile = pile; port_ids = port_ids ports } ∷ []

  unfoldable pub filter_from : String → PortFilter → List Pile → List Hit
  filter_from query f [] = []
  filter_from query f (pile ∷ piles) = filter_pile query f pile ++ filter_from query f piles

  unfoldable pub filter_piles : List Pile → String → PortFilter → List Hit
  unfolding filter_from
  filter_piles piles search f = filter_from (to_lower_case (trim search)) f piles

pub data TimeKind : Type 0 where
  used remaining : TimeKind

-- `value?.trim() || otherwise`.
abbrev pub trimmed_or : Option String → String → String
trimmed_or none otherwise = otherwise
trimmed_or (some s) otherwise = if str_eq (trim s) "" then otherwise else trim s

unfoldable pub used_time : ℕ → String
unfolding decimal
used_time used_seconds =
    let minutes = used_seconds / 60 in
    if ltb minutes 60
    then concat (decimal minutes ∷ " 分钟" ∷ [])
    else concat (decimal (minutes / 60) ∷ " 小时 " ∷ decimal (minutes % 60) ∷ " 分钟" ∷ [])

-- `usedSeconds` is a natural number here; the text for a negative or infinite one is left out.
unfoldable pub port_time : Port → TimeKind → String
port_time port kind = if not (same_status port.status in_use) then "—" else elim kind [
  | remaining ↦ trimmed_or port.remaining_text "平台未提供"
  | used ↦ trimmed_or port.used_text (used_time port.used_seconds)
]
