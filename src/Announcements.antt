-- ===== src/Announcements.antt =====
-- The announcements of the platform: frontend/components/announcement-strip.tsx, and the reader that it
-- opens (Announcements/Reader). The refs and the React state are one record; a request is an effect with
-- the number of its controller, and its reply a function of its own.
pub mod Reader
pub mod Superseded
pub mod Reading
mod Tests
use Prim.Native.Nat.{max, min}
use charge_api.Prelude.{
  ℕ, ◌+◌, ◌-◌, ◌==◌, Bool, true, false, not, ◌&&◌, ◌||◌, Option, none, some, String, List, [], ◌∷◌,
  ℤ, pos_part, neg_part, any, ltb, get_or, is_some, is_truthy, if◌then◌else◌,
}
use charge_api.Http.{Reason, Settled, resolved, rejected}

pub data Level : Type 0 where
  normal important : Level

pub data Status : Type 0 where
  draft scheduled active ended withdrawn published : Status

pub record Announcement : Type 0 where
  pub acknowledged : Bool
  pub body : Option String
  pub created_at : String
  pub end_at : Option String
  pub id : String
  pub level : Level
  pub link_label : Option String
  pub link_url : Option String
  pub reminder_version : ℕ
  pub start_at : String
  pub status : Status
  pub title : String
  pub updated_at : String
  pub updated_by : Option String
  pub version : ℕ

pub record AnnouncementPage : Type 0 where
  pub items : List Announcement
  pub page : ℕ
  pub total : ℕ

pub record AnnouncementSummary : Type 0 where
  pub item : Option Announcement
  pub next_boundary : Option String
  pub server_now : String
  pub unread_count : ℕ

-- `boundary.current`: +∞, an instant `delay` milliseconds after `from`, or NaN.
pub data Boundary : Type 0 where
  never unknown : Boundary
  after : (from : ℤ) (delay : ℕ) → Boundary

pub record State : Type 0 where
  pub summary : Option AnnouncementSummary
  pub error : String
  -- `operation.current`, by the number of the controller.
  pub operation : Option ℕ
  pub last : ℤ
  pub boundary : Boundary
  pub online : Bool
  -- The controllers that were aborted, and the number of the next one.
  pub aborted : List ℕ
  pub next_controller : ℕ

unfoldable pub initial : Bool → State
initial online = record {
  summary = none;
  error = "";
  operation = none;
  last = ℤ.pos 0;
  boundary = never;
  online = online;
  aborted = [];
  next_controller = 0;
}

pub data Effect : Type 0 where
  get_summary : (controller : ℕ) → Effect

-- `a - b`, where `b` comes first; 0 where it does not.
abbrev pub distance : ℤ → ℤ → ℕ
distance a b = (pos_part a + neg_part b) - (pos_part b + neg_part a)

-- `now < from + delay`.
abbrev pub is_within : ℤ → ℤ → ℕ → Bool
is_within now from delay = ltb (pos_part now + neg_part from) (pos_part from + neg_part now + delay)

-- `now < boundary.current`.
abbrev pub is_before : ℤ → Boundary → Bool
is_before now never = true
is_before now unknown = false
is_before now (after from delay) = is_within now from delay

abbrev pub abort_all : Option ℕ → List ℕ → List ℕ
abort_all none aborted = aborted
abort_all (some k) aborted = k ∷ aborted

abbrev pub is_aborted : ℕ → State → Bool
is_aborted k s = any (λ j. j == k) s.aborted

-- `load`, up to the request: without force, no second one at a time, and none within a minute of the
-- last unless the boundary has passed.
unfoldable pub load_begin : (force : Bool) → (now : ℤ) → State → State × List Effect
load_begin force now s =
    if not s.online
      || (not force && is_some s.operation)
      || (not force && is_before now s.boundary && is_within now s.last 60000)
    then (s, [])
    else (
      record s {
        aborted = abort_all s.operation s.aborted;
        operation = some s.next_controller;
        next_controller = s.next_controller + 1;
        last = now;
      },
      get_summary s.next_controller ∷ [],
    )

-- `if (operation.current === controller) operation.current = null`.
abbrev pub clear : ℕ → Option ℕ → Option ℕ
clear k none = none
clear k (some j) = if j == k then none else some j

-- `Date.parse` is the host's, with `none` for NaN.
module _ (parse_date : String → Option ℤ) where
  abbrev boundary_of : ℤ → Option ℤ → Option ℤ → Boundary
  boundary_of now (some boundary) (some server) = after now (distance boundary server)
  boundary_of now _ _ = unknown

  unfoldable pub next_boundary : ℤ → AnnouncementSummary → Boundary
  next_boundary now given =
      if is_truthy given.next_boundary
      then boundary_of now (parse_date (get_or given.next_boundary ""))
          (parse_date given.server_now)
      else never

  -- `load`, from the reply to the request with controller `k`.
  unfoldable pub load_settle : ℕ → ℤ → Settled AnnouncementSummary → State → State
  load_settle k now (resolved given) s =
      if is_aborted k s then record s { operation = clear k s.operation } else record s {
        boundary = next_boundary now given;
        summary = some given;
        error = "";
        operation = clear k s.operation;
      }
  load_settle k now (rejected reason) s =
      if is_aborted k s
      then record s { operation = clear k s.operation }
      else record s { error = "公告暂时无法加载"; operation = clear k s.operation }

  abbrev delay_of : Option ℤ → Option ℤ → Option ℕ
  delay_of (some boundary) (some server) =
      some (min (max 1000 (distance boundary server + 100)) 2147483647)
  delay_of _ _ = none

  -- The delay of the timer that loads at the boundary, if there is one; NaN, the inner `none`, is 0 to
  -- the host.
  unfoldable pub timer_delay : AnnouncementSummary → Option (Option ℕ)
  timer_delay summary =
      if is_truthy summary.next_boundary
      then some
          (delay_of (parse_date (get_or summary.next_boundary "")) (parse_date summary.server_now))
      else none

-- The cleanup of the first effect.
unfoldable pub unmount : State → State
unmount s = record s { aborted = abort_all s.operation s.aborted; operation = none }
