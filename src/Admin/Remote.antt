-- ===== src/Admin/Remote.antt =====
-- `useRemote` of frontend/components/workbench/admin-system-pages.tsx: the data of a page, loaded by an
-- effect that runs again on demand.
use charge_api.Prelude.{
  ℕ, ◌+◌, ◌==◌, ◌≡◌, ◌<◌, arith, Bool, true, false, Option, none, some, String, if◌then◌else◌,
}
use charge_api.Http.{Settled, resolved, rejected, message_of}

-- `active` is true of the last run of the effect alone, and of none after the page was left.
pub record Remote (T : Type 0) : Type 0 where
  pub value : Option T
  pub error : String
  pub loading : Bool
  pub revision : ℕ
  pub active : Option ℕ
  pub next_run : ℕ

abbrev pub is_active : ℕ → Option ℕ → Bool
is_active k none = false
is_active k (some j) = j == k

module _ {T : Type 0} where
  unfoldable pub start : Remote T
  start = record {
    value = none;
    error = "";
    loading = true;
    revision = 0;
    active = some 0;
    next_run = 1;
  }

  -- `reload`, and the run of the effect that follows.
  unfoldable pub reload : Remote T → Remote T
  reload r = record r {
    loading = true;
    revision = r.revision + 1;
    active = some r.next_run;
    next_run = r.next_run + 1;
  }

  -- The reply to the request of run `k`. After a failure the value stays.
  unfoldable pub settle : ℕ → Settled T → Remote T → Remote T
  settle k (resolved value) r =
      if is_active k r.active
      then record r { value = some value; error = ""; loading = false }
      else r
  settle k (rejected reason) r =
      if is_active k r.active then record r { error = message_of reason; loading = false } else r

  unfoldable pub unmount : Remote T → Remote T
  unmount r = record r { active = none }

  -- Of two loads that overlap the later one decides, whichever reply comes first. Condition: the run
  -- of the earlier one has a number that was given.
  reload-settle :
      (old new : Settled T) (k : ℕ) (r : Remote T)
      → k < r.next_run
      → (settle r.next_run new (settle k old (reload r)) ≡ settle r.next_run new (reload r))
        × (settle k old (settle r.next_run new (reload r)) ≡ settle r.next_run new (reload r))
  unfolding settle reload
  reload-settle (resolved a) (resolved b) k r h = (ground arith, ground arith)
  reload-settle (resolved a) (rejected b) k r h = (ground arith, ground arith)
  reload-settle (rejected a) (resolved b) k r h = (ground arith, ground arith)
  reload-settle (rejected a) (rejected b) k r h = (ground arith, ground arith)
