-- ===== src/History/Loads.antt =====
-- The two loads of frontend/components/device-history-sheet.tsx, that of the device and that of a port:
-- each gives up the one before. They have the same states and steps.
use charge_api.Prelude.{
  ℕ, ◌+◌, ◌==◌, ◌≡◌, arith, Bool, true, false, Option, none, some, String, List, [], ◌∷◌, any,
  if◌then◌else◌, run_of, run_of-kept, ◌⊎◌, inl, inr,
}
use charge_api.Http.{Settled, resolved, rejected, message_of}
use charge_api.Types.{Pile, Port}

pub record Loader (T : Type 0) : Type 0 where
  pub shown : Option T
  pub loading : Bool
  pub error : String
  -- The controller of the last load, those that were aborted, and the number of the next one.
  pub controller : Option ℕ
  pub aborted : List ℕ
  pub next_controller : ℕ

abbrev pub abort_all : Option ℕ → List ℕ → List ℕ
abort_all none aborted = aborted
abort_all (some k) aborted = k ∷ aborted

pub data Event (T : Type 0) : Type 0 where
  load left : Event T
  reply : (controller : ℕ) → (is_abort : Bool) → Settled T → Event T

module _ {T : Type 0} where
  unfoldable pub initial : Loader T
  initial = record {
    shown = none;
    loading = false;
    error = "";
    controller = none;
    aborted = [];
    next_controller = 0;
  }

  -- `loadDevice` and `loadPort`, up to the request.
  unfoldable pub load_begin : Loader T → Loader T
  load_begin l = record l {
    aborted = abort_all l.controller l.aborted;
    controller = some l.next_controller;
    next_controller = l.next_controller + 1;
    loading = true;
    error = "";
    shown = none;
  }

  abbrev pub is_aborted : ℕ → Loader T → Bool
  is_aborted k l = any (λ j. j == k) l.aborted

  -- From the reply; `is_abort`: the error is the browser's own for a request that was given up.
  unfoldable pub load_settle : ℕ → (is_abort : Bool) → Settled T → Loader T → Loader T
  load_settle k is_abort (resolved next) l =
      if is_aborted k l then l else record l { shown = some next; loading = false }
  load_settle k is_abort (rejected reason) l =
      if is_aborted k l
      then l
      else if is_abort
      then record l { loading = false }
      else record l { error = message_of reason; loading = false }

  -- The cleanup of the effect that loads.
  unfoldable pub leave : Loader T → Loader T
  leave l = record l { aborted = abort_all l.controller l.aborted }

  unfoldable pub step : Event T → Loader T → Loader T × List (Unit {0})
  step load l = (load_begin l, [])
  step left l = (leave l, [])
  step (reply k is_abort r) l = (load_settle k is_abort r l, [])

  step-is_aborted :
      (k : ℕ) (e : Event T) (l : Loader T)
      → is_aborted k l ≡ true
      → is_aborted k (step e l).0 ≡ true
  unfolding step load_begin load_settle leave
  step-is_aborted k load l h = ground arith
  step-is_aborted k left l h = ground arith
  step-is_aborted k (reply j is_abort (resolved next)) l h = ground arith
  step-is_aborted k (reply j is_abort (rejected reason)) l h = ground arith

  -- Once another range or port is loaded, or the sheet is left, the reply to the load on its way
  -- changes nothing, whatever happens before it comes.
  run-given_up :
      (es : List (Event T)) (k : ℕ) (is_abort : Bool) (r : Settled T) (l : Loader T) (e : Event T)
      → l.controller ≡ some k
      → (e ≡ load) ⊎ (e ≡ left)
      → let l' = (run_of step es (step e l).0).0 in load_settle k is_abort r l' ≡ l'
  run-given_up es k is_abort r l e c how = settled (run_of step es (step e l).0).0 r (
      run_of-kept step (λ l. is_aborted k l ≡ true) (step-is_aborted k) es (step e l).0
        (aborted e how))
    where
      aborted : (e : Event T) → (e ≡ load) ⊎ (e ≡ left) → is_aborted k (step e l).0 ≡ true
      aborted e (inl h) = rw h (unfold step load_begin in rw c (ground arith))
      aborted e (inr h) = rw h (unfold step leave in rw c (ground arith))

      settled :
          (l : Loader T) (r : Settled T) → is_aborted k l ≡ true → load_settle k is_abort r l ≡ l
      settled l (resolved next) h = unfold load_settle in rw h
      settled l (rejected reason) h = unfold load_settle in rw h

abbrev has_port : ℕ → List Port → Bool
has_port id = any (λ port. port.id == id)

abbrev first_port : List Port → Option ℕ
first_port [] = none
first_port (port ∷ _) = some port.id

-- The port that is selected at first.
unfoldable pub start_port : Option ℕ → Pile → Option ℕ
start_port none pile = first_port pile.ports
start_port (some id) pile = if has_port id pile.ports then some id else first_port pile.ports
