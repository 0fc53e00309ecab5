-- ===== src/Binding/Polling.antt =====
-- The automatic check of a scan: it pauses after three failures in a row.
use Prim.Native.Nat.{min}
use charge_api.Prelude.{
  ℕ, ◌+◌, ◌-◌, ◌≤◌, refl, sym, ap, ◌∙◌, ltb, ◌≡◌, arith, true, false, Option, none, some, List, [],
  ◌∷◌, All, length, Bool-cases, inl, inr, if◌then◌else◌,
}
use charge_api.Api.Binding.{YybQr, YybQrPoll}
use charge_api.Http.{Settled, resolved, rejected}
use charge_api.Binding.{State, check_begin, check_settle, is_due}

-- One check and its reply.
abbrev pub poll_once : Option YybQr → Settled YybQrPoll → State → State
poll_once none reply s = s
poll_once (some qr) reply s = check_settle s.epoch qr reply (check_begin s).0

-- The checks that the timer makes, one for each reply, as long as it is due; and how many they are.
unfoldable pub poll_all : List (Settled YybQrPoll) → State → State × ℕ
poll_all [] s = (s, 0)
poll_all (reply ∷ replies) s =
    let (last, n) = poll_all replies (poll_once s.qr reply s) in
    if is_due s then (last, n + 1) else (s, 0)

abbrev pub IsFailure : Settled YybQrPoll → Type 0
IsFailure (resolved next) = ⊥
IsFailure (rejected reason) = Unit

-- No other request is on its way, and the page is there.
abbrev pub IsIdle : State → Type 0
IsIdle s = (s.mounted ≡ true) × (s.operation ≡ false)

-- The check that is due comes back with the failure counted, and another is due while fewer than three
-- failed.
poll_once_failed :
    (reply : Settled YybQrPoll) (s : State)
    → IsFailure reply
    → IsIdle s
    → is_due s ≡ true
    → let s' = poll_once s.qr reply s in
      IsIdle s' × (s'.failures ≡ s.failures + 1) × (is_due s' ≡ ltb (s.failures + 1) 3)
unfolding check_begin check_settle is_due
poll_once_failed (resolved next) s f i d = absurd f
poll_once_failed (rejected reason) s f i d = ground arith

poll_all_paused :
    (replies : List (Settled YybQrPoll)) (s : State)
    → is_due s ≡ false
    → poll_all replies s ≡ (s, 0)
unfolding poll_all
poll_all_paused [] s h = refl
poll_all_paused (reply ∷ replies) s h = rw h refl

three : (n : ℕ) → ltb n 3 ≡ false → 3 ≤ n
three n h = ground arith

due_below : (s : State) → is_due s ≡ true → s.failures + 1 ≤ 3
unfolding is_due
due_below s d = ground arith

-- While every check fails, the timer, once due, makes exactly as many checks as are left of three failures
-- in a row, or as there are replies if those are fewer; each is counted, and the timer is due after them
-- exactly while fewer than three failed.
pub poll_all-stops :
    (replies : List (Settled YybQrPoll)) (s : State)
    → All IsFailure replies
    → IsIdle s
    → is_due s ≡ true
    → let (last, made) = poll_all replies s in
      (made ≡ min (length replies) (3 - s.failures))
      × (last.failures ≡ s.failures + made)
      × (is_due last ≡ ltb last.failures 3)
unfolding poll_all
poll_all-stops [] s f i due = (omega arith, omega arith, due ∙ sym (below (due_below s due)))
  where
    below : s.failures + 1 ≤ 3 → ltb s.failures 3 ≡ true
    below h = ground arith
poll_all-stops (reply ∷ replies) s (f, fs) i due =
    let (idle, one, still) = poll_once_failed reply s f i due in
    let small = due_below s due in
    rw due (elim (Bool-cases (is_due (poll_once s.qr reply s))) [
      | inl again ↦
          let (made, failed, after) =
            poll_all-stops replies (poll_once s.qr reply s) fs idle again in
          let more = due_below (poll_once s.qr reply s) again in (omega arith, omega arith, after)
      | inr paused ↦
          let full = three (s.failures + 1) (sym still ∙ paused) in
          rw (poll_all_paused replies (poll_once s.qr reply s) paused)
            (omega (arith, one, full), one, still ∙ sym (ap (λ n. ltb n 3) one))
    ])
