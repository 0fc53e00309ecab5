-- ===== src/Prototype/Sound.antt =====
-- What holds of the preview after any events.
use charge_api.Prelude.{
  ℕ, ◌≡◌, refl, sym, ap, ◌∙◌, subst, arith, Bool, true, false, Option, none, some, String, List, [],
  ◌∷◌, run_of,
}
use charge_api.Prototype.Model.{PrototypeData, Role, Clock}
use charge_api.Prototype.Seed.{initial_data}
use charge_api.Prototype.Update.{find}
use charge_api.Prototype.Checks.{policy_error}
use charge_api.Prototype.Update.{find}
use charge_api.Prototype.Recipes.{Change, apply, did}
use charge_api.Prototype.Change.{set_wx}
use charge_api.Prototype.Plays.{
  Play, found_idle, recovered, first_observation, set_theme, set_motion, sign_in, set_role,
  open_notice, is_unread,
}
use charge_api.Prototype.App.{
  Request, Pending, settled, State, data_of, start, commit_begin, commit_settle, reset,
  toggle_search, follow, After, nothing, close, show_ready, show_pile, go_to,
}
use charge_api.Prototype.Forms.{Answer, refused, asked, opened, told, disabled}
use charge_api.Prototype.Answers.{answer}
use charge_api.Prototype.Events.{
  Event, step, run, mutate, answered, played, told_of, shown_pile, observed_id, greeted, previewed,
  opened_notice, submit, elapsed, apply_preview, play_idle, play_recovery, play_observation,
  choose_theme, choose_motion, signed_in, select_notice, reset_all, stored_elsewhere, storage_takes,
}
use charge_api.Prototype.Storage.{data_in, update_data}
use charge_api.Prototype.Stored.{AllIn, IsHeldBy, data_in-held, put_data-held, data_in-put_data}
use charge_api.Prototype.Fair.{is_fair, answer-is_fair}
use charge_api.Prototype.Consistent.{
  AreAgreed, initial_data-AreAgreed, apply-AreAgreed, play-AreAgreed,
}
use charge_api.Prototype.Waiting.{IsSingle, initial_data-IsSingle, apply-IsSingle, play-IsSingle}
use charge_api.Prototype.Settings.{AreKept, is_ready, apply-AreKept, IsUntouched, play-IsUntouched}

abbrev pending_ready : Option Pending → PrototypeData → Bool
pending_ready none d = true
pending_ready (some p) d = is_ready p.request.change d

-- The ports agree with the piles, no device has two waiting watches, and the settings are kept.
abbrev pub IsFine : PrototypeData → Type 0
IsFine d = AreAgreed d × IsSingle d × AreKept d

-- The data in memory and in the storage are fine, and the change that waits is still ready.
abbrev IsSound : State → Type 0
IsSound s = IsHeldBy IsFine s.storage × (pending_ready s.pending (data_of s) ≡ true)

data-IsFine : (s : State) → IsSound s → IsFine (data_of s)
data-IsFine s (held, ready) = data_in-held IsFine s.storage held

-- Where the storage is the same, what is pending alone can matter.
same_data :
    (s t : State)
    → t.storage ≡ s.storage
    → pending_ready t.pending (data_of s) ≡ true
    → IsSound s
    → IsSound t
same_data s t q ready (held, _) = (
  subst (IsHeldBy IsFine) (sym q) held,
  subst (λ st. pending_ready t.pending (data_in st) ≡ true) (sym q) ready,
)

begin-IsSound :
    (r : Request) (s : State)
    → is_ready r.change (data_of s) ≡ true
    → IsSound s
    → IsSound (commit_begin r s).0
unfolding commit_begin
begin-IsSound r s ready sound =
    same_data s (commit_begin r s).0 (ground arith) (ground (arith, ready, sound.1)) sound

answered-IsSound :
    (x : Answer) (s : State) → is_fair x (data_of s) ≡ true → IsSound s → IsSound (answered x s).0
answered-IsSound (refused message) s fair sound = sound
answered-IsSound (asked request) s fair sound = begin-IsSound request s fair sound
answered-IsSound (opened kind) s fair sound = sound
answered-IsSound (told message) s fair sound = sound
answered-IsSound disabled s fair sound = sound

follow-IsSound : (a : After) (s : State) → IsSound s → IsSound (follow a s)
follow-IsSound nothing s sound = sound
follow-IsSound close s sound = sound
follow-IsSound show_ready s sound = sound
follow-IsSound (show_pile id) s sound = sound
follow-IsSound (go_to route) s sound = sound

settle-IsSound :
    (clock : Clock) (stamp : ℕ) (o : Option Pending) (s : State)
    → pending_ready o (data_of s) ≡ true
    → IsSound s
    → IsSound (settled clock stamp o s).0
unfolding update_data
settle-IsSound clock stamp none s ready sound = sound
settle-IsSound clock stamp (some p) s ready sound =
    let (agreed, single, kept) = data-IsFine s sound in
    let c = p.request.change in
    let d = data_of s in
    follow-IsSound p.request.after _ (
      put_data-held IsFine (apply clock stamp c d) s.storage
          (
            apply-AreAgreed clock stamp c d agreed,
            apply-IsSingle clock stamp c d single,
            apply-AreKept clock stamp c d ready kept,
          )
          sound.0,
      refl,
    )

still_ready :
    (c : Change) (d e : PrototypeData) → IsUntouched d e → is_ready c d ≡ true → is_ready c e ≡ true
still_ready (did (set_wx v)) d e (_, _, q) h = q ∙ h
still_ready (did a) d e q h = h
still_ready c d e q h = h

pending_still :
    (o : Option Pending) (d e : PrototypeData)
    → IsUntouched d e
    → pending_ready o d ≡ true
    → pending_ready o e ≡ true
pending_still none d e q h = h
pending_still (some p) d e q h = still_ready p.request.change d e q h

kept_still : (d e : PrototypeData) → IsUntouched d e → AreKept d → AreKept e
kept_still d e (settings, enabled, bound) (h, k) =
    (ap policy_error settings ∙ h, rw (enabled, bound) k)

mutate-IsSound : (stamp : ℕ) (p : Play) (s : State) → IsSound s → IsSound (mutate stamp p s).0
unfolding mutate update_data
mutate-IsSound stamp p s sound =
    let (agreed, single, kept) = data-IsFine s sound in
    let d = data_of s in
    let e = played stamp p d in
    let same = play-IsUntouched stamp p d in
    (
      put_data-held IsFine e s.storage
          (
            play-AreAgreed stamp p d agreed,
            play-IsSingle stamp p d single,
            kept_still d e same kept,
          )
          sound.0,
      data_in-put_data (λ x. pending_ready s.pending x ≡ true) e s.storage
          (pending_still s.pending d e same sound.1) sound.1,
    )

reset_ready :
    (o : Option Pending) (d : PrototypeData)
    → pending_ready o d ≡ true
    → pending_ready o initial_data ≡ true
unfolding initial_data
reset_ready none d h = refl
reset_ready (some p) d h = of_change p.request.change h
  where
    of_change : (c : Change) → is_ready c d ≡ true → is_ready c initial_data ≡ true
    of_change (did (set_wx v)) h = refl
    of_change (did a) h = h
    of_change c h = h

initial_data-AreKept : AreKept initial_data
unfolding initial_data policy_error
initial_data-AreKept = (refl, refl)

-- A part of the state that the data do not see.
told-IsSound :
    (b : Bool) (done undone : String) (s : State) → IsSound s → IsSound (told_of b done undone s)
told-IsSound true done undone s h = h
told-IsSound false done undone s h = h

shown-IsSound : (o : Option String) (s : State) → IsSound s → IsSound (shown_pile o s)
shown-IsSound none s h = h
shown-IsSound (some id) s h =
    same_data s (shown_pile (some id) s) (ground arith) (ground (arith, h.1)) h

previewed-IsSound : (b : Bool) (role : Role) (s : State) → IsSound s → IsSound (previewed b role s)
previewed-IsSound true role s h = h
previewed-IsSound false role s h = h

opened-IsSound :
    (b : Bool) (stamp : ℕ) (id : String) (s : State)
    → IsSound s
    → IsSound (opened_notice b stamp id s).0
opened-IsSound true stamp id s h = mutate-IsSound stamp (open_notice id) s h
opened-IsSound false stamp id s h = h

greeted-IsSound : (b : Bool) (s : State) → IsSound s → IsSound (greeted b s)
greeted-IsSound true s h = h
greeted-IsSound false s h = h

initial_data-IsFine : IsFine initial_data
initial_data-IsFine = (initial_data-AreAgreed, initial_data-IsSingle, initial_data-AreKept)

storage_takes-IsSound :
    (writable : Bool) (s : State)
    → IsSound s
    → IsSound (record s { storage = record s.storage { writable = writable } })
unfolding data_in
storage_takes-IsSound writable s h = h

-- The data that another page leaves are fine, and the change that waits is ready in what is then read.
abbrev pub IsFair : Event → State → Type 0
IsFair (stored_elsewhere item) s =
    AllIn IsFine item
    × (pending_ready s.pending (data_in (record s.storage { item = item })) ≡ true)
IsFair e s = Unit

abbrev pub AreFair : Clock → (String → String) → List Event → State → Type 0
AreFair clock upper [] s = Unit
AreFair clock upper (e ∷ es) s = IsFair e s × AreFair clock upper es (step clock upper e s).0

step-IsSound :
    (clock : Clock) (upper : String → String) (e : Event) (s : State)
    → IsFair e s
    → IsSound s
    → IsSound (step clock upper e s).0
unfolding step commit_settle reset toggle_search
step-IsSound clock upper (submit form) s f h =
    answered-IsSound (answer clock upper form s) s (answer-is_fair clock upper form s) h
step-IsSound clock upper (elapsed stamp) s f h = settle-IsSound clock stamp s.pending s h.1 h
step-IsSound clock upper (apply_preview stamp role scenario) s f h =
    previewed-IsSound _ role _ (mutate-IsSound stamp (set_role role) s h)
step-IsSound clock upper (play_idle stamp) s f h =
    told-IsSound _ _ _ _ (mutate-IsSound stamp found_idle s h)
step-IsSound clock upper (play_recovery stamp) s f h =
    told-IsSound _ _ _ _ (mutate-IsSound stamp recovered s h)
step-IsSound clock upper (play_observation stamp) s f h =
    shown-IsSound (observed_id (find is_unread (data_of s).piles))
      (mutate stamp first_observation s).0 (mutate-IsSound stamp first_observation s h)
step-IsSound clock upper (choose_theme stamp theme) s f h =
    mutate-IsSound stamp (set_theme theme) s h
step-IsSound clock upper (choose_motion stamp reduced) s f h =
    mutate-IsSound stamp (set_motion reduced) s h
step-IsSound clock upper (signed_in stamp register username) s f h =
    greeted-IsSound register _ (mutate-IsSound stamp (sign_in username) s h)
step-IsSound clock upper (select_notice stamp id) s f h = opened-IsSound _ stamp id s h
step-IsSound clock upper reset_all s f (held, ready) = (
  put_data-held IsFine initial_data s.storage initial_data-IsFine held,
  data_in-put_data (λ x. pending_ready s.pending x ≡ true) initial_data s.storage
      (reset_ready s.pending (data_of s) ready) ready,
)
step-IsSound clock upper (stored_elsewhere item) s (fine, ready) (held, _) = ((held.0, fine), ready)
step-IsSound clock upper (storage_takes writable) s f h = storage_takes-IsSound writable s h
step-IsSound clock upper e s f h = h

run_from-IsSound :
    (clock : Clock) (upper : String → String) (es : List Event) (s : State)
    → AreFair clock upper es s
    → IsSound s
    → IsSound (run clock upper es s).0
unfolding run_of
run_from-IsSound clock upper [] s f h = h
run_from-IsSound clock upper (e ∷ es) s (f, fs) h =
    run_from-IsSound clock upper es (step clock upper e s).0 fs (step-IsSound clock upper e s f h)

-- After any events from the start, whether the storage can be read or not: the ports of every pile agree with
-- what the pile says of them, no device has two watches that wait for it, the settings pass the checks of
-- their form, and the channel is on only where it is bound. Conditions, for a write of another page only:
-- that the data it leaves are so, and that the change that waits is ready in them.
pub run-IsSound :
    (clock : Clock) (upper : String → String) (readable : Bool) (es : List Event)
    → AreFair clock upper es (start readable)
    → let d = data_of (run clock upper es (start readable)).0 in
      AreAgreed d × IsSingle d × AreKept d
run-IsSound clock upper readable es f = data-IsFine (run clock upper es (start readable)).0 (
    run_from-IsSound clock upper es (start readable) f
      (unfold start in ((initial_data-IsFine, tt), refl)))
