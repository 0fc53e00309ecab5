-- ===== src/Prototype/Once.antt =====
-- What is done with the data of the preview, as a log, against the storage and the recipes that `commit` takes.
use mathlib.Core.List.{append_assoc}
use charge_api.Prelude.{
  ℕ, ◌≡◌, refl, sym, ap, ◌∙◌, arith, Bool, true, false, not, ◌&&◌, Option, none, some, String, List,
  [], ◌∷◌, ◌++◌, All, run_of, if◌then◌else◌,
}
use charge_api.Prototype.Model.{Clock, Role, ready, user, admin}
use charge_api.Prototype.Plays.{
  Play, play, set_role, found_idle, recovered, first_observation, set_theme, set_motion, sign_in,
  open_notice, is_unread, is_admin_name,
}
use charge_api.Prototype.Update.{find}
use charge_api.Prototype.App.{
  Request, Pending, settled, State, data_of, Effect, commit_begin, commit_settle, reset,
  toggle_search, go, view_route, offline_of, view_route, offline_of, follow, After, nothing, close,
  show_ready, show_pile, go_to,
}
use charge_api.Prototype.Forms.{Answer, refused, asked, opened, told, disabled}
use charge_api.Prototype.Answers.{answer}
use charge_api.Prototype.Storage.{data_in}
use charge_api.Prototype.Log.{
  replay, takes, stored_by, data_in-stored_by, taken, made, waiting, stored_by-append, taken-append,
  made-append,
}
use charge_api.Prototype.Events.{
  Event, step, run, mutate, answered, told_of, shown_pile, observed_id, greeted, previewed,
  opened_notice, then_do, submit, elapsed, apply_preview, play_idle, play_recovery,
  play_observation, choose_theme, choose_motion, signed_in, select_notice, reset_all, show_normal,
  search_key, toast_gone, went_offline, went_online, navigate, open_modal, stored_elsewhere,
  storage_takes, same_role, is_done, home_of, is_error, notice_route,
}

-- One event: its log leaves the storage, and accepts what it writes, with what waits before and after.
unfoldable IsLogged : Clock → State → State × List Effect → Type 0
IsLogged clock s (t, log) =
    (t.storage ≡ stored_by clock log s.storage)
    × (waiting s.pending ++ taken log ≡ made log ++ waiting t.pending)

waiting-append : (o : Option Pending) → waiting o ++ [] ≡ waiting o
unfolding waiting
waiting-append none = refl
waiting-append (some p) = refl

-- What leaves the data, and what waits, as they were, and does nothing.
idle :
    (clock : Clock) (s t : State)
    → t.storage ≡ s.storage
    → t.pending ≡ s.pending
    → IsLogged clock s (t, [])
unfolding IsLogged stored_by taken made
idle clock s t q r = (q, waiting-append s.pending ∙ ap waiting (sym r))

begin-IsLogged : (clock : Clock) (r : Request) (s : State) → IsLogged clock s (commit_begin r s)
unfolding IsLogged commit_begin stored_by taken made waiting
begin-IsLogged clock r s = (ground arith, ground (arith, waiting-append s.pending))

follow_lem :
    (a : After) (s : State)
    → ((follow a s).storage ≡ s.storage) × ((follow a s).pending ≡ s.pending)
follow_lem nothing s = (refl, refl)
follow_lem close s = (refl, refl)
follow_lem show_ready s = (refl, refl)
follow_lem (show_pile id) s = (refl, refl)
follow_lem (go_to route) s = (refl, refl)

settled-IsLogged :
    (clock : Clock) (stamp : ℕ) (o : Option Pending) (s : State)
    → s.pending ≡ o
    → IsLogged clock s (settled clock stamp o s)
unfolding IsLogged stored_by taken made waiting
settled-IsLogged clock stamp none s q = (refl, waiting-append s.pending)
settled-IsLogged clock stamp (some p) s q = (
  (follow_lem p.request.after _).0,
  waiting-append s.pending
      ∙ ap waiting q
      ∙ sym (ap (λ o. p.request.change ∷ waiting o) (follow_lem p.request.after _).1),
)

restored-IsLogged : (clock : Clock) (s : State) → IsLogged clock s (reset s)
unfolding IsLogged reset stored_by taken made
restored-IsLogged clock s = (refl, waiting-append s.pending)

answered-IsLogged : (clock : Clock) (x : Answer) (s : State) → IsLogged clock s (answered x s)
unfolding IsLogged stored_by taken made
answered-IsLogged clock (refused message) s = (refl, waiting-append s.pending)
answered-IsLogged clock (asked request) s = begin-IsLogged clock request s
answered-IsLogged clock (opened kind) s = (refl, waiting-append s.pending)
answered-IsLogged clock (told message) s = (refl, waiting-append s.pending)
answered-IsLogged clock disabled s = (refl, waiting-append s.pending)

mutate-IsLogged :
    (clock : Clock) (stamp : ℕ) (p : Play) (s : State) → IsLogged clock s (mutate stamp p s)
unfolding mutate IsLogged stored_by taken made
mutate-IsLogged clock stamp p s = (refl, waiting-append s.pending)

-- What follows a recipe touches neither the data nor what waits.
abbrev IsAside : (State → State) → Type 0
IsAside f = (s : State) → ((f s).storage ≡ s.storage) × ((f s).pending ≡ s.pending)

then_do-IsLogged :
    (clock : Clock) (f : State → State)
    → IsAside f
    → (s : State) (x : State × List Effect) → IsLogged clock s x
    → IsLogged clock s (then_do f x)
unfolding IsLogged
then_do-IsLogged clock f aside s (t, log) (q, r) =
    ((aside t).0 ∙ q, r ∙ ap (λ o. made log ++ waiting o) (sym (aside t).1))

told-IsAside : (b : Bool) (done undone : String) → IsAside (told_of b done undone)
told-IsAside true done undone s = (refl, refl)
told-IsAside false done undone s = (refl, refl)

shown-IsAside : (o : Option String) → IsAside (shown_pile o)
shown-IsAside none s = (refl, refl)
shown-IsAside (some id) s = (ground arith, ground arith)

greeted-IsAside : (b : Bool) → IsAside (greeted b)
greeted-IsAside true s = (refl, refl)
greeted-IsAside false s = (refl, refl)

previewed-IsAside : (b : Bool) (role : Role) → IsAside (previewed b role)
previewed-IsAside true role s = (refl, refl)
previewed-IsAside false role s = (refl, refl)

opened-IsLogged :
    (clock : Clock) (b : Bool) (stamp : ℕ) (id : String) (s : State)
    → IsLogged clock s (opened_notice b stamp id s)
opened-IsLogged clock true stamp id s = mutate-IsLogged clock stamp (open_notice id) s
opened-IsLogged clock false stamp id s = idle clock s s refl refl

-- Not the doing of another page, or of the browser.
abbrev pub IsOwn : Event → Type 0
IsOwn (stored_elsewhere item) = ⊥
IsOwn (storage_takes writable) = ⊥
IsOwn e = Unit

step-IsLogged :
    (clock : Clock) (upper : String → String) (e : Event) (s : State)
    → IsOwn e
    → IsLogged clock s (step clock upper e s)
unfolding step commit_settle reset toggle_search
step-IsLogged clock upper (submit form) s o = answered-IsLogged clock (answer clock upper form s) s
step-IsLogged clock upper (elapsed stamp) s o = settled-IsLogged clock stamp s.pending s refl
step-IsLogged clock upper (apply_preview stamp role scenario) s o =
    then_do-IsLogged clock
      (λ t.
        previewed (same_role role (data_of s).demo_role) role (record t { scenario = scenario }))
      (λ t.
        previewed-IsAside (same_role role (data_of s).demo_role) role
          (record t { scenario = scenario }))
      s (mutate stamp (set_role role) s) (mutate-IsLogged clock stamp (set_role role) s)
step-IsLogged clock upper (play_idle stamp) s o =
    then_do-IsLogged clock (told_of _ _ _)
      (told-IsAside (is_done (play stamp found_idle (data_of s))) "已模拟发现空闲：提醒自动结束，并生成通知。"
        "请先创建一条正在等待的提醒。")
      s (mutate stamp found_idle s) (mutate-IsLogged clock stamp found_idle s)
step-IsLogged clock upper (play_recovery stamp) s o =
    then_do-IsLogged clock (told_of _ _ _)
      (told-IsAside (is_done (play stamp recovered (data_of s))) "已模拟恢复连接：原问题已解决，并保留通知记录。"
        "目前没有可恢复的离线示例设备。")
      s (mutate stamp recovered s) (mutate-IsLogged clock stamp recovered s)
step-IsLogged clock upper (play_observation stamp) s o =
    then_do-IsLogged clock (shown_pile (observed_id (find is_unread (data_of s).piles)))
      (shown-IsAside (observed_id (find is_unread (data_of s).piles))) s
      (mutate stamp first_observation s) (mutate-IsLogged clock stamp first_observation s)
step-IsLogged clock upper (choose_theme stamp theme) s o =
    mutate-IsLogged clock stamp (set_theme theme) s
step-IsLogged clock upper (choose_motion stamp reduced) s o =
    mutate-IsLogged clock stamp (set_motion reduced) s
step-IsLogged clock upper (signed_in stamp register username) s o =
    let home = view_route (home_of (if is_admin_name username then admin else user)) in
    then_do-IsLogged clock (λ t. greeted register (go home t))
      (λ t. greeted-IsAside register (go home t)) s (mutate stamp (sign_in username) s)
      (mutate-IsLogged clock stamp (sign_in username) s)
step-IsLogged clock upper (select_notice stamp id) s o =
    let seen = not (offline_of s) && not (is_error s.scenario) in
    then_do-IsLogged clock (go (notice_route id)) (λ t. (refl, refl)) s
      (opened_notice seen stamp id s) (opened-IsLogged clock seen stamp id s)
step-IsLogged clock upper reset_all s o = restored-IsLogged clock s
step-IsLogged clock upper show_normal s o = idle clock s (record s { scenario = ready }) refl refl
step-IsLogged clock upper search_key s o = idle clock s (toggle_search s) refl refl
step-IsLogged clock upper toast_gone s o = idle clock s (record s { toast = none }) refl refl
step-IsLogged clock upper went_offline s o = idle clock s (record s { online = false }) refl refl
step-IsLogged clock upper went_online s o = idle clock s (record s { online = true }) refl refl
step-IsLogged clock upper (navigate route) s o = idle clock s (go route s) refl refl
step-IsLogged clock upper (open_modal modal) s o =
    idle clock s (record s { modal = modal }) refl refl
step-IsLogged clock upper (stored_elsewhere item) s o = absurd o
step-IsLogged clock upper (storage_takes writable) s o = absurd o

logged-append :
    (clock : Clock) (s t u : State) (log more : List Effect)
    → IsLogged clock s (t, log)
    → IsLogged clock t (u, more)
    → IsLogged clock s (u, log ++ more)
unfolding IsLogged
logged-append clock s t u log more (q, r) (q', r') = (
  q' ∙ ap (stored_by clock more) q ∙ sym (stored_by-append clock log more s.storage),
  ap (λ cs. waiting s.pending ++ cs) (taken-append log more)
      ∙ sym (append_assoc (waiting s.pending) (taken log) (taken more))
      ∙ ap (λ cs. cs ++ taken more) r
      ∙ append_assoc (made log) (waiting t.pending) (taken more)
      ∙ ap (λ cs. made log ++ cs) r'
      ∙ sym (append_assoc (made log) (made more) (waiting u.pending))
      ∙ ap (λ cs. cs ++ waiting u.pending) (sym (made-append log more)),
)

run_from-IsLogged :
    (clock : Clock) (upper : String → String) (es : List Event) (s : State)
    → All IsOwn es
    → IsLogged clock s (run clock upper es s)
unfolding IsLogged run_of stored_by taken made waiting
run_from-IsLogged clock upper [] s o = (refl, waiting-append s.pending)
run_from-IsLogged clock upper (e ∷ es) s (o, os) =
    let (next, log) = step clock upper e s in
    let (last, more) = run clock upper es next in
    logged-append clock s next last log more (step-IsLogged clock upper e s o)
      (run_from-IsLogged clock upper es next os)

-- Where the storage takes what it is given, cannot be read, or holds nothing, the data after a run are
-- those that the recipes written by it make of the data before; where it holds data and refuses to be
-- written, every write is lost and the data are as before. Either way the recipe that waited, with those
-- that `commit` accepts in the run, are those that are written, with the one that still waits, in this
-- order. Condition: during the run no other page writes, and the storage does not change its mind.
pub run-replay :
    (clock : Clock) (upper : String → String) (es : List Event) (s : State)
    → All IsOwn es
    → let after = run clock upper es s in
      (data_of after.0 ≡ (if takes s.storage then replay clock after.1 (data_of s) else data_of s))
      × (waiting s.pending ++ taken after.1 ≡ made after.1 ++ waiting after.0.pending)
unfolding IsLogged
run-replay clock upper es s o =
    let after = run clock upper es s in
    let (stored, once) = run_from-IsLogged clock upper es s o in
    (ap data_in stored ∙ data_in-stored_by clock after.1 s.storage, once)
