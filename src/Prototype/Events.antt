-- ===== src/Prototype/Events.antt =====
-- What can happen to the preview, and runs of such events.
use charge_api.Prelude.{
  ℕ, Bool, true, false, not, ◌&&◌, Option, none, some, String, List, [], ◌∷◌, is_truthy, run_of,
  get_or, if◌then◌else◌,
}
use charge_api.Types.{Pile}
use charge_api.Prototype.Model.{
  Role, user, admin, guest, Scenario, ready, View, piles, login, notifications, Route, Theme,
  PrototypeData, Clock,
}
use charge_api.Prototype.Storage.{update_data}
use charge_api.Prototype.Update.{find}
use charge_api.Prototype.Plays.{
  Play, set_role, found_idle, recovered, first_observation, set_theme, set_motion, sign_in,
  open_notice, play, is_unread, is_admin_name,
}
use charge_api.Prototype.App.{
  data_of, guide, ModalState, success, info, State, Effect, wrote_play, set_error, offline_of,
  notify, go, commit_begin, commit_settle, reset, toggle_search, modal_of, view_route,
}
use charge_api.Prototype.Forms.{Form, Answer, refused, asked, opened, told, disabled}
use charge_api.Prototype.Answers.{answer}

pub data Event : Type 0 where
  submit : Form → Event
  -- The wait of `commit` is over.
  elapsed : (stamp : ℕ) → Event
  -- The preview's dialog: a role and a scenario, and the three things it plays.
  apply_preview : (stamp : ℕ) → Role → Scenario → Event
  play_idle play_recovery play_observation : (stamp : ℕ) → Event
  choose_theme : (stamp : ℕ) → Theme → Event
  choose_motion : (stamp : ℕ) → (reduced : Bool) → Event
  -- The wait of the sign-in is over.
  signed_in : (stamp : ℕ) → (register : Bool) → (username : String) → Event
  select_notice : (stamp : ℕ) → (id : String) → Event
  show_normal reset_all search_key toast_gone went_offline went_online : Event
  navigate : Route → Event
  open_modal : Option ModalState → Event
  -- `storage`: another page of the browser has written the data, or removed them.
  stored_elsewhere : Option PrototypeData → Event
  -- The storage refuses what it is given from now on, or takes it again.
  storage_takes : (writable : Bool) → Event

-- `mutate`: the recipe is written at once; one that returns early writes the data back as they were.
abbrev pub played : (stamp : ℕ) → Play → PrototypeData → PrototypeData
played stamp p d = get_or (play stamp p d) d

unfoldable pub mutate : (stamp : ℕ) → Play → State → State × List Effect
unfolding play update_data
mutate stamp p s =
    (record s { storage = update_data (played stamp p) s.storage }, wrote_play stamp p ∷ [])

abbrev pub opened_notice : Bool → (stamp : ℕ) → (id : String) → State → State × List Effect
opened_notice true stamp id s = mutate stamp (open_notice id) s
opened_notice false stamp id s = (s, [])

abbrev pub then_do : (State → State) → State × List Effect → State × List Effect
then_do f (s, effects) = (f s, effects)

abbrev pub same_role : Role → Role → Bool
same_role user user = true
same_role admin admin = true
same_role guest guest = true
same_role _ _ = false

abbrev pub home_of : Role → View
home_of admin = View.admin
home_of guest = login
home_of user = piles

-- The page of another role is shown, and the dialog closes.
abbrev pub previewed : (same : Bool) → Role → State → State
previewed true role s = record s { modal = none }
previewed false role s = go (view_route (home_of role)) s

-- `event`: what follows, by whether the recipe did anything.
abbrev pub told_of : (performed : Bool) → (done undone : String) → State → State
told_of true done undone s =
    notify done success (go (view_route notifications) (record s { scenario = ready }))
told_of false done undone s = notify undone info s

abbrev pub is_done : Option PrototypeData → Bool
is_done none = false
is_done (some _) = true

abbrev pub observed_id : Option Pile → Option String
observed_id none = none
observed_id (some p) = some p.id

-- `if (deviceId)`.
abbrev pub shown_pile : Option String → State → State
shown_pile none s = s
shown_pile (some id) s =
    if is_truthy (some id)
    then notify "已模拟首次读取，展示明确标注的示例端口数据。" success (
        go (record { view = piles; id = some id; tab = none; port = none })
          (record s { scenario = ready }))
    else s

abbrev pub greeted : (register : Bool) → State → State
greeted true s = record (notify "演示账户已创建；没有创建真实账户。" success s) { modal = some (modal_of guide) }
greeted false s = notify "已进入演示账户。" success s

abbrev pub is_error : Scenario → Bool
is_error Scenario.error = true
is_error _ = false

abbrev pub answered : Answer → State → State × List Effect
answered (refused message) s = (s, set_error message ∷ [])
answered (asked request) s = commit_begin request s
answered (opened kind) s = (record s { modal = some (modal_of kind) }, [])
answered (told message) s = (notify message info s, [])
answered disabled s = (s, [])

abbrev pub notice_route : String → Route
notice_route id = record { view = notifications; id = some id; tab = none; port = none }

module _ (clock : Clock) (upper : String → String) where
  unfoldable pub step : Event → State → State × List Effect
  unfolding answer commit_begin commit_settle reset toggle_search mutate find
  step (submit form) s = answered (answer clock upper form s) s
  step (elapsed stamp) s = commit_settle clock stamp s
  step (apply_preview stamp role scenario) s =
      then_do
        (λ t.
          previewed (same_role role (data_of s).demo_role) role (record t { scenario = scenario }))
        (mutate stamp (set_role role) s)
  step (play_idle stamp) s =
      then_do
        (told_of (is_done (play stamp found_idle (data_of s))) "已模拟发现空闲：提醒自动结束，并生成通知。"
          "请先创建一条正在等待的提醒。")
        (mutate stamp found_idle s)
  step (play_recovery stamp) s =
      then_do
        (told_of (is_done (play stamp recovered (data_of s))) "已模拟恢复连接：原问题已解决，并保留通知记录。"
          "目前没有可恢复的离线示例设备。")
        (mutate stamp recovered s)
  step (play_observation stamp) s =
      then_do (shown_pile (observed_id (find is_unread (data_of s).piles)))
        (mutate stamp first_observation s)
  step (choose_theme stamp theme) s = mutate stamp (set_theme theme) s
  step (choose_motion stamp reduced) s = mutate stamp (set_motion reduced) s
  step (signed_in stamp register username) s =
      then_do
        (λ t.
          greeted register
            (go (view_route (home_of (if is_admin_name username then admin else user))) t))
        (mutate stamp (sign_in username) s)
  step (select_notice stamp id) s =
      then_do (go (notice_route id))
        (opened_notice (not (offline_of s) && not (is_error s.scenario)) stamp id s)
  step show_normal s = (record s { scenario = ready }, [])
  step reset_all s = reset s
  step search_key s = (toggle_search s, [])
  step toast_gone s = (record s { toast = none }, [])
  step went_offline s = (record s { online = false }, [])
  step went_online s = (record s { online = true }, [])
  step (navigate route) s = (go route s, [])
  step (open_modal modal) s = (record s { modal = modal }, [])
  step (stored_elsewhere item) s = (record s { storage = record s.storage { item = item } }, [])
  step (storage_takes writable) s =
      (record s { storage = record s.storage { writable = writable } }, [])

  -- The state after the events, and what was done with the data.
  abbrev pub run : List Event → State → State × List Effect
  run = run_of step
