-- ===== src/Prototype/App.antt =====
-- PrototypeProvider of frontend/app/prototype/context.tsx: one record for its React state, the lock and the storage
-- of the data
-- that it keeps. A recipe that `commit` accepts waits for 320 milliseconds: it is `pending`, and `commit` is two
-- functions, up to the wait (commit_begin) and from there (commit_settle).
use charge_api.Prelude.{
  ℕ, Bool, true, false, not, ◌||◌, Option, none, some, String, List, [], ◌∷◌, is_some,
  if◌then◌else◌,
}
use charge_api.Prototype.Model.{
  Scenario, ready, empty, offline, View, piles, Route, PrototypeData, Clock,
}
use charge_api.Prototype.Storage.{Storage, data_in, put_data, update_data}
use charge_api.Prototype.Seed.{initial_data}
use charge_api.Prototype.Recipes.{Change, apply}
use charge_api.Prototype.Plays.{Play}

pub data ModalKind : Type 0 where
  add edit remove watch search preview guide scan cookie wx_bind unlink password : ModalKind
  sessions logout create_user reset_password delete_user invite clear_notices : ModalKind

pub record ModalState : Type 0 where
  pub kind : ModalKind
  pub id : Option String
  pub return_to_add : Bool

pub data Tone : Type 0 where
  success error info : Tone

pub record Toast : Type 0 where
  pub message : String
  pub tone : Tone

-- What a page does where `commit` gives true.
pub data After : Type 0 where
  nothing close show_ready : After
  show_pile : (id : String) → After
  go_to : Route → After

-- The arguments of `commit`, and what follows it.
pub record Request : Type 0 where
  pub change : Change
  pub success : String
  pub tone : Tone
  pub after : After

-- `scenario` is that of the render in which `commit` was called.
pub record Pending : Type 0 where
  pub request : Request
  pub scenario : Scenario

pub record State : Type 0 where
  pub storage : Storage
  pub route : Route
  pub scenario : Scenario
  pub online : Bool
  pub modal : Option ModalState
  pub toast : Option Toast
  pub busy : String
  pub pending : Option Pending

abbrev pub view_route : View → Route
view_route view = record { view = view; id = none; tab = none; port = none }

-- The data that the provider reads.
abbrev pub data_of : State → PrototypeData
data_of s = data_in s.storage

-- The preview is opened in a browser whose storage holds nothing; `readable`: the storage can be read.
unfoldable pub start : (readable : Bool) → State
start readable = record {
  storage = record { readable = readable; writable = true; item = none; memory = initial_data };
  route = record { view = piles; id = none; tab = none; port = none };
  scenario = ready;
  online = true;
  modal = none;
  toast = none;
  busy = "";
  pending = none;
}

-- What is done with the data, in order, and the error that a form shows.
pub data Effect : Type 0 where
  accepted : Change → Effect
  wrote : (stamp : ℕ) → Change → Effect
  wrote_play : (stamp : ℕ) → Play → Effect
  restored : Effect
  set_error : (message : String) → Effect

abbrev is_offline : Scenario → Bool
is_offline offline = true
is_offline _ = false

abbrev is_error : Scenario → Bool
is_error Scenario.error = true
is_error _ = false

abbrev is_empty : Scenario → Bool
is_empty empty = true
is_empty _ = false

abbrev pub offline_of : State → Bool
offline_of s = not s.online || is_offline s.scenario

abbrev pub notify : String → Tone → State → State
notify message tone s = record s { toast = some (record { message = message; tone = tone }) }

abbrev pub go : Route → State → State
go route s = record s { route = route; modal = none }

-- `commit`, up to the wait: it gives false, or waits.
unfoldable pub commit_begin : Request → State → State × List Effect
commit_begin request s =
    if is_some s.pending
    then (s, [])
    else if offline_of s
    then (notify "当前离线，更改尚未保存。联网后可重试。" error s, [])
    else if is_error s.scenario
    then (record (notify "这次操作未成功，填写内容已保留，可以再次尝试。" error s) { scenario = ready }, [])
    else (
      record s {
        pending = some (record { request = request; scenario = s.scenario });
        busy = request.success;
      },
      accepted request.change ∷ [],
    )

abbrev pub follow : After → State → State
follow nothing s = s
follow close s = record s { modal = none }
follow show_ready s = record s { scenario = ready }
follow (show_pile id) s = record s {
  scenario = ready;
  route = record { view = piles; id = some id; tab = none; port = none };
  modal = none;
}
follow (go_to route) s = go route s

-- The rest of `commit`, and of the page that waits for it.
abbrev pub settled : Clock → (stamp : ℕ) → Option Pending → State → State × List Effect
settled clock stamp none s = (s, [])
settled clock stamp (some p) s = (
  follow p.request.after (record s {
    storage = update_data (apply clock stamp p.request.change) s.storage;
    scenario = if is_empty p.scenario then ready else s.scenario;
    toast = some (record { message = p.request.success; tone = p.request.tone });
    busy = "";
    pending = none;
  }),
  wrote stamp p.request.change ∷ [],
)

unfoldable pub commit_settle : Clock → (stamp : ℕ) → State → State × List Effect
unfolding apply
commit_settle clock stamp s = settled clock stamp s.pending s

unfoldable pub reset : State → State × List Effect
unfolding initial_data put_data
reset s = (
  notify "示例数据已恢复。" success (
      go (view_route piles)
        (record s { storage = put_data initial_data s.storage; scenario = ready })),
  restored ∷ [],
)

abbrev is_search : ModalKind → Bool
is_search search = true
is_search _ = false

abbrev pub shows_search : Option ModalState → Bool
shows_search none = false
shows_search (some modal) = is_search modal.kind

abbrev pub modal_of : ModalKind → ModalState
modal_of kind = record { kind = kind; id = none; return_to_add = false }

-- The key that opens the search, and closes it.
unfoldable pub toggle_search : State → State
toggle_search s = record s { modal = if shows_search s.modal then none else some (modal_of search) }
