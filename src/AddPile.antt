-- ===== src/AddPile.antt =====
-- frontend/components/add-pile-dialog.tsx: adding a pile. The React state and the lock are one record; a
-- request, a message and a call of the parent are effects.
pub mod Once
mod Tests
use Prim.Native.String
use charge_api.Prelude.{
  ℕ, ◌+◌, ◌==◌, Bool, true, false, not, ◌&&◌, ◌||◌, Option, none, some, String, List, [], ◌∷◌, trim,
  str_eq, concat, get_or, leb, if◌then◌else◌,
}
use charge_api.Types.{Pile}
use charge_api.Api.Binding.{YybBinding}
use charge_api.Http.{Reason, request_error, other_error, Settled, resolved, rejected, message_of}
use charge_api.SignIn.{utf16_length}

pub data Step : Type 0 where
  checking form binding error : Step

pub record PileForm : Type 0 where
  pub id : String
  pub name : String
  pub number : String
  pub open_num : ℕ
  pub status : String
  pub address : String

unfoldable pub empty_form : PileForm
empty_form = record { id = ""; name = ""; number = ""; open_num = 10; status = "在线"; address = "" }

pub record State : Type 0 where
  pub is_open : Bool
  pub step : Step
  pub current_binding : Option YybBinding
  pub binding_required : Bool
  pub rescan_required : Bool
  pub message : String
  pub submit_lock : Bool
  pub submitting : Bool
  pub values : PileForm
  pub online : Bool
  -- The controller of the effect that checks the binding, and the number of the next one.
  pub check : Option ℕ
  pub next_check : ℕ

unfoldable pub initial : Bool → State
initial online = record {
  is_open = false;
  step = checking;
  current_binding = none;
  binding_required = false;
  rescan_required = false;
  message = "";
  submit_lock = false;
  submitting = false;
  values = record { id = ""; name = ""; number = ""; open_num = 10; status = "在线"; address = "" };
  online = online;
  check = none;
  next_check = 0;
}

pub data Effect : Type 0 where
  get_binding : (controller : ℕ) → Effect
  add_pile : PileForm → Effect
  close_app_shell_menu : Effect
  tell_success : (title : String) → Effect
  on_added : Pile → Effect

-- The effect that checks the binding runs again.
abbrev pub recheck : State → State × List Effect
recheck s = (
  record s { check = some s.next_check; next_check = s.next_check + 1 },
  get_binding s.next_check ∷ [],
)

-- `handleOpenChange`, and the effect that follows where the dialog was opened or closed.
unfoldable pub change_open : Bool → State → State × List Effect
change_open true s =
    let s' = record s { step = checking; message = ""; is_open = true } in
    if s.is_open then (s', []) else recheck s'
change_open false s = (record s { is_open = false; check = none }, close_app_shell_menu ∷ [])

-- The button that checks again.
unfoldable pub retry : State → State × List Effect
retry s = let s' = record s { step = checking } in if s.is_open then recheck s' else (s', [])

abbrev pub is_current : ℕ → Option ℕ → Bool
is_current k none = false
is_current k (some j) = j == k

-- `next.scanEnabled === true && !next.bound`.
abbrev pub is_required : YybBinding → Bool
is_required next = get_or next.scan_enabled false && not next.bound

-- The reply to the check with controller `k`: none that was aborted is heard.
unfoldable pub check_settle : ℕ → Settled YybBinding → State → State
check_settle k (resolved next) s =
    if is_current k s.check
    then record s {
      current_binding = some next;
      binding_required = is_required next;
      rescan_required = false;
      step = if is_required next then binding else form;
      message = "";
    }
    else s
check_settle k (rejected reason) s =
    if is_current k s.check then record s { message = message_of reason; step = error } else s

-- `onContinue` of the binding.
unfoldable pub continue_with : YybBinding → State → State
continue_with next s = record s {
  current_binding = some next;
  binding_required = false;
  rescan_required = false;
  message = "";
  step = form;
}

-- `text.slice(-6)`, for a text of the first plane.
unfoldable pub last_six : String → String
last_six String.[] = ""
last_six (String.◌∷◌ c s) =
    let rest = last_six s in if leb (utf16_length (String.◌∷◌ c s)) 6 then String.◌∷◌ c s else rest

-- `text || other`.
abbrev pub text_or : String → String → String
text_or text other = if str_eq text "" then other else text

unfoldable pub payload : PileForm → PileForm
payload f =
    let id = trim f.id in
    let number = trim f.number in
    record {
      id = id;
      name = text_or (trim f.name) (concat ("充电桩 " ∷ text_or number (last_six id) ∷ []));
      number = number;
      open_num = f.open_num;
      status = text_or (trim f.status) "在线";
      address = trim f.address;
    }

-- `submit`, up to the request.
unfoldable pub submit_begin : State → State × List Effect
submit_begin s = if s.submit_lock || s.binding_required || not s.online then (s, []) else (
  record s { submit_lock = true; message = ""; submitting = true },
  add_pile (payload s.values) ∷ [],
)

abbrev pub code_of : Reason → String
code_of (request_error message status code) = get_or code ""
code_of (other_error message) = ""

-- `submit`, from the reply.
unfoldable pub submit_settle : Settled Pile → State → State × List Effect
submit_settle (resolved added) s = (
  record s {
    values = empty_form;
    is_open = false;
    check = none;
    submit_lock = false;
    submitting = false;
  },
  close_app_shell_menu ∷ tell_success "充电桩已添加" ∷ on_added added ∷ [],
)
submit_settle (rejected reason) s =
    let rescan = str_eq (code_of reason) "YYB_RESCAN_REQUIRED" in
    let s' = record s { message = message_of reason; submit_lock = false; submitting = false } in
    if rescan || str_eq (code_of reason) "YYB_BINDING_REQUIRED"
    then (record s' { binding_required = true; rescan_required = rescan }, [])
    else (s', [])
