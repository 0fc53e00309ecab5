-- ===== src/Piles/Detail.antt =====
-- The pile that is shown, in frontend/components/workbench/dashboard-workbench.tsx: its name and place are
-- edited, and it is removed.
use charge_api.Prelude.{
  ℕ, Bool, true, false, Option, none, some, String, List, [], ◌∷◌, trim, get_or, if◌then◌else◌,
}
use charge_api.Types.{Pile, Port}
use charge_api.Http.{Settled, resolved, rejected, message_of}

pub data Modal : Type 0 where
  edit remove : Modal

pub record Detail : Type 0 where
  pub modal : Option Modal
  pub saving : Bool
  pub form_error : String
  pub name : String
  pub address : String

pub record PileUpdate : Type 0 where
  pub name : String
  pub address : String
  pub sort_order : ℕ

pub data Effect : Type 0 where
  update_pile : (id : String) → PileUpdate → Effect
  delete_pile : (id : String) → Effect
  fetch_snapshot load_watch : Effect
  update_page_query : List (String × Option String) → Effect
  tell_success : (title : String) → Effect

unfoldable pub open_detail : Pile → Detail
open_detail pile = record {
  modal = none;
  saving = false;
  form_error = "";
  name = pile.name;
  address = pile.address;
}

-- The two entries of the menu.
unfoldable pub start_edit : Pile → Detail → Detail
start_edit pile d = record d {
  name = pile.name;
  address = pile.address;
  form_error = "";
  modal = some edit;
}

unfoldable pub start_remove : Detail → Detail
start_remove d = record d { form_error = ""; modal = some remove }

-- `save`, up to the request and from the reply.
unfoldable pub save_begin : Pile → Detail → Detail × List Effect
save_begin pile d = (
  record d { saving = true; form_error = "" },
  update_pile pile.id (record {
    name = trim d.name;
    address = trim d.address;
    sort_order = get_or pile.sort_order 0;
  })
      ∷ [],
)

unfoldable pub save_settle : Settled (Unit {0}) → Detail → Detail × List Effect
save_settle (resolved u) d =
    (record d { modal = none; saving = false }, tell_success "充电桩资料已保存" ∷ [])
save_settle (rejected reason) d = (record d { form_error = message_of reason; saving = false }, [])

-- `remove`, up to the request, from its reply, and after both loads, however they ended.
unfoldable pub remove_begin : Pile → Detail → Detail × List Effect
remove_begin pile d = (record d { saving = true; form_error = "" }, delete_pile pile.id ∷ [])

unfoldable pub remove_settle : Settled (Unit {0}) → Detail → Detail × List Effect
remove_settle (resolved u) d = (d, fetch_snapshot ∷ load_watch ∷ [])
remove_settle (rejected reason) d =
    (record d { form_error = message_of reason; saving = false }, [])

unfoldable pub removed : Detail → Detail × List Effect
removed d = (
  record d { modal = none; saving = false },
  update_page_query (("pile", none) ∷ ("port", none) ∷ ("detail", none) ∷ [])
      ∷ tell_success "已移出常用桩，关联提醒已结束"
      ∷ [],
)

abbrev is_empty : List Port → Bool
is_empty [] = true
is_empty (_ ∷ _) = false

-- The pill beside the number.
unfoldable pub status_text : (stale : Bool) → Pile → String
status_text stale pile =
    if is_empty pile.ports
    then "尚未读取"
    else if stale
    then "最近快照"
    else if pile.online
    then "已读取"
    else "离线"
