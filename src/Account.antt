-- ===== src/Account.antt =====
-- The connection to the charging platform: `PlatformConnection` of
-- frontend/components/workbench/account-workbench.tsx, and the form of
-- frontend/components/manual-cookie-form.tsx (Cookie).
pub mod Cookie
use charge_api.Prelude.{
  ◌≡◌, refl, Bool, true, false, Option, none, some, String, List, [], ◌∷◌, str_eq, trim,
  if◌then◌else◌,
}
use charge_api.Types.{Pile}
use charge_api.Http.{Reason, Settled, resolved, rejected, message_of}

-- `B` is the binding that the server names.
pub record State (B : Type 0) : Type 0 where
  pub binding : Option B
  pub error : String
  pub loading : Bool
  pub scan_open : Bool
  pub cookie_open : Bool
  pub unlink_open : Bool
  pub cookie : String
  pub busy : Bool
  pub form_error : String

pub data Effect : Type 0 where
  get_binding delete_binding fetch_snapshot : Effect
  sync_cookie : (device_id : String) → Effect
  update_cookie : (cookie : String) → Effect
  tell_success : (title : String) → Effect
  tell_error : Reason → (title : String) → Effect

-- `params.get("connect") === "1"`.
abbrev connects : Option String → Bool
connects none = false
connects (some s) = str_eq s "1"

module _ {B : Type 0} where
  unfoldable pub initial : Option String → State B
  initial connect = record {
    binding = none;
    error = "";
    loading = true;
    scan_open = connects connect;
    cookie_open = false;
    unlink_open = false;
    cookie = "";
    busy = false;
    form_error = "";
  }

  unfoldable pub load_begin : State B → State B × List Effect
  load_begin s = (record s { loading = true; error = "" }, get_binding ∷ [])

  unfoldable pub load_settle : Settled B → State B → State B
  load_settle (resolved binding) s = record s { binding = some binding; loading = false }
  load_settle (rejected reason) s = record s { error = message_of reason; loading = false }

  -- `sync`: up to the request, from its reply, from that of the snapshot, and after the load that
  -- follows, however that ended.
  unfoldable pub sync_begin : List Pile → State B → State B × List Effect
  sync_begin [] s = (s, [])
  sync_begin (pile ∷ piles) s =
      if str_eq pile.id "" then (s, []) else (record s { busy = true }, sync_cookie pile.id ∷ [])

  unfoldable pub sync_settle : Settled (Unit {0}) → State B → State B × List Effect
  sync_settle (resolved u) s = (s, fetch_snapshot ∷ [])
  sync_settle (rejected reason) s = (record s { busy = false }, tell_error reason "同步未完成" ∷ [])

  unfoldable pub sync_snapshot_settle : Settled (Unit {0}) → State B → State B × List Effect
  unfolding load_begin
  sync_snapshot_settle (resolved u) s = load_begin s
  sync_snapshot_settle (rejected reason) s =
      (record s { busy = false }, tell_error reason "同步未完成" ∷ [])

  unfoldable pub synced : State B → State B × List Effect
  synced s = (record s { busy = false }, tell_success "平台凭据已同步" ∷ [])

  unfoldable pub save_cookie_begin : State B → State B × List Effect
  save_cookie_begin s =
      if str_eq (trim s.cookie) ""
      then (record s { form_error = "请填写有效的 Cookie。" }, [])
      else (record s { busy = true; form_error = "" }, update_cookie (trim s.cookie) ∷ [])

  unfoldable pub save_cookie_settle : Settled (Unit {0}) → State B → State B × List Effect
  save_cookie_settle (resolved u) s =
      (record s { cookie = ""; cookie_open = false; busy = false }, tell_success "访问凭据已更新" ∷ [])
  save_cookie_settle (rejected reason) s =
      (record s { form_error = message_of reason; busy = false }, [])

  -- `unlink`: up to the request, from its reply, and after the load that follows.
  unfoldable pub unlink_begin : State B → State B × List Effect
  unlink_begin s = (record s { busy = true; form_error = "" }, delete_binding ∷ [])

  unfoldable pub unlink_settle : Settled (Unit {0}) → State B → State B × List Effect
  unfolding load_begin
  unlink_settle (resolved u) s = load_begin (record s { unlink_open = false })
  unlink_settle (rejected reason) s =
      (record s { form_error = message_of reason; busy = false }, [])

  unfoldable pub unlinked : State B → State B × List Effect
  unlinked s = (record s { busy = false }, tell_success "平台绑定已解除" ∷ [])

  -- A synchronization that succeeds reads the snapshot first and the binding then, and whichever of
  -- its parts fails, the page can be used again and the binding that was shown is kept.
  sync_lem :
      (pile : Pile) (piles : List Pile) (b : Settled B) (reason : Reason) (s : State B)
      → str_eq pile.id "" ≡ false
      → let begun = sync_begin (pile ∷ piles) s in
        let snapped = sync_snapshot_settle (resolved tt) (sync_settle (resolved tt) begun.0).0 in
        (begun.1 ≡ sync_cookie pile.id ∷ [])
        × ((sync_settle (resolved tt) begun.0).1 ≡ fetch_snapshot ∷ [])
        × (snapped.1 ≡ get_binding ∷ [])
        × ((synced (load_settle b snapped.0)).0.busy ≡ false)
        × ((sync_settle (rejected reason) begun.0).0 ≡ record s { busy = false })
        × ((sync_snapshot_settle (rejected reason) begun.0).0 ≡ record s { busy = false })
  unfolding sync_begin sync_settle sync_snapshot_settle synced load_settle
  sync_lem pile piles b reason s h = rw h (refl, refl, refl, refl, refl, refl)
