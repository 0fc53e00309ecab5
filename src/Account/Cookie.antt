-- ===== src/Account/Cookie.antt =====
-- frontend/components/manual-cookie-form.tsx.
use charge_api.Prelude.{
  ◌≡◌, arith, Bool, true, false, not, ◌||◌, String, List, [], ◌∷◌, str_eq, trim, All, any, run_of,
  run_of-none, if◌then◌else◌,
}
use charge_api.Http.{Settled, resolved, rejected, message_of}

pub record Form : Type 0 where
  pub lock : Bool
  pub cookie : String
  pub busy : Bool
  pub message : String
  pub online : Bool

pub data Effect : Type 0 where
  update_cookie : (cookie : String) → Effect
  on_saved : Effect

-- `save`, up to the request and from the reply.
unfoldable pub save_begin : Form → Form × List Effect
save_begin f =
    if f.lock || str_eq (trim f.cookie) "" || not f.online
    then (f, [])
    else (record f { lock = true; busy = true; message = "" }, update_cookie (trim f.cookie) ∷ [])

unfoldable pub save_settle : Settled (Unit {0}) → Form → Form × List Effect
save_settle (resolved u) f =
    (record f { cookie = ""; message = "Cookie 已更新"; lock = false; busy = false }, on_saved ∷ [])
save_settle (rejected reason) f =
    (record f { message = message_of reason; lock = false; busy = false }, [])

pub data Event : Type 0 where
  edited : String → Event
  save : Event
  saved : Settled (Unit {0}) → Event
  line : (online : Bool) → Event

unfoldable pub step : Event → Form → Form × List Effect
step (edited text) f = (record f { cookie = text }, [])
step save f = save_begin f
step (saved reply) f = save_settle reply f
step (line online) f = (record f { online = online }, [])

abbrev is_update : Effect → Bool
is_update (update_cookie cookie) = true
is_update on_saved = false

abbrev IsNoReply : Event → Type 0
IsNoReply (saved reply) = ⊥
IsNoReply _ = Unit

abbrev IsLocked : Form → Type 0
IsLocked f = f.lock ≡ true

step-IsLocked :
    (e : Event) (f : Form)
    → IsNoReply e
    → IsLocked f
    → IsLocked (step e f).0 × (any is_update (step e f).1 ≡ false)
unfolding step save_begin
step-IsLocked (edited text) f n h = ground arith
step-IsLocked save f n h = ground arith
step-IsLocked (saved reply) f n h = absurd n
step-IsLocked (line online) f n h = ground arith

-- While a credential is being saved no other is sent.
run-save_once :
    (es : List Event) (f : Form)
    → IsLocked f
    → All IsNoReply es
    → any is_update (run_of step es f).1 ≡ false
run-save_once es f h n = run_of-none step IsLocked IsNoReply is_update step-IsLocked es f n h
