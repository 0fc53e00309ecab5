-- ===== src/Binding.antt =====
-- frontend/components/yyb-binding-flow.tsx: binding an account by a QR code. The React state and the
-- refs are one record; a request is an effect with the epoch that it was made in, and its reply is an
-- event of its own.
pub mod Events
pub mod Guards
pub mod Polling
mod Tests
use charge_api.Prelude.{
  ℕ, ◌+◌, ◌==◌, Bool, true, false, not, ◌&&◌, ◌||◌, Option, none, some, String, List, [], ◌∷◌,
  str_eq, concat, is_some, is_truthy, ltb, if◌then◌else◌,
}
use charge_api.Api.Binding.{YybBinding, YybQr, YybQrPoll}
use charge_api.Http.{Settled, resolved, rejected, message_of}

-- The keys of `statusText`.
pub data Status : Type 0 where
  pending scanned authorized confirmed confirming expired cancelled unknown : Status

-- `statusText[next.status] ? next.status : "unknown"`.
unfoldable pub status_of : String → Status
status_of s =
    if str_eq s "pending"
    then pending
    else if str_eq s "scanned"
    then scanned
    else if str_eq s "authorized"
    then authorized
    else if str_eq s "confirmed"
    then confirmed
    else if str_eq s "confirming"
    then confirming
    else if str_eq s "expired"
    then expired
    else if str_eq s "cancelled"
    then cancelled
    else unknown

-- `readyStatuses` and `waitingStatuses`.
abbrev pub is_ready : Status → Bool
is_ready authorized = true
is_ready confirmed = true
is_ready _ = false

abbrev pub is_waiting : Status → Bool
is_waiting pending = true
is_waiting scanned = true
is_waiting confirming = true
is_waiting _ = false

pub record State : Type 0 where
  pub qr : Option YybQr
  pub status : Status
  pub result : Option YybBinding
  pub error : String
  pub loading : Bool
  pub busy : Bool
  pub failures : ℕ
  pub revision : ℕ
  pub epoch : ℕ
  -- `operation.current` is a controller.
  pub operation : Bool
  pub mounted : Bool
  -- `navigator.onLine`, which `useOnline` reads too.
  pub online : Bool

unfoldable pub initial : Bool → State
initial online = record {
  qr = none;
  status = pending;
  result = none;
  error = "";
  loading = false;
  busy = false;
  failures = 0;
  revision = 0;
  epoch = 0;
  operation = false;
  mounted = true;
  online = online;
}

-- What the component does outside: the request that is sent in an epoch, for the session of a QR
-- code, and the abort of the one on its way.
pub data Effect : Type 0 where
  send_create : (epoch : ℕ) → Effect
  send_poll : (epoch : ℕ) → YybQr → Effect
  send_confirm : (epoch : ℕ) → YybQr → Effect
  abort : Effect

-- `operation.current?.abort()`.
abbrev pub aborts : Bool → List Effect
aborts true = abort ∷ []
aborts false = []

-- `mounted.current && version === epoch.current`.
abbrev pub is_live : ℕ → State → Bool
is_live version s = s.mounted && version == s.epoch

unfoldable pub create_begin : State → State × List Effect
create_begin s = (
  record s {
    epoch = s.epoch + 1;
    operation = true;
    qr = none;
    result = none;
    status = pending;
    error = "";
    failures = 0;
    busy = false;
    loading = true;
  },
  elim s.operation [
    | true ↦ abort ∷ send_create (s.epoch + 1) ∷ []
    | false ↦ send_create (s.epoch + 1) ∷ []
  ],
)

-- `next.sessionId && (next.imageBase64 || next.imageUrl)`.
abbrev pub is_usable : YybQr → Bool
is_usable next =
    is_truthy (some next.session_id) && (is_truthy next.image_base64 || is_truthy next.image_url)

unfoldable pub create_settle : ℕ → Settled YybQr → State → State
create_settle version (resolved next) s =
    if not (is_live version s)
    then s
    else if is_usable next
    then record s { qr = some next; operation = false; loading = false }
    else record s { error = "二维码暂时无法显示，请重新生成。"; operation = false; loading = false }
create_settle version (rejected reason) s =
    if not (is_live version s)
    then s
    else record s { error = message_of reason; operation = false; loading = false }

-- The listener of "offline".
unfoldable pub disconnect : State → State × List Effect
disconnect s = (
  record s {
    epoch = s.epoch + 1;
    operation = false;
    busy = false;
    loading = false;
    status = pending;
    error = "连接已中断，请恢复连接后重新检查。";
    failures = 3;
    online = false;
  },
  aborts s.operation,
)

-- The cleanup of the first effect.
unfoldable pub unmount : State → State × List Effect
unmount s = (record s { mounted = false; epoch = s.epoch + 1 }, aborts s.operation)

abbrev check_with : Option YybQr → State → State × List Effect
check_with none s = (s, [])
check_with (some qr) s =
    if s.operation || not s.online
    then (s, [])
    else (record s { operation = true; busy = true }, send_poll s.epoch qr ∷ [])

unfoldable pub check_begin : State → State × List Effect
check_begin s = check_with s.qr s

abbrev pub is_session : Option String → String → Bool
is_session none id = false
is_session (some s) id = str_eq s id

-- `next.status === "saved" && next.binding?.bound && next.binding.sessionId === qr.sessionId`.
abbrev pub saved_binding : Option YybBinding → YybQr → YybQrPoll → Option YybBinding
saved_binding none qr next = none
saved_binding (some b) qr next =
    if str_eq next.status "saved" && b.bound && is_session b.session_id qr.session_id
    then some b
    else none

abbrev with_binding : Option YybBinding → Status → State → State
with_binding (some b) status s = record s { result = some b }
with_binding none status s = record s { status = status }

-- The `finally` of a live reply.
abbrev pub done : State → State
done s = record s { operation = false; busy = false; revision = s.revision + 1 }

-- `check`, from the reply to the poll of the code `qr`.
unfoldable pub check_settle : ℕ → YybQr → Settled YybQrPoll → State → State
unfolding status_of
check_settle version qr (resolved next) s =
    if not (is_live version s)
    then s
    else if str_eq next.session_id qr.session_id
    then record (done
        (with_binding (saved_binding next.binding qr next) (status_of next.status) s)) {
          failures = 0;
          error = "";
        }
    else record (done s) { failures = s.failures + 1; error = "扫码会话不匹配，请重新检查。" }
check_settle version qr (rejected reason) s =
    if not (is_live version s)
    then s
    else record (done s) { failures = s.failures + 1; error = message_of reason }

-- The guard of the timer that checks by itself.
unfoldable pub is_due : State → Bool
is_due s =
    s.online
    && is_some s.qr
    && not (is_some s.result)
    && not s.loading
    && not s.busy
    && ltb s.failures 3
    && is_waiting s.status

abbrev confirm_with : Option YybQr → State → State × List Effect
confirm_with none s = (s, [])
confirm_with (some qr) s =
    if not s.online || s.operation || not (is_ready s.status) || is_truthy (some s.error)
    then (s, [])
    else (
      record s { operation = true; busy = true; status = confirming },
      send_confirm s.epoch qr ∷ [],
    )

unfoldable pub confirm_begin : State → State × List Effect
confirm_begin s = confirm_with s.qr s

-- `next.sessionId && next.sessionId !== qr.sessionId`.
abbrev pub is_other_session : Option String → String → Bool
is_other_session none id = false
is_other_session (some s) id = is_truthy (some s) && not (str_eq s id)

abbrev pub unconfirmed : State → State
unconfirmed s = record (done s) { error = "绑定结果暂时无法确认，请重新检查；不会重复提交。"; failures = 0 }

-- `confirm`, from the reply.
unfoldable pub confirm_settle : ℕ → YybQr → Settled YybBinding → State → State
confirm_settle version qr (resolved next) s =
    if not (is_live version s)
    then s
    else if not next.bound || is_other_session next.session_id qr.session_id
    then unconfirmed s
    else record (done s) { result = some next; error = "" }
confirm_settle version qr (rejected reason) s = if not (is_live version s) then s else unconfirmed s
