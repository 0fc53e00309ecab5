-- ===== src/Announcements/Reader.antt =====
-- frontend/components/announcement-reader.tsx: one announcement, or the list of all.
use charge_api.Prelude.{
  ℕ, ◌+◌, ◌==◌, Bool, true, false, not, ◌&&◌, ◌||◌, Option, none, some, String, List, [], ◌∷◌,
  str_eq, concat, decimal, if◌then◌else◌,
}
use charge_api.Http.{Settled, resolved, rejected, message_of}
use charge_api.Announcements.{
  Announcement, AnnouncementPage, Status, draft, scheduled, active, ended, withdrawn, published,
}

pub record Reader : Type 0 where
  pub page : ℕ
  pub shown : Option Announcement
  pub list : Option AnnouncementPage
  pub error : String
  pub loading : Bool
  pub busy : Bool
  pub changed : Bool
  pub version : ℕ
  pub lock : Bool
  pub online : Bool

unfoldable pub start : Bool → Reader
start online = record {
  page = 1;
  shown = none;
  list = none;
  error = "";
  loading = true;
  busy = false;
  changed = false;
  version = 0;
  lock = false;
  online = online;
}

pub data Effect : Type 0 where
  get_announcements : (path : String) → (current : ℕ) → Effect
  send_acknowledge : (id : String) → (version reminder_version : ℕ) → (current : ℕ) → Effect
  on_acknowledged : Effect

-- `load`, up to the request; `encode` is `encodeURIComponent`.
unfoldable pub load_begin :
    (encode : String → String) → (selection : String) → Reader → Reader × List Effect
load_begin encode selection r = (
  record r { loading = true; error = ""; changed = false },
  get_announcements
        (if str_eq selection "all"
          then concat ("/api/announcements?page=" ∷ decimal r.page ∷ [])
          else concat ("/api/announcements/" ∷ encode selection ∷ []))
        r.version
      ∷ [],
)

-- What `load` was given.
pub data Loaded : Type 0 where
  a_page : AnnouncementPage → Loaded
  an_announcement : Announcement → Loaded

abbrev pub with_loaded : Loaded → Reader → Reader
with_loaded (a_page next) r = record r { list = some next; loading = false }
with_loaded (an_announcement next) r = record r { shown = some next; loading = false }

-- `load`, from the reply to the request of version `current`, with the signal as it is then.
unfoldable pub load_settle : (aborted : Bool) → ℕ → Settled Loaded → Reader → Reader
load_settle aborted current (resolved next) r =
    if not aborted && current == r.version then with_loaded next r else r
load_settle aborted current (rejected reason) r =
    if not aborted && current == r.version
    then record r { shown = none; list = none; error = message_of reason; loading = false }
    else r

-- The second effect: its start, its delayed part, and its cleanup.
unfoldable pub turn : Reader → Reader
turn r = record r { version = r.version + 1 }

unfoldable pub turn_later :
    (encode : String → String)
    → (aborted : Bool) → (selection : String) → Reader
    → Reader × List Effect
turn_later encode aborted selection r =
    if aborted
    then (r, [])
    else load_begin encode selection (record r { shown = none; list = none })

unfoldable pub leave : Reader → Reader
leave r = record r { version = r.version + 1 }

abbrev pub same_status : Status → Status → Bool
same_status draft draft = true
same_status scheduled scheduled = true
same_status active active = true
same_status ended ended = true
same_status withdrawn withdrawn = true
same_status published published = true
same_status _ _ = false

-- `check`, from the reply: `given` is the announcement of the render that set the timer.
unfoldable pub check_settle :
    (aborted : Bool) → Announcement → Settled Announcement → Reader → Reader
check_settle aborted given (resolved next) r =
    if not aborted
      && (not (next.version == given.version) || not (same_status next.status given.status))
    then record r { changed = true }
    else r
check_settle aborted given (rejected reason) r = if aborted then r else record r { changed = true }

abbrev acknowledge_with : Option Announcement → Reader → Reader × List Effect
acknowledge_with none r = (r, [])
acknowledge_with (some given) r = if r.lock || not r.online then (r, []) else (
  record r { lock = true; busy = true; error = "" },
  send_acknowledge given.id given.version given.reminder_version r.version ∷ [],
)

-- `acknowledge`, up to the request and from the reply; `given` is the announcement that was sent.
unfoldable pub acknowledge_begin : Reader → Reader × List Effect
acknowledge_begin r = acknowledge_with r.shown r

unfoldable pub acknowledge_settle :
    ℕ → Announcement → Settled (Unit {0}) → Reader → Reader × List Effect
acknowledge_settle current given (resolved u) r =
    if current == r.version
    then (
      record r { shown = some (record given { acknowledged = true }); lock = false; busy = false },
      on_acknowledged ∷ [],
    )
    else (record r { lock = false; busy = false }, [])
acknowledge_settle current given (rejected reason) r =
    if current == r.version
    then (record r { error = message_of reason; changed = true; lock = false; busy = false }, [])
    else (record r { lock = false; busy = false }, [])

abbrev is_active : Status → Bool
is_active active = true
is_active _ = false

abbrev closed_for : Option Announcement → Bool
closed_for none = true
closed_for (some given) = given.acknowledged || not (is_active given.status)

-- The `disabled` of the button that acknowledges, and of a reader without an announcement.
unfoldable pub is_disabled : Reader → Bool
is_disabled r = not r.online || r.busy || r.changed || closed_for r.shown
