-- ===== src/Feedback.antt =====
-- frontend/lib/feedback.ts: what is shown for a success, a warning or an error. The toast library is not
-- part of the source: a toast is the value that its function is called with.
pub mod Messages
mod Tests
use charge_api.Prelude.{
  ℕ, ◌<◌, Bool, true, false, not, ◌&&◌, ◌||◌, Option, none, some, String, List, [], ◌∷◌, str_eq,
  trim, concat, ltb, get_or, is_some, if◌then◌else◌, is_truthy,
}
use Prim.Native.Nat.{max}
use charge_api.Banner.{FeedbackBannerSeverity, critical, FeedbackBannerAction, FeedbackBannerInput}

-- A `ReactNode`: a text, or anything else, known by a number.
pub data ReactNode : Type 0 where
  text : String → ReactNode
  node : ℕ → ReactNode

-- `reason: unknown`.
pub data Unknown : Type 0 where
  an_error : (message : String) → Unknown
  a_text : String → Unknown
  other : Unknown

-- The options of a toast that this code looks at. `action` is an object with a label and a function, or
-- `plain_action`, any other value.
pub record FeedbackOptions : Type 0 where
  pub duration : Option ℕ
  pub action : Option (FeedbackBannerAction ReactNode)
  pub plain_action : Bool
  pub cancel : Bool
  pub description : Option ReactNode

pub record ErrorFeedbackOptions : Type 0 where
  pub fallback : Option String
  pub title : Option String
  pub persistent : Bool
  pub banner_id : Option String
  pub details : Option ReactNode
  pub toast_options : FeedbackOptions

pub data ToastKind : Type 0 where
  success info warning error : ToastKind

pub record Toast : Type 0 where
  pub kind : ToastKind
  pub title : String
  pub duration : ℕ
  pub description : Option ReactNode
  pub options : FeedbackOptions

-- What is shown: a toast, or the banner.
pub data Shown : Type 0 where
  toast : Toast → Shown
  banner : FeedbackBannerInput ReactNode → Shown

abbrev pub fallback_error_message : String
fallback_error_message = "操作没有完成，请稍后重试"

-- `Boolean(text.trim())`.
abbrev pub has_text : String → Bool
has_text s = not (str_eq (trim s) "")

unfoldable pub feedback_message : Unknown → String → String
feedback_message (an_error message) fallback = if has_text message then message else fallback
feedback_message (a_text s) fallback = if has_text s then s else fallback
feedback_message other fallback = fallback

abbrev pub has_action : FeedbackOptions → Bool
has_action o = is_some o.action || o.plain_action || o.cancel

-- `typeof options.description === "string" && options.description.trim() === title.trim()`.
abbrev pub repeats : String → Option ReactNode → Bool
repeats title (some (text s)) = str_eq (trim s) (trim title)
repeats title _ = false

unfoldable pub with_duration : ToastKind → String → FeedbackOptions → ℕ → Toast
with_duration kind title options duration = record {
  kind = kind;
  title = title;
  duration = get_or options.duration (if has_action options then max duration 10000 else duration);
  description = if repeats title options.description then none else options.description;
  options = options;
}

unfoldable pub notify_success : String → FeedbackOptions → Toast
unfolding with_duration
notify_success title options = with_duration success title options 3500

unfoldable pub notify_info : String → FeedbackOptions → Toast
unfolding with_duration
notify_info title options = with_duration info title options 4500

unfoldable pub notify_warning : String → FeedbackOptions → Toast
unfolding with_duration
notify_warning title options = with_duration warning title options 5500

-- `title && title !== message ? message : other`.
abbrev pub detail_or : Option String → String → Option ReactNode → Option ReactNode
detail_or none message otherwise = otherwise
detail_or (some title) message otherwise =
    if not (str_eq title "") && not (str_eq title message) then some (text message) else otherwise

-- `a ?? b` of two optional values.
abbrev pub or_else : Option ReactNode → Option ReactNode → Option ReactNode
or_else none otherwise = otherwise
or_else (some a) _ = some a

unfoldable pub notify_error : Unknown → ErrorFeedbackOptions → Shown
unfolding with_duration feedback_message
notify_error reason o =
    let message = feedback_message reason (get_or o.fallback fallback_error_message) in
    let title = get_or o.title message in
    let options = o.toast_options in
    if o.persistent
    then banner (record {
      id = get_or o.banner_id (concat ("error:" ∷ title ∷ []));
      title = get_or o.title "操作没有完成";
      description =
          get_or (or_else options.description (detail_or o.title message none)) (text "请稍后重试。");
      severity = critical;
      action = options.action;
      details = o.details;
    })
    else toast (record (with_duration error title options 6500) {
      description = or_else options.description (detail_or o.title message none);
    })
