-- ===== src/Banner.antt =====
-- frontend/lib/feedback-banner.ts: the one banner of the page, and who listens to it. The contents of
-- the page are a type `Node` that nothing here looks into.
pub mod Severity
mod Tests
use charge_api.Prelude.{
  ℕ, ◌+◌, ◌==◌, Bool, true, false, not, ◌&&◌, Option, none, some, String, List, [], ◌∷◌, ◌++◌,
  filter, any, str_eq, ltb, is_truthy, if◌then◌else◌,
}

pub data FeedbackBannerSeverity : Type 0 where
  info warning critical : FeedbackBannerSeverity

-- `onClick` is a function of the page, known by a number.
pub record FeedbackBannerAction (Node : Type 0) : Type 0 where
  pub label : Node
  pub on_click : ℕ

pub record FeedbackBanner (Node : Type 0) : Type 0 where
  pub id : String
  pub title : String
  pub description : Node
  pub severity : FeedbackBannerSeverity
  pub action : Option (FeedbackBannerAction Node)
  pub details : Option Node
  pub occurrence_count : ℕ
  pub last_occurred_at : ℕ

-- `Omit<FeedbackBanner, "occurrenceCount" | "lastOccurredAt">`. The callers, all in
-- frontend/lib/feedback.ts, write every key, so that a spread replaces every field.
pub record FeedbackBannerInput (Node : Type 0) : Type 0 where
  pub id : String
  pub title : String
  pub description : Node
  pub severity : FeedbackBannerSeverity
  pub action : Option (FeedbackBannerAction Node)
  pub details : Option Node

-- The module's variables: `currentBanner` and `listeners`, a set in order of insertion.
pub record State (Node : Type 0) : Type 0 where
  pub current_banner : Option (FeedbackBanner Node)
  pub listeners : List ℕ

abbrev pub severity_rank : FeedbackBannerSeverity → ℕ
severity_rank info = 1
severity_rank warning = 2
severity_rank critical = 3

module _ {Node : Type 0} where
  abbrev pub banner_of : FeedbackBannerInput Node → ℕ → ℕ → FeedbackBanner Node
  banner_of input occurrence_count now = record {
    id = input.id;
    title = input.title;
    description = input.description;
    severity = input.severity;
    action = input.action;
    details = input.details;
    occurrence_count = occurrence_count;
    last_occurred_at = now;
  }

  abbrev show_over :
      Option (FeedbackBanner Node)
      → FeedbackBannerInput Node
      → ℕ
      → State Node
      → State Node × String × List ℕ
  show_over none input now s =
      (record s { current_banner = some (banner_of input 1 now) }, input.id, s.listeners)
  show_over (some current) input now s =
      if str_eq current.id input.id
      then (
        record s { current_banner = some (banner_of input (current.occurrence_count + 1) now) },
        input.id,
        s.listeners,
      )
      else if ltb (severity_rank input.severity) (severity_rank current.severity)
      then (s, current.id, [])
      else (record s { current_banner = some (banner_of input 1 now) }, input.id, s.listeners)

  -- `showFeedbackBanner` at the time `now`: the state, the result, and the listeners called by `emit`.
  unfoldable pub show_feedback_banner :
      FeedbackBannerInput Node → ℕ → State Node → State Node × String × List ℕ
  show_feedback_banner input now s = show_over s.current_banner input now s

  abbrev dismiss_over :
      Option (FeedbackBanner Node) → Option String → State Node → State Node × List ℕ
  dismiss_over none id s = (s, [])
  dismiss_over (some current) none s = (record s { current_banner = none }, s.listeners)
  dismiss_over (some current) (some id) s =
      if is_truthy (some id) && not (str_eq current.id id)
      then (s, [])
      else (record s { current_banner = none }, s.listeners)

  -- `dismissFeedbackBanner`; the empty identifier is no identifier.
  unfoldable pub dismiss_feedback_banner : Option String → State Node → State Node × List ℕ
  dismiss_feedback_banner id s = dismiss_over s.current_banner id s

  unfoldable pub subscribe_feedback_banner : ℕ → State Node → State Node
  subscribe_feedback_banner k s = record s {
    listeners = if any (λ j. j == k) s.listeners then s.listeners else s.listeners ++ (k ∷ []);
  }

  unfoldable pub unsubscribe_feedback_banner : ℕ → State Node → State Node
  unsubscribe_feedback_banner k s = record s { listeners = filter (λ j. not (j == k)) s.listeners }
