-- ===== src/Feedback/Messages.antt =====
-- What a user reads in a toast: never a blank message, and no description that repeats the title,
-- except in an error.
use charge_api.Prelude.{ℕ, ◌≤◌, ◌≡◌, refl, arith, true, false, none, some, String}
use charge_api.Feedback.{
  Unknown, an_error, a_text, other, FeedbackOptions, ErrorFeedbackOptions, ToastKind, Toast, toast,
  has_text, feedback_message, has_action, repeats, with_duration, notify_error, error,
}

-- Whatever was thrown, the message that is shown is not blank, if the fallback is not.
feedback_message-has_text :
    (reason : Unknown) (fallback : String)
    → has_text fallback ≡ true
    → has_text (feedback_message reason fallback) ≡ true
unfolding feedback_message
feedback_message-has_text (an_error message) fallback h = ground arith
feedback_message-has_text (a_text s) fallback h = ground arith
feedback_message-has_text other fallback h = h

-- A toast keeps its title, does not repeat it as its description, keeps any other description, and
-- stays ten seconds at least if it offers an action and no duration was asked for; a duration that
-- was asked for is kept.
with_duration_lem :
    (kind : ToastKind) (title : String) (o : FeedbackOptions) (duration : ℕ)
    → let t = with_duration kind title o duration in
      (t.title ≡ title)
      × (repeats title t.description ≡ false)
      × (repeats title o.description ≡ false → t.description ≡ o.description)
      × (o.duration ≡ none → has_action o ≡ true → 10000 ≤ t.duration)
      × (o.duration ≡ none → duration ≤ t.duration)
      × ((d : ℕ) → o.duration ≡ some d → t.duration ≡ d)
unfolding with_duration
with_duration_lem kind title o duration =
    (refl, ground arith, ground arith, λ h k. ground arith, λ h. ground arith, λ d h. ground arith)

-- An error's toast keeps a description that repeats its title.
notify_error-repeats :
    (reason : Unknown) (title : String) (o : ErrorFeedbackOptions)
    → o.persistent ≡ false
    → o.title ≡ some title
    → repeats title o.toast_options.description ≡ true
    → (t : Toast) × (notify_error reason o ≡ toast t)
      × (t.title ≡ title)
      × (repeats t.title t.description ≡ true)
unfolding notify_error
notify_error-repeats reason title o p e r = (
  record (with_duration error title o.toast_options 6500) {
    description = o.toast_options.description;
  },
  ground arith,
  refl,
  r,
)
