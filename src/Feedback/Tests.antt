-- ===== src/Feedback/Tests.antt =====
-- An error toast.
use charge_api.Prelude.{false, true, none, some}
use charge_api.Feedback.{FeedbackOptions, ErrorFeedbackOptions, text}

abbrev options : FeedbackOptions
options = record {
  duration = none;
  action = none;
  plain_action = true;
  cancel = false;
  description = some (text "failed ");
}

abbrev error_options : ErrorFeedbackOptions
error_options = record {
  fallback = none;
  title = some "failed";
  persistent = false;
  banner_id = none;
  details = none;
  toast_options = options;
}
