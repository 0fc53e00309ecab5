-- ===== src/Banner/Tests.antt =====
-- Banners of two severities, with texts as the contents of the page.
use charge_api.Prelude.{none, some, String, [], ◌∷◌}
use charge_api.Banner.{
  FeedbackBanner, FeedbackBannerInput, State, FeedbackBannerSeverity, critical, banner_of,
}

abbrev input : String → FeedbackBannerSeverity → FeedbackBannerInput String
input id severity = record {
  id = id;
  title = "title";
  description = "text";
  severity = severity;
  action = none;
  details = none;
}

abbrev standing : FeedbackBanner String
standing = banner_of (input "backup" critical) 2 7

abbrev shown : State String
shown = record { current_banner = some standing; listeners = 4 ∷ [] }
