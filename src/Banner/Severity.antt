-- ===== src/Banner/Severity.antt =====
-- Which banner stands after a call, how often it is said to have occurred, and who is told.
use charge_api.Prelude.{
  ℕ, ◌+◌, ◌≤◌, ◌≡◌, ◌≢◌, refl, arith, true, false, Option, none, some, String, List, [], ◌∷◌,
  eq_iff, All, length, is_truthy, ◌⊎◌, subst, sym, ltb, Option-cases, inl, inr, if◌then◌else◌,
}
use Prim.Native.Nat.{max}
use charge_api.Banner.{
  FeedbackBanner, FeedbackBannerInput, State, severity_rank, banner_of, show_feedback_banner,
  dismiss_feedback_banner,
}

module _ {Node : Type 0} where
  abbrev survivor : FeedbackBannerInput Node → ℕ → FeedbackBanner Node → FeedbackBanner Node
  survivor input now c =
      if ltb (severity_rank input.severity) (severity_rank c.severity)
      then c
      else banner_of input 1 now

  -- After a message a banner stands, and the result is its identifier. If another banner stood
  -- before, the severity is the greater of the two; what is less severe changes nothing, tells
  -- nobody, and anything else tells every listener.
  show_feedback_banner_lem :
      (input : FeedbackBannerInput Node) (now : ℕ) (c : FeedbackBanner Node) (s : State Node)
      → s.current_banner ≡ some c
      → c.id ≢ input.id
      → let (s', id, told) = show_feedback_banner input now s in
        ((b : FeedbackBanner Node) × (s'.current_banner ≡ some b)
          × (b.id ≡ id)
          × (severity_rank b.severity
              ≡ max (severity_rank c.severity) (severity_rank input.severity)))
        × (severity_rank input.severity + 1 ≤ severity_rank c.severity → (s' ≡ s) × (told ≡ []))
        × (severity_rank c.severity ≤ severity_rank input.severity → told ≡ s.listeners)
  unfolding show_feedback_banner
  show_feedback_banner_lem input now c s e ne =
      let id = eq_iff c.id input.id in
      (
        (survivor input now c, ground arith, ground arith, ground arith),
        λ less. ground arith,
        λ most. ground arith,
      )

  -- The messages `inputs` in order, at the times given with them.
  unfoldable pub show_all : List (FeedbackBannerInput Node × ℕ) → State Node → State Node
  show_all [] s = s
  show_all ((input, now) ∷ inputs) s = show_all inputs (show_feedback_banner input now s).0

  abbrev pub count_of : Option (FeedbackBanner Node) → ℕ
  count_of none = 0
  count_of (some b) = b.occurrence_count

  abbrev pub IsFor : String → Option (FeedbackBanner Node) → Type 0
  IsFor id none = Unit
  IsFor id (some b) = b.id ≡ id

  show_one-count :
      (input : FeedbackBannerInput Node) (now : ℕ) (s : State Node)
      → IsFor input.id s.current_banner
      → let s' = (show_feedback_banner input now s).0 in
        IsFor input.id s'.current_banner
        × (count_of s'.current_banner ≡ count_of s.current_banner + 1)
  unfolding show_feedback_banner
  show_one-count input now s h = elim (Option-cases s.current_banner) [
    | inl empty ↦ rw empty (refl, ground arith)
    | inr (c, found) ↦
        let same : c.id ≡ input.id = (rw found at h) in
        rw found (ground (arith, eq_iff c.id input.id))
  ]

  -- Where no other banner stands, messages of one identifier, of whatever severities, are counted
  -- one by one.
  show_all-count :
      (id : String) (inputs : List (FeedbackBannerInput Node × ℕ)) (s : State Node)
      → All (λ i. i.0.id ≡ id) inputs
      → IsFor id s.current_banner
      → IsFor id (show_all inputs s).current_banner
        × (count_of (show_all inputs s).current_banner ≡ count_of s.current_banner + length inputs)
  unfolding show_all
  show_all-count id [] s h k = (k, ground arith)
  show_all-count id ((input, now) ∷ inputs) s (e, h) k =
      let s' = (show_feedback_banner input now s).0 in
      let (here, one) =
        show_one-count input now s (subst (λ j. IsFor j s.current_banner) (sym e) k) in
      let (there, more) =
        show_all-count id inputs s' h (subst (λ j. IsFor j s'.current_banner) e here) in
      (there, omega arith)

  -- Dismissing an identifier that the banner does not have changes nothing and tells nobody; dismissing
  -- its identifier, the empty one, or none at all leaves no banner and tells every listener.
  dismiss_feedback_banner_lem :
      (id : Option String) (c : FeedbackBanner Node) (s : State Node)
      → s.current_banner ≡ some c
      → let (s', told) = dismiss_feedback_banner id s in
        ((is_truthy id ≡ true) × (id ≢ some c.id) → (s' ≡ s) × (told ≡ []))
        × ((is_truthy id ≡ false) ⊎ (id ≡ some c.id)
            → (s'.current_banner ≡ none) × (s'.listeners ≡ s.listeners) × (told ≡ s.listeners))
  unfolding dismiss_feedback_banner
  dismiss_feedback_banner_lem none c s e = (λ h. ground arith, λ h. ground arith)
  dismiss_feedback_banner_lem (some id) c s e =
      (λ h. ground (arith, eq_iff c.id id), λ h. ground (arith, eq_iff c.id id))
