-- ===== src/Notifications/Browser.antt =====
-- When the browser shows a notification, and what the browser's permission decides.
use charge_api.Prelude.{
  ℕ, ◌≡◌, ◌≢◌, refl, sym, ap, ◌∙◌, [], ◌∷◌, concat, get_or, str_eq, eq_iff, Option, inl, inr, ◌↔◌,
  arith, Bool, true, false, none, some, String, List, is_some, ◌⊎◌, lookup-insert, lookup, insert,
  Bool-cases, eq_refl,
}
use text.Mathlib.TextLemmas.{append_cancel_left, append_cancel_right}
use charge_api.Api.{Notification, NotificationPreference, pile_recovered}
use charge_api.Notifications.Store.{BrowserPermissionState, default, granted, Store, version_of}
use charge_api.Notifications.Quiet.{is_quiet_hours}
use charge_api.Notifications.Permission.{enabled_in, set_browser_enabled_settle}
use charge_api.Notifications.Stream.{
  on_notification, receive, is_repeated, is_version, browser_notification, shows,
}

-- What a version is made of, where the message has it.
abbrev read_text : Notification → String
read_text n = get_or n.read_at ""

abbrev resolved_text : Notification → String
resolved_text n = get_or n.resolved_at ""

-- Two messages tell of the same occurrence, reading and resolution.
abbrev pub IsSame : Notification → Notification → Type 0
IsSame m n =
    (m.last_occurred_at ≡ n.last_occurred_at)
    × (read_text m ≡ read_text n)
    × (resolved_text m ≡ resolved_text n)

-- Two messages differ in exactly one of the three.
abbrev pub IsChanged : Notification → Notification → Type 0
IsChanged m n =
    ((m.last_occurred_at ≢ n.last_occurred_at)
      × (read_text m ≡ read_text n)
      × (resolved_text m ≡ resolved_text n))
    ⊎ ((m.last_occurred_at ≡ n.last_occurred_at)
        × (read_text m ≢ read_text n)
        × (resolved_text m ≡ resolved_text n))
    ⊎ ((m.last_occurred_at ≡ n.last_occurred_at)
        × (read_text m ≡ read_text n)
        × (resolved_text m ≢ resolved_text n))

abbrev version_with : (occurred read resolved : String) → String
version_with occurred read resolved = concat (occurred ∷ ":" ∷ read ∷ ":" ∷ resolved ∷ [])

version_of-same : (m n : Notification) → IsSame m n → version_of m ≡ version_of n
unfolding version_of
version_of-same m n (p, q, r) = rw (p, q, r) refl

first_inj : (a b q r : String) → version_with a q r ≡ version_with b q r → a ≡ b
first_inj a b q r h = append_cancel_right a b (concat (":" ∷ q ∷ ":" ∷ r ∷ [])) h

second_inj : (p a b r : String) → version_with p a r ≡ version_with p b r → a ≡ b
second_inj p a b r h = append_cancel_right a b (concat (":" ∷ r ∷ [])) (
    append_cancel_left ":" (concat (a ∷ ":" ∷ r ∷ [])) (concat (b ∷ ":" ∷ r ∷ []))
      (append_cancel_left p (concat (":" ∷ a ∷ ":" ∷ r ∷ [])) (concat (":" ∷ b ∷ ":" ∷ r ∷ [])) h))

third_inj : (p q a b : String) → version_with p q a ≡ version_with p q b → a ≡ b
third_inj p q a b h = append_cancel_right a b "" (
    append_cancel_left ":" (concat (a ∷ [])) (concat (b ∷ [])) (
      append_cancel_left q (concat (":" ∷ a ∷ [])) (concat (":" ∷ b ∷ [])) (
        append_cancel_left ":" (concat (q ∷ ":" ∷ a ∷ [])) (concat (q ∷ ":" ∷ b ∷ [])) (
          append_cancel_left p (concat (":" ∷ q ∷ ":" ∷ a ∷ [])) (concat (":" ∷ q ∷ ":" ∷ b ∷ []))
            h))))

version_of-changed : (m n : Notification) → IsChanged m n → version_of m ≢ version_of n
unfolding version_of
version_of-changed m n (inl (p, q, r)) e = p (
    first_inj m.last_occurred_at n.last_occurred_at (read_text n) (resolved_text n) (
      ap (λ x. version_with m.last_occurred_at x (resolved_text n)) (sym q)
      ∙ ap (version_with m.last_occurred_at (read_text m)) (sym r)
      ∙ e))
version_of-changed m n (inr (inl (p, q, r))) e = q (
    second_inj n.last_occurred_at (read_text m) (read_text n) (resolved_text n) (
      ap (λ x. version_with x (read_text m) (resolved_text n)) (sym p)
      ∙ ap (version_with m.last_occurred_at (read_text m)) (sym r)
      ∙ e))
version_of-changed m n (inr (inr (p, q, r))) e = r (
    third_inj n.last_occurred_at (read_text n) (resolved_text m) (resolved_text n) (
      ap (λ x. version_with x (read_text n) (resolved_text m)) (sym p)
      ∙ ap (λ x. version_with m.last_occurred_at x (resolved_text m)) (sym q)
      ∙ e))

is_repeated-receive :
    (m n : Notification) (s : Store)
    → m.id ≡ n.id
    → is_repeated n (receive m s) ≡ str_eq (version_of m) (version_of n)
unfolding is_repeated receive
is_repeated-receive m n s q =
    ap
      (λ id. is_version (version_of n) (lookup n.id (insert id (version_of m) s.streamed_versions)))
      q
    ∙ ground (arith, lookup-insert n.id n.id (version_of m) s.streamed_versions, eq_refl n.id)

is_repeated-same :
    (m n : Notification) (s : Store) → m.id ≡ n.id → IsSame m n → is_repeated n (receive m s) ≡ true
is_repeated-same m n s q same =
    is_repeated-receive m n s q
    ∙ (eq_iff (version_of m) (version_of n)).1 (version_of-same m n same)

is_repeated-changed :
    (m n : Notification) (s : Store)
    → m.id ≡ n.id
    → IsChanged m n
    → is_repeated n (receive m s) ≡ false
is_repeated-changed m n s q changed = elim (Bool-cases (str_eq (version_of m) (version_of n))) [
  | inl same ↦
      absurd (version_of-changed m n changed ((eq_iff (version_of m) (version_of n)).0 same))
  | inr other ↦ is_repeated-receive m n s q ∙ other
]

enabled_in_lem :
    (o : Option NotificationPreference)
    → (enabled_in o ≡ true)
      ↔ ((p : NotificationPreference) × (o ≡ some p) × (p.browser_enabled ≡ true))
enabled_in_lem none = (λ h. cc, λ (p, q, e). ground (arith, q))
enabled_in_lem (some p) = (λ h. (p, refl, h), λ (r, q, e). ap enabled_in q ∙ e)

module _ (format_to_parts : String → ℕ → List (String × String)) where
  new_shows :
      (permission : BrowserPermissionState) (now : ℕ) (n : Notification) (s : Store)
      → is_repeated n s ≡ false
      → (is_some (on_notification format_to_parts permission now n s).1 ≡ true) ↔ (
          (n.type ≢ pile_recovered)
          × (enabled_in s.preference_ref ≡ true)
          × (permission ≡ granted)
          × (is_quiet_hours format_to_parts s.preference_ref now ≡ false))
  unfolding on_notification browser_notification shows receive
  new_shows permission now n s new = (λ h. ground (arith, new), λ h. ground (arith, new))

  dropped :
      (permission : BrowserPermissionState) (now : ℕ) (n : Notification) (s : Store)
      → is_repeated n s ≡ true
      → on_notification format_to_parts permission now n s ≡ (s, none)
  unfolding on_notification
  dropped permission now n s old = rw old refl

  -- A message that arrives when another of its identifier was the last to arrive before it: if it tells of
  -- the same occurrence, reading and resolution, it is dropped, and the browser shows nothing; if one of the
  -- three has changed, the browser shows it exactly when it does not tell of a recovery, there is a
  -- preference that enables browser notifications, the browser permits them, and it is not a quiet hour.
  pub on_notification-shows_iff :
      (permission : BrowserPermissionState) (now : ℕ) (m n : Notification) (s : Store)
      → m.id ≡ n.id
      → let after = receive m s in
        let shown = on_notification format_to_parts permission now n after in
        (IsSame m n → shown ≡ (after, none))
        × (IsChanged m n
            → (is_some shown.1 ≡ true) ↔ (
                (n.type ≢ pile_recovered)
                × ((p : NotificationPreference) × (s.preference_ref ≡ some p)
                    × (p.browser_enabled ≡ true))
                × (permission ≡ granted)
                × (is_quiet_hours format_to_parts s.preference_ref now ≡ false)))
  unfolding receive
  on_notification-shows_iff permission now m n s q = (
    λ same. dropped permission now n (receive m s) (is_repeated-same m n s q same),
    λ changed.
        let (if_shown, shown_if) =
          new_shows permission now n (receive m s) (is_repeated-changed m n s q changed) in
        let (if_enabled, enabled_if) = enabled_in_lem s.preference_ref in
        (
          λ h.
              let (lost, enabled, allowed, loud) = if_shown h in
              (lost, if_enabled enabled, allowed, loud),
          λ (lost, enabled, allowed, loud). shown_if (lost, enabled_if enabled, allowed, loud),
        ),
  )

  -- The same message a second time changes nothing and shows nothing, at whatever time.
  on_notification_twice :
      (permission permission' : BrowserPermissionState) (now now' : ℕ) (n : Notification)
      (s : Store)
      → let s' = (on_notification format_to_parts permission now n s).0 in
        on_notification format_to_parts permission' now' n s' ≡ (s', none)
  unfolding on_notification is_repeated receive
  on_notification_twice permission permission' now now' n s = ground (
    arith,
    lookup-insert n.id n.id (version_of n) s.streamed_versions,
    eq_refl n.id,
    eq_refl (version_of n),
  )

-- `setBrowserEnabled` answers `true` only if it was asked to enable, and then exactly when the
-- browser permits notifications, at the call or when asked; it has then sent `true`. It sends
-- `false` when asked to disable.
set_browser_enabled_settle_lem :
    (permission answer : BrowserPermissionState) (enabled : Bool) (s : Store)
    → let (s', sent, result) = set_browser_enabled_settle permission answer enabled s in
      ((result ≡ true) ↔ (
        (enabled ≡ true)
        × ((permission ≡ granted) ⊎ ((permission ≡ default) × (answer ≡ granted)))))
      × (result ≡ true → sent ≡ some true)
      × (enabled ≡ false → sent ≡ some false)
unfolding set_browser_enabled_settle
set_browser_enabled_settle_lem permission answer enabled s =
    ((λ h. ground arith, λ h. ground arith), λ h. ground arith, λ h. ground arith)
