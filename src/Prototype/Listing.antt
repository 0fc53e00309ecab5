-- ===== src/Prototype/Listing.antt =====
-- What the pages of frontend/app/prototype list: `counts` and `filterPiles` of model.ts, and the filters of the
-- reminders, the notices, the users, the incidents, the invites and the audit. `lower` is `toLocaleLowerCase`,
-- or `toLowerCase`.
use Prim.Native.Nat.{min}
use charge_api.Prelude.{
  ℕ, ◌+◌, ◌/◌, ◌==◌, ◌≡◌, refl, arith, Bool, true, false, not, ◌&&◌, ◌||◌, Option, none, some,
  String, List, [], ◌∷◌, any, filter, length, str_eq, trim, concat, ltb, if◌then◌else◌,
}
use charge_api.Types.{Port, Pile}
use charge_api.Workbench.Selection.{Counts, count_from, includes}
use charge_api.Prototype.Model.{
  pile_offline, credential_expired, DemoWatch, DemoNotice, DemoUser, DemoIncident, IncidentStatus,
  resolved, DemoAudit, AuditResult, success, failure, View, piles, reminders, notifications, admin,
  users, incidents, operations, policies, invites, audit, PrototypeData,
}
use charge_api.Prototype.Update.{find}
use charge_api.Prototype.Change.{is_active, is_type}

-- `counts`.
unfoldable pub counts : Pile → Counts
unfolding count_from
counts p = count_from (record { idle = 0; in_use = 0; offline = 0 }) p.ports

abbrev pub is_action_notice : DemoNotice → Bool
is_action_notice n = is_type n.type pile_offline || is_type n.type credential_expired

pub data PileFilter : Type 0 where
  all idle busy unreachable : PileFilter

abbrev pub has_ports : List Port → Bool
has_ports [] = false
has_ports (_ ∷ _) = true

abbrev pub keeps : PileFilter → Pile → Bool
keeps all p = true
keeps idle p = p.online && ltb 0 (counts p).idle
keeps busy p = p.online && (counts p).idle == 0
keeps unreachable p = not p.online && has_ports p.ports

module _ (lower : String → String) where
  abbrev pub found_by : String → Pile → Bool
  found_by query p =
      let q = lower (trim query) in
      any (λ v. includes (lower v) q) (p.name ∷ p.address ∷ p.number ∷ p.id ∷ [])

  unfoldable pub filter_piles : List Pile → (query : String) → PileFilter → List Pile
  unfolding counts
  filter_piles all_piles query by = filter (keeps by) (filter (found_by query) all_piles)

-- RemindersPage: the watches that wait, or the others, by the name of their pile.
abbrev name_of : Option Pile → Option String
name_of none = none
name_of (some p) = some p.name

abbrev named : Option String → (query : String) → Bool
named none query = false
named (some name) query = includes name (trim query)

unfoldable pub shown_watches : (active : Bool) → (query : String) → PrototypeData → List DemoWatch
unfolding find
shown_watches active query d =
    filter
      (λ (w : DemoWatch).
        named (name_of (find (λ (p : Pile). str_eq p.id w.device_id) d.piles)) query)
      (filter (λ w. if active then is_active w else not (is_active w)) d.watches)

pub data NoticeFilter : Type 0 where
  all unread pending settled : NoticeFilter

abbrev pub keeps_notice : NoticeFilter → DemoNotice → Bool
keeps_notice all n = true
keeps_notice unread n = not n.read
keeps_notice pending n = is_action_notice n && not n.resolved
keeps_notice settled n = is_action_notice n && n.resolved

unfoldable pub shown_notices : NoticeFilter → (query : String) → List DemoNotice → List DemoNotice
shown_notices by query notices =
    filter (λ (n : DemoNotice). includes (concat (n.title ∷ n.message ∷ [])) (trim query))
      (filter (keeps_notice by) notices)

-- IncidentsPage.
pub data IncidentFilter : Type 0 where
  all active : IncidentFilter
  only : IncidentStatus → IncidentFilter

abbrev pub is_status : IncidentStatus → IncidentStatus → Bool
is_status IncidentStatus.unhandled IncidentStatus.unhandled = true
is_status IncidentStatus.acknowledged IncidentStatus.acknowledged = true
is_status resolved resolved = true
is_status _ _ = false

abbrev pub keeps_incident : IncidentFilter → DemoIncident → Bool
keeps_incident all i = true
keeps_incident active i = not (is_status i.status resolved)
keeps_incident (only status) i = is_status i.status status

-- A template literal writes a missing name as `undefined`.
abbrev username_of : Option DemoUser → String
username_of none = "undefined"
username_of (some u) = u.username

unfoldable pub shown_incidents :
    IncidentFilter → (query : String) → PrototypeData → List DemoIncident
unfolding find
shown_incidents by query d =
    filter
      (λ (i : DemoIncident).
        includes
          (concat (
            i.title
            ∷ " "
            ∷ username_of (find (λ (u : DemoUser). str_eq u.id i.user_id) d.users)
            ∷ []))
          (trim query))
      (filter (keeps_incident by) d.incidents)

-- AuditPage: the entries, their pages of 8, and the page that is shown. `none` is every result.
abbrev is_success : AuditResult → Bool
is_success success = true
is_success failure = false

abbrev same_result : Option AuditResult → AuditResult → Bool
same_result none r = true
same_result (some success) r = is_success r
same_result (some failure) r = not (is_success r)

unfoldable pub shown_audit : Option AuditResult → (query : String) → List DemoAudit → List DemoAudit
shown_audit result query entries =
    filter (λ (a : DemoAudit). same_result result a.result)
      (filter (λ (a : DemoAudit). includes (concat (a.action ∷ " " ∷ a.target ∷ [])) (trim query))
        entries)

-- `Math.max(1, Math.ceil(n / 8))`, and `Math.min(page, pages)`.
unfoldable pub page_count : ℕ → ℕ
page_count n = if n == 0 then 1 else (n + 7) / 8

abbrev pub current_page : (page entries : ℕ) → ℕ
current_page page entries = min page (page_count entries)

-- `unauthorized` of PrototypeApp, by the role that is shown.
abbrev is_admin_view : View → Bool
is_admin_view admin = true
is_admin_view users = true
is_admin_view incidents = true
is_admin_view operations = true
is_admin_view policies = true
is_admin_view invites = true
is_admin_view audit = true
is_admin_view _ = false

abbrev is_user_view : View → Bool
is_user_view piles = true
is_user_view reminders = true
is_user_view notifications = true
is_user_view _ = false

unfoldable pub is_unauthorized_view : (is_admin : Bool) → View → Bool
is_unauthorized_view is_admin view = if is_admin then is_user_view view else is_admin_view view

-- Each pile that a search finds is in one of the three lists of its state, or out of reach and never read.
filter_piles-partition :
    (lower : String → String) (query : String) (ps : List Pile)
    → length (filter_piles lower ps query idle)
        + length (filter_piles lower ps query busy)
        + length (filter_piles lower ps query unreachable)
        + length (
            filter (λ (p : Pile). found_by lower query p && not (p.online || has_ports p.ports)) ps)
      ≡ length (filter_piles lower ps query all)
unfolding filter_piles
filter_piles-partition lower query [] = refl
filter_piles-partition lower query (p ∷ ps) = ground (arith, filter_piles-partition lower query ps)
