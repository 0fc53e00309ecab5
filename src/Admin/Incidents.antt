-- ===== src/Admin/Incidents.antt =====
-- frontend/components/admin-incident-panel.tsx: the incidents that are shown, and the change of one.
use charge_api.Prelude.{
  ◌≡◌, refl, arith, Bool, true, false, not, ◌&&◌, ◌||◌, Option, none, some, String, List, [], ◌∷◌,
  map, filter, any, str_eq, concat, trim, get_or, if◌then◌else◌, eq_iff,
}
use charge_api.Types.Admin.{SystemException, IncidentStatus, open_status, acknowledged}
use charge_api.Http.{Reason, Settled, resolved, rejected, message_of}
use charge_api.Workbench.Selection.{includes}

abbrev pub status_label : IncidentStatus → String
status_label open_status = "未处理"
status_label acknowledged = "已确认"
status_label IncidentStatus.resolved = "已解决"

unfoldable pub matches_filter : SystemException → String → Bool
matches_filter issue filter =
    if str_eq filter "all"
    then true
    else if str_eq filter "critical"
    then str_eq issue.level "critical"
    else if str_eq filter "credential"
    then str_eq issue.type "credential" || str_eq issue.type "cookie_expired"
    else if str_eq filter "notification_delivery"
    then str_eq issue.type "notification_delivery" || str_eq issue.type "notification_queue"
    else str_eq issue.type filter

-- `status`: "active", or one status.
pub data Shown : Type 0 where
  active : Shown
  only : IncidentStatus → Shown

abbrev pub same_status : IncidentStatus → IncidentStatus → Bool
same_status open_status open_status = true
same_status acknowledged acknowledged = true
same_status IncidentStatus.resolved IncidentStatus.resolved = true
same_status _ _ = false

abbrev pub has_status : Shown → IncidentStatus → Bool
has_status active status = not (same_status status IncidentStatus.resolved)
has_status (only wanted) status = same_status status wanted

pub record Panel : Type 0 where
  pub issues : List SystemException
  pub loading : Bool
  pub filter_by : String
  pub shown : Shown
  pub target : Option SystemException
  pub next_status : IncidentStatus
  pub note : String
  pub saving : Bool
  pub load_error : String
  pub search : String
  pub online : Bool

pub data Effect : Type 0 where
  update_incident : (id : String) → IncidentStatus → (note : String) → Effect
  tell_success : (title : String) → Effect
  tell_error : Reason → (title : String) → (id : Option String) → Effect

-- The load of the first effect, from its reply; `ignore` is set by the cleanup.
unfoldable pub load_settle :
    (ignore : Bool) → Settled (List SystemException) → Panel → Panel × List Effect
load_settle ignore (resolved next) p =
    if ignore then (p, []) else (record p { issues = next; load_error = ""; loading = false }, [])
load_settle ignore (rejected reason) p = if ignore then (p, []) else (
  record p { load_error = message_of reason; loading = false },
  tell_error reason "异常列表加载失败" (some "admin-incidents-load") ∷ [],
)

-- `toLocaleLowerCase` is the host's.
module _ (to_lower_case : String → String) where
  abbrev pub is_visible : Panel → SystemException → Bool
  is_visible p issue =
      matches_filter issue p.filter_by
      && includes
          (to_lower_case
            (concat (issue.username ∷ " " ∷ issue.message ∷ " " ∷ get_or issue.device_id "" ∷ [])))
          (to_lower_case (trim p.search))
      && has_status p.shown issue.status

  unfoldable pub visible : Panel → List SystemException
  visible p = filter (is_visible p) p.issues

unfoldable pub start_update : SystemException → IncidentStatus → Panel → Panel
start_update issue desired p = record p {
  target = some issue;
  next_status = desired;
  note = get_or issue.note "";
}

abbrev save_with : Option SystemException → Panel → Panel × List Effect
save_with none p = (p, [])
save_with (some target) p =
    if p.online
    then (record p { saving = true }, update_incident target.id p.next_status p.note ∷ [])
    else (p, [])

-- `save`, up to the request and from the reply.
unfoldable pub save_begin : Panel → Panel × List Effect
save_begin p = save_with p.target p

abbrev pub replace_in : SystemException → SystemException → SystemException
replace_in updated issue = if str_eq issue.id updated.id then updated else issue

unfoldable pub save_settle : Settled SystemException → Panel → Panel × List Effect
save_settle (resolved updated) p = (
  record p { issues = map (replace_in updated) p.issues; target = none; saving = false },
  tell_success (concat ("异常已标记为" ∷ status_label updated.status ∷ [])) ∷ [],
)
save_settle (rejected reason) p =
    (record p { saving = false }, tell_error reason "更新异常状态失败" none ∷ [])

abbrev pub ids : List SystemException → List String
ids = map (λ issue. issue.id)

ids-replace_in :
    (updated : SystemException) (issues : List SystemException)
    → ids (map (replace_in updated) issues) ≡ ids issues
ids-replace_in updated [] = refl
ids-replace_in updated (issue ∷ issues) =
    ground (arith, ids-replace_in updated issues, eq_iff issue.id updated.id)

gone :
    (keep : SystemException → Bool) (updated : SystemException) (issues : List SystemException)
    → keep updated ≡ false
    → any (λ issue. str_eq issue.id updated.id) (filter keep (map (replace_in updated) issues))
      ≡ false
gone keep updated [] h = refl
gone keep updated (issue ∷ issues) h = ground (arith, gone keep updated issues h)

-- The reply to a change keeps the incidents and their order, and one that was resolved is no longer
-- among those that are active, whatever is searched and filtered.
pub save_settle_resolved :
    (to_lower_case : String → String) (updated : SystemException) (p : Panel)
    → updated.status ≡ IncidentStatus.resolved
    → p.shown ≡ active
    → let p' = (save_settle (resolved updated) p).0 in
      (ids p'.issues ≡ ids p.issues)
      × (any (λ issue. str_eq issue.id updated.id) (visible to_lower_case p') ≡ false)
unfolding save_settle visible
save_settle_resolved to_lower_case updated p r a =
    let p' = (save_settle (resolved updated) p).0 in
    (
      ids-replace_in updated p.issues,
      gone (is_visible to_lower_case p') updated p.issues (rw (r, a) (ground arith)),
    )
