-- ===== src/Admin/Tests.antt =====
-- A query of the list of users, and an incident that is resolved.
use charge_api.Prelude.{◌≡◌, refl, arith, false, true, none, some, [], ◌∷◌, any, str_eq}
use charge_api.Types.Admin.{
  AdminUserListQuery, AdminAccountFilter, AdminHealthFilter, only, expired, SystemException,
  IncidentStatus, open_status,
}
use charge_api.Http.{resolved}
use charge_api.Workbench.Query.{update_params}
use charge_api.Admin.Directory.{user_query, changes, user_query-changes}
use charge_api.Admin.Incidents.{Panel, active, save_settle, visible, ids, save_settle_resolved}

abbrev query : AdminUserListQuery
query = record {
  page = 12;
  page_size = 15;
  search = "lin";
  account = AdminAccountFilter.enabled;
  credential = only expired;
  health = AdminHealthFilter.all;
}

user_query-changes_example :
    user_query (update_params (changes query) (("health", "risk") ∷ ("user", "u1") ∷ [])) ≡ query
user_query-changes_example =
    user_query-changes query (("health", "risk") ∷ ("user", "u1") ∷ []) (omega arith) refl

abbrev issue : IncidentStatus → SystemException
issue status = record {
  id = "i1";
  user_id = "u1";
  username = "lin";
  device_id = none;
  type = "offline";
  level = "warning";
  message = "";
  status = status;
  note = none;
  occurrences = 1;
  handled_by = none;
  handled_at = none;
  first_seen_at = "";
  time = "";
}

abbrev panel : Panel
panel = record {
  issues = issue open_status ∷ [];
  loading = false;
  filter_by = "all";
  shown = active;
  target = some (issue open_status);
  next_status = IncidentStatus.resolved;
  note = "";
  saving = true;
  load_error = "";
  search = "";
  online = true;
}

save_settle_resolved_example :
    (ids (save_settle (resolved (issue IncidentStatus.resolved)) panel).0.issues ≡ "i1" ∷ [])
    × (any
          (λ issue. str_eq issue.id "i1")
          (visible (λ text. text) (save_settle (resolved (issue IncidentStatus.resolved)) panel).0)
        ≡ false)
save_settle_resolved_example =
    save_settle_resolved (λ text. text) (issue IncidentStatus.resolved) panel refl refl
