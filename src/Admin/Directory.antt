-- ===== src/Admin/Directory.antt =====
-- The list of users in the address: `userQuery` and `apply` of
-- frontend/components/workbench/admin-users-page.tsx.
use charge_api.Prelude.{
  ℕ, ◌≡◌, ◌≤◌, refl, sym, Bool-cases, inl, inr, ap, ◌∙◌, arith, is_truthy, eq_iff, ◌==◌, true,
  false, Option, none, some, String, List, [], ◌∷◌, lookup, str_eq, decimal, to_number,
  to_number-decimal, get_or, if◌then◌else◌,
}
use Prim.Native.Nat.{max}
use charge_api.Types.Admin.{
  AdminUserListQuery, AdminAccountFilter, AdminHealthFilter, AdminCredentialFilter, only,
  CredentialState, unbound, waiting_device, sync_failed, expired,
}
use charge_api.Requests.Admin.{account_name, credential_filter_name, health_name}
use charge_api.Workbench.Query.{Params, update_params}
use charge_api.Workbench.Address.{lookup-update_params}

abbrev pub account_of : Option String → AdminAccountFilter
account_of none = AdminAccountFilter.all
account_of (some s) =
    if str_eq s "enabled"
    then AdminAccountFilter.enabled
    else if str_eq s "disabled"
    then AdminAccountFilter.disabled
    else AdminAccountFilter.all

-- `credential && Object.hasOwn(credentialLabels, credential) ? credential : "all"`.
abbrev pub credential_of : Option String → AdminCredentialFilter
credential_of none = AdminCredentialFilter.all
credential_of (some s) =
    if str_eq s "unbound"
    then only unbound
    else if str_eq s "waiting_device"
    then only waiting_device
    else if str_eq s "healthy"
    then only CredentialState.healthy
    else if str_eq s "sync_failed"
    then only sync_failed
    else if str_eq s "expired"
    then only expired
    else AdminCredentialFilter.all

abbrev pub health_of : Option String → AdminHealthFilter
health_of none = AdminHealthFilter.all
health_of (some s) =
    if str_eq s "risk"
    then AdminHealthFilter.risk
    else if str_eq s "healthy"
    then AdminHealthFilter.healthy
    else AdminHealthFilter.all

-- `Math.max(1, Number(text) || 1)`, for the texts that `to_number` reads.
abbrev pub page_of : Option String → ℕ
page_of none = 1
page_of (some s) = max 1 (get_or (to_number s) 1)

unfoldable pub user_query : Params → AdminUserListQuery
unfolding lookup to_number
user_query params = record {
  page = page_of (lookup "page" params);
  page_size = 15;
  search = get_or (lookup "search" params) "";
  account = account_of (lookup "account" params);
  credential = credential_of (lookup "credential" params);
  health = health_of (lookup "health" params);
}

-- `value === "all" ? null : value`.
abbrev unless_all : String → Option String
unless_all name = if str_eq name "all" then none else some name

-- What `apply` hands to `updatePageQuery`.
unfoldable pub changes : AdminUserListQuery → List (String × Option String)
unfolding decimal
changes next =
    ("tab", some "users")
    ∷ ("user", none)
    ∷ ("page", if next.page == 1 then none else some (decimal next.page))
    ∷ ("search", if str_eq next.search "" then none else some next.search)
    ∷ ("account", unless_all (account_name next.account))
    ∷ ("credential", unless_all (credential_filter_name next.credential))
    ∷ ("health", unless_all (health_name next.health))
    ∷ []

-- A value as the address keeps it: an empty one is gone.
abbrev kept : Option String → Option String
kept value = if is_truthy value then some (get_or value "") else none

account_back : (a : AdminAccountFilter) → account_of (kept (unless_all (account_name a))) ≡ a
account_back AdminAccountFilter.all = refl
account_back AdminAccountFilter.enabled = refl
account_back AdminAccountFilter.disabled = refl

health_back : (h : AdminHealthFilter) → health_of (kept (unless_all (health_name h))) ≡ h
health_back AdminHealthFilter.all = refl
health_back AdminHealthFilter.healthy = refl
health_back AdminHealthFilter.risk = refl

credential_back :
    (c : AdminCredentialFilter) → credential_of (kept (unless_all (credential_filter_name c))) ≡ c
credential_back AdminCredentialFilter.all = refl
credential_back (only unbound) = refl
credential_back (only waiting_device) = refl
credential_back (only CredentialState.healthy) = refl
credential_back (only sync_failed) = refl
credential_back (only expired) = refl

search_back :
    (search : String) → get_or (kept (if str_eq search "" then none else some search)) "" ≡ search
search_back search = ground (arith, eq_iff search "")

page_back :
    (page : ℕ) → 1 ≤ page → page_of (kept (if page == 1 then none else some (decimal page))) ≡ page
page_back page h = elim (Bool-cases (page == 1)) [
  | inl one ↦ rw one (unfold to_number in sym (page_one page one))
  | inr more ↦ rw more (rw (printed page h) (rw (to_number-decimal page) (ground arith)))
]
  where
    page_one : (page : ℕ) → (page == 1) ≡ true → page ≡ 1
    page_one page h = ground arith

    printed : (page : ℕ) → 1 ≤ page → str_eq (decimal page) "" ≡ false
    printed page h =
        ground (arith, eq_iff (decimal page) "", to_number-decimal page, nothing (decimal page))
      where
        nothing : (s : String) → s ≡ "" → to_number s ≡ some 0
        nothing s e = ap to_number e ∙ (unfold to_number in refl)

-- A query that is applied is read back from the address, whatever stood there: its page, search and
-- filters. Conditions: the page is at least 1, and the page size is the one of the list.
pub user_query-changes :
    (query : AdminUserListQuery) (params : Params)
    → 1 ≤ query.page
    → query.page_size ≡ 15
    → user_query (update_params (changes query) params) ≡ query
unfolding user_query changes
user_query-changes query params p s =
    let at = lookup-update_params (changes query) params in
    λ i. record {
      page = (ap page_of (at "page") ∙ page_back query.page p) i;
      page_size = sym s i;
      search = (ap (λ o. get_or o "") (at "search") ∙ search_back query.search) i;
      account = (ap account_of (at "account") ∙ account_back query.account) i;
      credential = (ap credential_of (at "credential") ∙ credential_back query.credential) i;
      health = (ap health_of (at "health") ∙ health_back query.health) i;
    }
