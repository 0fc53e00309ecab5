-- ===== src/Routing/Access.antt =====
-- Redirects of frontend/lib/routing.ts end after one step.
use charge_api.Prelude.{
  ◌≡◌, ◌↔◌, ◌⊎◌, inl, inr, refl, arith, Option, none, some, String, true, false, member, str_eq,
  Bool, Bool-cases, subst, ap, ◌==◌, if◌then◌else◌,
}
use Prim.Native.Char.{Char, code}
use charge_api.Types.{UserRole, admin, user}
use charge_api.Routing.{
  RequiredRole, only, guest, resolve_home_route, resolve_route, legacy_paths, normalize_legacy_hash,
}

-- Whom a page that redirects lead to is for.
abbrev pub page_role : Option UserRole → RequiredRole
page_role none = guest
page_role (some role) = only role

-- The page that a path shows, by whom it is for.
abbrev pub page_at : String → Option RequiredRole
page_at path =
    if str_eq path "/login"
    then some guest
    else if str_eq path "/dashboard"
    then some (only user)
    else if str_eq path "/admin"
    then some (only admin)
    else none

-- The page at a path is for the visitors of a role.
abbrev pub IsPageOf : String → Option UserRole → Type 0
IsPageOf path role =
    (required : RequiredRole) × (page_at path ≡ some required) × (required ≡ page_role role)

home-IsPageOf : (role : Option UserRole) → IsPageOf (resolve_home_route role) role
unfolding resolve_home_route
home-IsPageOf none = (guest, refl, refl)
home-IsPageOf (some user) = (only user, refl, refl)
home-IsPageOf (some admin) = (only admin, refl, refl)

sent_home :
    (role : Option UserRole) (required : RequiredRole) (path : String)
    → resolve_route role required ≡ some path
    → resolve_home_route role ≡ path
unfolding resolve_route resolve_home_route
sent_home none guest path h = cc
sent_home none (only r) path h = ground arith
sent_home (some admin) required path h = ground arith
sent_home (some user) required path h = ground arith

stays_lem :
    (role : Option UserRole) (required : RequiredRole)
    → (resolve_route role required ≡ none) ↔ (required ≡ page_role role)
unfolding resolve_route
stays_lem none guest = (λ h. refl, λ h. refl)
stays_lem none (only r) = (λ h. cc, λ h. cc)
stays_lem (some admin) required = (λ h. ground arith, λ h. ground arith)
stays_lem (some user) required = (λ h. ground arith, λ h. ground arith)

-- A visitor is sent away exactly from the pages that are not for the visitor's role, and then to the path
-- of a page that is: nobody to the sign-in, a user to the dashboard and an administrator to the
-- administration; from the page at that path the visitor is not sent on.
pub resolve_route_lem :
    (role : Option UserRole) (required : RequiredRole)
    → ((resolve_route role required ≡ none) ↔ (required ≡ page_role role))
      × ((path : String)
          → resolve_route role required ≡ some path
          → (there : RequiredRole) × (page_at path ≡ some there)
            × (there ≡ page_role role)
            × (resolve_route role there ≡ none))
resolve_route_lem role required = (
  stays_lem role required,
  λ path h.
      let (there, shown, mine) =
        subst (λ p. IsPageOf p role) (sent_home role required path h) (home-IsPageOf role) in
      (there, shown, mine, (stays_lem role there).1 mine),
)

if_some :
    (b : Bool) (s path : String)
    → (if b then some s else none) ≡ some path
    → (b ≡ true) × (s ≡ path)
if_some true s path h = (refl, ground arith)
if_some false s path h = cc

keep_member :
    (s path : String)
    → (if member s legacy_paths then some s else none) ≡ some path
    → (member path legacy_paths ≡ true) × (s ≡ path)
keep_member s path h =
    let (found, same) = if_some (member s legacy_paths) s path h in
    (subst (λ p. member p legacy_paths ≡ true) same found, same)

-- A legacy hash leads to a path only of the four legacy pages, and the path is the hash itself or
-- what follows its "#".
normalize_legacy_hash_lem :
    (hash path : String)
    → normalize_legacy_hash hash ≡ some path
    → (member path legacy_paths ≡ true)
      × ((hash ≡ path) ⊎ ((c : Char) × (code c ≡ 35) × (hash ≡ String.◌∷◌ c path)))
unfolding normalize_legacy_hash
normalize_legacy_hash_lem String.[] path h = ground arith
normalize_legacy_hash_lem (String.◌∷◌ c s) path h = elim (Bool-cases (code c == 35)) [
  | inl sharp ↦
      let (found, same) = keep_member s path (rw sharp at h) in
      (found, inr (c, ground arith, ap (String.◌∷◌ c) same))
  | inr plain ↦
      let (found, same) = keep_member (String.◌∷◌ c s) path (rw plain at h) in (found, inl same)
]
