-- ===== src/Routing.antt =====
-- frontend/lib/routing.ts: which page a role may see.
pub mod Access
mod Tests
use charge_api.Prelude.{
  ◌≡◌, Bool, true, false, ◌||◌, Option, none, some, String, str_eq, if◌then◌else◌, List, [], ◌∷◌,
  member, ◌==◌,
}
use Prim.Native.Char.{code}
use Prim.Native.String
use charge_api.Types.{UserRole, admin, user}

-- `UserRole | "guest"`.
pub data RequiredRole : Type 0 where
  only : UserRole → RequiredRole
  guest : RequiredRole

unfoldable pub resolve_home_route : Option UserRole → String
resolve_home_route (some admin) = "/admin"
resolve_home_route (some user) = "/dashboard"
resolve_home_route none = "/login"

-- `role === requiredRole`.
abbrev pub same_role : UserRole → UserRole → Bool
same_role admin admin = true
same_role user user = true
same_role _ _ = false

-- The page to go to instead, or `null` where the visitor may stay.
unfoldable pub resolve_route : Option UserRole → RequiredRole → Option String
unfolding resolve_home_route
resolve_route none guest = none
resolve_route (some role) guest = some (resolve_home_route (some role))
resolve_route none (only _) = some "/login"
resolve_route (some role) (only required) =
    if same_role role required then none else some (resolve_home_route (some role))

-- `hash.slice(1)` where the hash starts with "#".
unfoldable pub without_hash : String → String
without_hash String.[] = ""
without_hash (String.◌∷◌ c s) = if code c == 35 then s else String.◌∷◌ c s

abbrev pub legacy_paths : List String
legacy_paths = "/login" ∷ "/register" ∷ "/dashboard" ∷ "/admin" ∷ []

unfoldable pub normalize_legacy_hash : String → Option String
unfolding without_hash
normalize_legacy_hash hash =
    let path = without_hash hash in if member path legacy_paths then some path else none
