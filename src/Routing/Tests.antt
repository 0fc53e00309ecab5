-- ===== src/Routing/Tests.antt =====
-- A signed-out visitor and a protected page.
use charge_api.Prelude.{◌≡◌, ◌↔◌, none, some, String}
use charge_api.Types.{user}
use charge_api.Routing.{RequiredRole, only, resolve_route}
use charge_api.Routing.Access.{page_role, page_at, resolve_route_lem}

resolve_route_lem_example :
    ((resolve_route none (only user) ≡ none) ↔ (only user ≡ page_role none))
    × ((path : String)
        → resolve_route none (only user) ≡ some path
        → (there : RequiredRole) × (page_at path ≡ some there)
          × (there ≡ page_role none)
          × (resolve_route none there ≡ none))
resolve_route_lem_example = resolve_route_lem none (only user)
