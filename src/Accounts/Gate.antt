-- ===== src/Accounts/Gate.antt =====
-- Who passes a route behind authMiddleware and requireRole.
use api_ops.Common.{◌≡◌, refl, ◌↔◌, ℕ, true, false, Option, none, some, List, [], ltb, arith}
use api_ops.Accounts.Users.{
  Text, same, is_active, UserRole, OpsUser, Lookup, get_user_by_id, Claims, Crypto, Service,
  parse_token,
}
use api_ops.Accounts.Access.{
  Request, Identity, user, legacy, Verdict, passes, aborts, Server, is_open, token_of,
  legacy_access, claims_access, parsed_access, service_access, auth_middleware, allows,
  require_role, guarded,
}

-- The row that the claims name admits the bearer as this user.
abbrev pub Admits : Claims → Lookup → OpsUser → Type 0
Admits c l u =
    (l ≡ Lookup.found u)
    × (is_active u.status ≡ true)
    × (ltb c.pwd_ts u.password_changed_at ≡ false)

-- The service is set, it takes the token, and the row of its user admits it.
abbrev pub Signed : Crypto → Server → Text → OpsUser → Type 0
Signed cr s token u =
    (svc : Service) × (c : Claims) × (s.auth_svc ≡ some svc)
    × (parse_token cr svc s.now token ≡ some c)
    × Admits c (get_user_by_id s.reads c.user_id s.users) u

legacy-user :
    (s : Server) (token : Text) (id : ℕ) (role : UserRole)
    → ¬ (legacy_access s token ≡ passes (user id role))
unfolding legacy_access
legacy-user s token id role e = ground arith

claims-user :
    (s : Server) (token : Text) (c : Claims) (l : Lookup) (id : ℕ) (role : UserRole)
    → claims_access s token c l ≡ passes (user id role)
    → (u : OpsUser) × Admits c l u × (u.id ≡ id) × (u.role ≡ role)
unfolding claims_access
claims-user s token c (Lookup.found u) id role e = (u, ground arith, ground arith, ground arith)
claims-user s token c Lookup.not_found id role e = ground arith
claims-user s token c Lookup.db_error id role e = ground (arith, legacy-user s token id role)

claims-Admits :
    (s : Server) (token : Text) (c : Claims) (l : Lookup) (u : OpsUser)
    → Admits c l u
    → claims_access s token c l ≡ passes (user u.id u.role)
unfolding claims_access
claims-Admits s token c l u h = ground arith

parsed-user :
    (cr : Crypto) (s : Server) (token : Text) (svc : Service) (o : Option Claims) (id : ℕ)
    (role : UserRole)
    → s.auth_svc ≡ some svc
    → parse_token cr svc s.now token ≡ o
    → parsed_access s token o ≡ passes (user id role)
    → (u : OpsUser) × Signed cr s token u × (u.id ≡ id) × (u.role ≡ role)
unfolding parsed_access
parsed-user cr s token svc none id role set parsed e = ground (arith, legacy-user s token id role)
parsed-user cr s token svc (some c) id role set parsed e =
    let (u, h, i, r) = claims-user s token c (get_user_by_id s.reads c.user_id s.users) id role e in
    (u, (svc, c, set, parsed, h), i, r)

service-user :
    (cr : Crypto) (s : Server) (token : Text) (o : Option Service) (id : ℕ) (role : UserRole)
    → s.auth_svc ≡ o
    → service_access cr s token o ≡ passes (user id role)
    → (u : OpsUser) × Signed cr s token u × (u.id ≡ id) × (u.role ≡ role)
unfolding service_access
service-user cr s token none id role set e = ground (arith, legacy-user s token id role)
service-user cr s token (some svc) id role set e =
    parsed-user cr s token svc (parse_token cr svc s.now token) id role set refl e

service-Signed :
    (cr : Crypto) (s : Server) (token : Text) (u : OpsUser)
    → Signed cr s token u
    → service_access cr s token s.auth_svc ≡ passes (user u.id u.role)
unfolding service_access parsed_access
service-Signed cr s token u (svc, c, set, parsed, h) =
    ground (arith, claims-Admits s token c (get_user_by_id s.reads c.user_id s.users) u h)

require-user :
    (roles : List UserRole) (id : ℕ) (role : UserRole) (i : Identity)
    → require_role roles i ≡ passes (user id role)
    → (i ≡ user id role) × (allows roles role ≡ true)
unfolding require_role
require-user roles id role Identity.anonymous e = ground arith
require-user roles id role (user id' role') e = ground arith
require-user roles id role legacy e = ground arith

guarded-user :
    (cr : Crypto) (s : Server) (roles : List UserRole) (r : Request) (id : ℕ) (role : UserRole)
    (v : Verdict)
    → auth_middleware cr s r ≡ v
    → guarded cr s roles r ≡ passes (user id role)
    → (auth_middleware cr s r ≡ passes (user id role)) × (allows roles role ≡ true)
unfolding guarded
guarded-user cr s roles r id role (aborts status) h e = ground arith
guarded-user cr s roles r id role (passes i) h e = ground (arith, require-user roles id role i)

middleware-user :
    (cr : Crypto) (s : Server) (r : Request) (id : ℕ) (role : UserRole)
    → auth_middleware cr s r ≡ passes (user id role)
    → (is_open r ≡ false)
      × (same (token_of r) [] ≡ false)
      × (service_access cr s (token_of r) s.auth_svc ≡ passes (user id role))
unfolding auth_middleware
middleware-user cr s r id role e = ground arith

user_sound :
    (cr : Crypto) (s : Server) (roles : List UserRole) (r : Request) (id : ℕ) (role : UserRole)
    → guarded cr s roles r ≡ passes (user id role)
    → (is_open r ≡ false)
      × (same (token_of r) [] ≡ false)
      × (allows roles role ≡ true)
      × ((u : OpsUser) × Signed cr s (token_of r) u × (u.id ≡ id) × (u.role ≡ role))
user_sound cr s roles r id role e =
    let (passed, allowed) = guarded-user cr s roles r id role (auth_middleware cr s r) refl e in
    let (not_open, given, served) = middleware-user cr s r id role passed in
    (not_open, given, allowed, service-user cr s (token_of r) s.auth_svc id role refl served)

user_complete :
    (cr : Crypto) (s : Server) (roles : List UserRole) (r : Request) (id : ℕ) (role : UserRole)
    → (is_open r ≡ false)
      × (same (token_of r) [] ≡ false)
      × (allows roles role ≡ true)
      × ((u : OpsUser) × Signed cr s (token_of r) u × (u.id ≡ id) × (u.role ≡ role))
    → guarded cr s roles r ≡ passes (user id role)
unfolding guarded auth_middleware require_role
user_complete cr s roles r id role (not_open, given, allowed, (u, h, i, p)) =
    ground (arith, service-Signed cr s (token_of r) u h)

-- A guarded route lets a request through as a user exactly when the request is none of the open ones, has
-- a token that the service takes, the row of the user whom the claims name is active and has not changed
-- its password after the time in the claims, and the role of that row, whatever the claims say, is one of
-- the route's. The handler then has the id and the role of the row.
pub user_passes_iff :
    (cr : Crypto) (s : Server) (roles : List UserRole) (r : Request) (id : ℕ) (role : UserRole)
    → (guarded cr s roles r ≡ passes (user id role)) ↔ (
        (is_open r ≡ false)
        × (same (token_of r) [] ≡ false)
        × (allows roles role ≡ true)
        × ((u : OpsUser) × Signed cr s (token_of r) u × (u.id ≡ id) × (u.role ≡ role)))
user_passes_iff cr s roles r id role =
    (λ e. user_sound cr s roles r id role e, λ h. user_complete cr s roles r id role h)
