-- ===== src/Accounts/Access.antt =====
-- authMiddleware and requireRole of internal/api/server.go.
use api_ops.Common.{
  ℕ, Bool, true, false, ◌||◌, Option, none, some, List, [], ◌∷◌, ltb, if◌then◌else◌, codes, strip,
}
use api_ops.Accounts.Users.{
  Text, same, is_active, UserRole, same_role, OpsUser, Lookup, get_user_by_id, Claims, Crypto,
  Service, parse_token,
}

-- `header` is the Authorization and `api_token` the query, empty where there is none.
pub record Request : Type 0 where
  pub path : Text
  pub is_options : Bool
  pub header : Text
  pub api_token : Text

-- What the handlers behind the middleware find in the context.
pub data Identity : Type 0 where
  anonymous : Identity
  user : ℕ → UserRole → Identity
  legacy : Identity

-- The request goes on, or is answered with a status.
pub data Verdict : Type 0 where
  passes : Identity → Verdict
  aborts : ℕ → Verdict

-- The configured token, the service if there is one, the clock, and the table, which may fail.
pub record Server : Type 0 where
  pub ops_api_token : Text
  pub auth_svc : Option Service
  pub now : ℕ
  pub reads : Bool
  pub users : List OpsUser

unfoldable pub has_prefix : Text → Text → Bool
has_prefix p s = elim (strip p s) [ none ↦ false | some rest ↦ true ]

unfoldable pub is_open : Request → Bool
unfolding has_prefix
is_open r =
    same r.path (codes "/api/health")
    || same r.path (codes "/healthz")
    || same r.path (codes "/api/auth/login")
    || has_prefix (codes "/api/ws/") r.path
    || r.is_options

-- Empty where there is none.
unfoldable pub token_of : Request → Text
unfolding has_prefix
token_of r = elim (strip (codes "Bearer ") r.header) [
  | some token ↦ token
  | none ↦ if has_prefix (codes "/api/") r.path then r.api_token else []
]

unfoldable pub legacy_access : Server → Text → Verdict
legacy_access s token =
    if same s.ops_api_token []
    then aborts 500
    else (if same token s.ops_api_token then passes legacy else aborts 401)

-- A token that is signed, against the row of its user; an error of the database leads to the old token.
unfoldable pub claims_access : Server → Text → Claims → Lookup → Verdict
claims_access s token c (Lookup.found u) =
    if is_active u.status
    then (if ltb c.pwd_ts u.password_changed_at then aborts 401 else passes (user u.id u.role))
    else aborts 403
claims_access s token c Lookup.not_found = aborts 401
claims_access s token c Lookup.db_error = legacy_access s token

unfoldable pub parsed_access : Server → Text → Option Claims → Verdict
parsed_access s token none = legacy_access s token
parsed_access s token (some c) = claims_access s token c (get_user_by_id s.reads c.user_id s.users)

unfoldable pub service_access : Crypto → Server → Text → Option Service → Verdict
service_access cr s token none = legacy_access s token
service_access cr s token (some svc) = parsed_access s token (parse_token cr svc s.now token)

unfoldable pub auth_middleware : Crypto → Server → Request → Verdict
auth_middleware cr s r =
    if is_open r
    then passes anonymous
    else (if same (token_of r) [] then aborts 401 else service_access cr s (token_of r) s.auth_svc)

unfoldable pub allows : List UserRole → UserRole → Bool
allows [] role = false
allows (r ∷ rs) role = let rest = allows rs role in if same_role r role then true else rest

-- The old token stands for an administrator.
unfoldable pub role_of : Identity → Option UserRole
role_of anonymous = none
role_of (user id role) = some role
role_of legacy = some UserRole.admin

unfoldable pub require_role : List UserRole → Identity → Verdict
unfolding role_of
require_role roles i = elim (role_of i) [
  | none ↦ aborts 401
  | some role ↦ if allows roles role then passes i else aborts 403
]

-- A route behind both.
unfoldable pub guarded : Crypto → Server → List UserRole → Request → Verdict
guarded cr s roles r = elim (auth_middleware cr s r) [
  | aborts status ↦ aborts status
  | passes i ↦ require_role roles i
]

-- A server with a service, whose database answers and has this table.
abbrev pub serving : Server → Service → List OpsUser → Server
serving srv svc us = record srv { auth_svc = some svc; reads = true; users = us }
