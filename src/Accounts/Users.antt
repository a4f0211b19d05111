-- ===== src/Accounts/Users.antt =====
-- The table ops_users with internal/auth/users.go, and the service of internal/auth/auth.go.
use api_ops.Common.{
  ℕ, zero, suc, ◌+◌, ◌-◌, Bool, true, false, Option, none, List, [], ◌∷◌, ◌++◌, ltb, ◌==◌,
  if◌then◌else◌, length, codes,
}

abbrev pub Text : Type 0
Text = List ℕ

abbrev pub same : Text → Text → Bool
same [] [] = true
same [] (y ∷ ys) = false
same (x ∷ xs) [] = false
same (x ∷ xs) (y ∷ ys) = let rest = same xs ys in if x == y then rest else false

pub data UserStatus : Type 0 where
  active : UserStatus
  locked : UserStatus
  deleted : UserStatus

abbrev pub is_active : UserStatus → Bool
is_active UserStatus.active = true
is_active UserStatus.locked = false
is_active UserStatus.deleted = false

pub data UserRole : Type 0 where
  admin : UserRole
  finance : UserRole
  viewer : UserRole

abbrev pub same_role : UserRole → UserRole → Bool
same_role UserRole.admin UserRole.admin = true
same_role UserRole.admin UserRole.finance = false
same_role UserRole.admin UserRole.viewer = false
same_role UserRole.finance UserRole.admin = false
same_role UserRole.finance UserRole.finance = true
same_role UserRole.finance UserRole.viewer = false
same_role UserRole.viewer UserRole.admin = false
same_role UserRole.viewer UserRole.finance = false
same_role UserRole.viewer UserRole.viewer = true

pub record OpsUser : Type 0 where
  pub id : ℕ
  pub username : Text
  pub password_hash : Text
  pub display_name : Text
  pub email : Text
  pub role : UserRole
  pub status : UserStatus
  pub password_changed_at : ℕ
  pub last_login_at : ℕ
  pub remark : Text

-- A row, ErrUserNotFound, or another error of the database.
pub data Lookup : Type 0 where
  found : OpsUser → Lookup
  not_found : Lookup
  db_error : Lookup

unfoldable pub find_name : Text → List OpsUser → Lookup
find_name name [] = not_found
find_name name (u ∷ us) =
    let rest = find_name name us in if same u.username name then found u else rest

unfoldable pub find_id : ℕ → List OpsUser → Lookup
find_id id [] = not_found
find_id id (u ∷ us) = let rest = find_id id us in if u.id == id then found u else rest

-- `reads` and `writes` say whether the statement succeeds.
unfoldable pub get_user_by_username : Bool → Text → List OpsUser → Lookup
get_user_by_username reads name us = if reads then find_name name us else db_error

unfoldable pub get_user_by_id : Bool → ℕ → List OpsUser → Lookup
get_user_by_id reads id us = if reads then find_id id us else db_error

-- UPDATE ... WHERE id = ?
unfoldable pub update_rows : (OpsUser → OpsUser) → ℕ → List OpsUser → List OpsUser
update_rows f id [] = []
update_rows f id (u ∷ us) = let rest = update_rows f id us in (if u.id == id then f u else u) ∷ rest

-- The database gives the id; the status 0 becomes active.
unfoldable pub create_user : OpsUser → List OpsUser → List OpsUser
create_user u us =
    us
    ++ record u {
      status = elim u.status [
        | UserStatus.locked ↦ UserStatus.active
        | UserStatus.active ↦ UserStatus.active
        | UserStatus.deleted ↦ UserStatus.deleted
      ];
    }
      ∷ []

unfoldable pub update_password : ℕ → Text → ℕ → List OpsUser → List OpsUser
update_password id hash now us =
    update_rows (λ u. record u { password_hash = hash; password_changed_at = now }) id us

unfoldable pub touch_last_login : ℕ → ℕ → List OpsUser → List OpsUser
touch_last_login id now us = update_rows (λ u. record u { last_login_at = now }) id us

-- The payload of a token. The subject, which is the id again as a text, is left out.
pub record Claims : Type 0 where
  pub user_id : ℕ
  pub username : Text
  pub role : UserRole
  pub pwd_ts : ℕ
  pub issuer : Text
  pub issued_at : ℕ
  pub expires_at : ℕ

-- JWT with HS256 and bcrypt: `sign` and `hash` may fail, `parse` gives the claims of a token that is
-- valid at a time under a secret.
pub record Crypto : Type 0 where
  pub sign : Text → Claims → Option Text
  pub parse : Text → ℕ → Text → Option Claims
  pub hash : ℕ → Text → Option Text
  pub compare_hash : Text → Text → Bool

pub record Service : Type 0 where
  pub jwt_secret : Text
  pub token_ttl : ℕ
  pub issuer : Text
  pub bcrypt_cost : ℕ

abbrev zeros : ℕ → Text
zeros zero = []
zeros (suc n) = 0 ∷ zeros n

-- A secret that is too short is filled up to 32 bytes with zeros.
unfoldable pub new_service : Text → ℕ → Service
new_service secret ttl = record {
  jwt_secret = if ltb (length secret) 32 then secret ++ zeros (32 - length secret) else secret;
  token_ttl = if ttl == 0 then 86400 else ttl;
  issuer = codes "api-ops";
  bcrypt_cost = 10;
}

unfoldable pub hash_password : Crypto → Service → Text → Option Text
hash_password cr s plain = if ltb (length plain) 8 then none else cr.hash s.bcrypt_cost plain

unfoldable pub claims_of : Service → ℕ → OpsUser → Claims
claims_of s now u = record {
  user_id = u.id;
  username = u.username;
  role = u.role;
  pwd_ts = u.password_changed_at;
  issuer = s.issuer;
  issued_at = now;
  expires_at = now + s.token_ttl;
}

unfoldable pub issue_token : Crypto → Service → ℕ → OpsUser → Option Text
issue_token cr s now u = cr.sign s.jwt_secret (claims_of s now u)

unfoldable pub parse_token : Crypto → Service → ℕ → Text → Option Claims
parse_token cr s now token = cr.parse s.jwt_secret now token
