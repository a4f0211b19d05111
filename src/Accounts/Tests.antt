-- ===== src/Accounts/Tests.antt =====
-- The accounts on a toy of JWT and bcrypt: a token is the list of its claims, a hash the text itself.
use api_ops.Common.{
  ◌≡◌, refl, ◌↔◌, ◌⊎◌, ap, ℕ, ◌<◌, ◌≤◌, true, false, ◌&&◌, Option, none, some, List, [], ◌∷◌, ◌++◌,
  ltb, leb, ◌==◌, if◌then◌else◌, length, take, drop, codes, trim_space, arith, strip, is_white,
  trim_right,
}
use api_ops.Accounts.Users.{
  Text, same, UserStatus, UserRole, OpsUser, get_user_by_username, get_user_by_id, find_name,
  find_id, update_rows, update_password, touch_last_login, Claims, Crypto, Service, new_service,
  hash_password, claims_of, issue_token, parse_token,
}
use api_ops.Accounts.Access.{
  Request, user, passes, aborts, Server, has_prefix, is_open, token_of, claims_access,
  parsed_access, service_access, auth_middleware, allows, role_of, require_role, guarded, serving,
}
use api_ops.Accounts.Handlers.{
  Calls, login_with, login_as, login_handler, write_hash, change_as, change_password_handler,
}
use api_ops.Accounts.Gate.{Signed, user_passes_iff}
use api_ops.Accounts.Login.{ParsesSigned, login_admits}
use api_ops.Accounts.Revocation.{Op, login, update, run_ops}
use api_ops.Accounts.Revocation.Tokens.{changed_password_revokes}

abbrev role_code : UserRole → ℕ
role_code UserRole.admin = 0
role_code UserRole.finance = 1
role_code UserRole.viewer = 2

abbrev role_from : ℕ → UserRole
role_from n =
    if n == 0 then UserRole.admin else (if n == 1 then UserRole.finance else UserRole.viewer)

abbrev encode : Claims → Text
encode c =
    c.user_id
      ∷ role_code c.role
      ∷ c.pwd_ts
      ∷ c.issued_at
      ∷ c.expires_at
      ∷ length c.username
      ∷ c.username
    ++ c.issuer

abbrev decode : ℕ → Text → Option Claims
decode now (id ∷ role ∷ ts ∷ issued ∷ expires ∷ n ∷ rest) =
    if leb issued now && ltb now expires
    then some (record {
      user_id = id;
      username = take n rest;
      role = role_from role;
      pwd_ts = ts;
      issuer = drop n rest;
      issued_at = issued;
      expires_at = expires;
    })
    else none
decode now _ = none

abbrev toy : Crypto
toy = record {
  sign = λ secret c. some (encode c);
  parse = λ secret now token. decode now token;
  hash = λ cost plain. some plain;
  compare_hash = λ hash plain. same hash plain;
}

take-append : (xs ys : Text) → take (length xs) (xs ++ ys) ≡ xs
take-append [] ys = refl
take-append (x ∷ xs) ys = ap (λ zs. x ∷ zs) (take-append xs ys)

drop-append : (xs ys : Text) → drop (length xs) (xs ++ ys) ≡ ys
drop-append [] ys = refl
drop-append (x ∷ xs) ys = drop-append xs ys

role_from-code : (r : UserRole) → role_from (role_code r) ≡ r
role_from-code UserRole.admin = refl
role_from-code UserRole.finance = refl
role_from-code UserRole.viewer = refl

decode-encode :
    (c : Claims) (now : ℕ) → c.issued_at ≤ now → now < c.expires_at → decode now (encode c) ≡ some c
decode-encode c now lo hi =
    ground (
      arith,
      role_from-code c.role,
      take-append c.username c.issuer,
      drop-append c.username c.issuer,
    )

toy-ParsesSigned : ParsesSigned toy
toy-ParsesSigned secret c token now e lo hi = ground (arith, decode-encode c now lo hi)

abbrev service : Service
service = new_service (codes "secret") 3600

abbrev ann : OpsUser
ann = record {
  id = 7;
  username = codes "ann";
  password_hash = codes "first password";
  display_name = codes "Ann";
  email = [];
  role = UserRole.finance;
  status = UserStatus.active;
  password_changed_at = 100;
  last_login_at = 0;
  remark = [];
}

abbrev table : List OpsUser
table = ann ∷ []

abbrev at : ℕ → Calls
at now = record { reads = true; writes = true; now = now; next_id = 8 }

abbrev server : ℕ → Server
server now = record {
  ops_api_token = codes "old";
  auth_svc = some service;
  now = now;
  reads = true;
  users = table;
}

abbrev token : Text
token = encode (claims_of service 500 ann)

abbrev request : Request
request = record {
  path = codes "/api/vendors";
  is_options = false;
  header = codes "Bearer " ++ token;
  api_token = [];
}

login_answers :
    ((login_handler toy service
        (at 500)
        (some (record { username = codes " ann "; password = codes "first password" }))
        table).status
      ≡ 200)
    × ((login_handler toy service
          (at 500)
          (some (record { username = codes "ann"; password = codes "other password" }))
          table).status
        ≡ 401)
    × ((login_handler toy service
          (at 500)
          (some (record { username = codes "bob"; password = codes "first password" }))
          table).status
        ≡ 401)
unfolding login_handler login_as login_with issue_token claims_of new_service get_user_by_username
    find_name touch_last_login update_rows trim_space trim_right is_white
login_answers = (refl, refl, refl)

abbrev changed : List OpsUser
changed =
    (change_password_handler toy service (at 600) 7
      (some (codes "first password", codes "second password")) table).users

abbrev ops : List Op
ops =
    login (at 700) (some (record { username = codes "ann"; password = codes "second password" }))
    ∷ update (at 701) (some 7) (
        some (record {
          display_name = none;
          email = none;
          role = some UserRole.viewer;
          status = none;
          remark = none;
        }))
    ∷ []

user_passes_iff_example :
    (guarded toy (server 550) (UserRole.admin ∷ UserRole.finance ∷ []) request
      ≡ passes (user 7 UserRole.finance))
    ↔ ((is_open request ≡ false)
        × (same (token_of request) [] ≡ false)
        × (allows (UserRole.admin ∷ UserRole.finance ∷ []) UserRole.finance ≡ true)
        × ((u : OpsUser) × Signed toy (server 550) (token_of request) u
            × (u.id ≡ 7)
            × (u.role ≡ UserRole.finance)))
user_passes_iff_example =
    user_passes_iff toy (server 550) (UserRole.admin ∷ UserRole.finance ∷ []) request 7
      UserRole.finance

guarded_passes :
    guarded toy (server 550) (UserRole.admin ∷ UserRole.finance ∷ []) request
    ≡ passes (user 7 UserRole.finance)
unfolding guarded auth_middleware service_access parsed_access claims_access get_user_by_id find_id
    allows require_role role_of is_open has_prefix token_of strip parse_token claims_of new_service
guarded_passes = refl

token_is_token : token_of request ≡ token
unfolding token_of has_prefix strip
token_is_token = refl

login_admits_example :
    auth_middleware toy (serving (server 550) service table) request
    ≡ passes (user 7 UserRole.finance)
unfolding login_handler login_as login_with issue_token claims_of new_service get_user_by_username
    find_name find_id trim_space trim_right is_white is_open has_prefix token_of strip
login_admits_example =
    login_admits toy service (at 500)
      (record { username = codes "ann"; password = codes "first password" }) ann ann token table
      table (server 550) request toy-ParsesSigned refl refl refl refl refl (ground arith)
      (ground arith) refl refl refl

changed_password_revokes_example :
    (auth_middleware toy (serving (server 800) service (run_ops toy service ops changed)) request
      ≡ aborts 401)
    ⊎ (auth_middleware toy (serving (server 800) service (run_ops toy service ops changed)) request
        ≡ aborts 403)
unfolding change_password_handler change_as write_hash hash_password update_password update_rows
    get_user_by_id find_id new_service claims_of is_open has_prefix token_of strip parse_token
changed_password_revokes_example =
    changed_password_revokes toy service (at 600) (codes "first password") (codes "second password")
      table ops (server 800) request (claims_of service 500 ann) refl (ground arith)
      (ground arith, (ground arith, tt)) refl refl refl
