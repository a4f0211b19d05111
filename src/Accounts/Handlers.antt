-- ===== src/Accounts/Handlers.antt =====
-- The handlers of handlers_auth.go and handlers_admin_users.go, and seedBootstrapAdmin. An answer is the
-- status; `uid` is the id that the middleware set, 0 where it set none.
use api_ops.Common.{
  ℕ, Bool, ◌&&◌, ◌||◌, Option, none, some, List, [], ◌==◌, if◌then◌else◌, codes, trim_space,
}
use api_ops.Accounts.Users.{
  Text, same, UserStatus, is_active, UserRole, OpsUser, Lookup, get_user_by_username,
  get_user_by_id, find_name, update_rows, create_user, update_password, touch_last_login, Crypto,
  Service, hash_password, issue_token,
}

-- Which statements of a request succeed, the clock, and the id that the database would give.
pub record Calls : Type 0 where
  pub reads : Bool
  pub writes : Bool
  pub now : ℕ
  pub next_id : ℕ

-- A status, the token that is handed out, and the table.
pub record Answer : Type 0 where
  pub status : ℕ
  pub token : Option Text
  pub users : List OpsUser

abbrev pub answer : ℕ → List OpsUser → Answer
answer status us = record { status = status; token = none; users = us }

pub record LoginRequest : Type 0 where
  pub username : Text
  pub password : Text

unfoldable pub login_with : Calls → OpsUser → Option Text → List OpsUser → Answer
login_with calls u none us = answer 500 us
login_with calls u (some token) us = record {
  status = 200;
  token = some token;
  users = if calls.writes then touch_last_login u.id calls.now us else us;
}

unfoldable pub login_as : Crypto → Service → Calls → Text → Lookup → List OpsUser → Answer
unfolding login_with
login_as cr s calls password Lookup.not_found us = answer 401 us
login_as cr s calls password Lookup.db_error us = answer 500 us
login_as cr s calls password (Lookup.found u) us =
    if is_active u.status
    then (if cr.compare_hash u.password_hash password
        then login_with calls u (issue_token cr s calls.now u) us
        else answer 401 us)
    else answer 403 us

unfoldable pub login_handler :
    Crypto → Service → Calls → Option LoginRequest → List OpsUser → Answer
unfolding login_as
login_handler cr s calls none us = answer 400 us
login_handler cr s calls (some r) us =
    if same (trim_space r.username) [] || same r.password []
    then answer 400 us
    else login_as cr s calls r.password
        (get_user_by_username calls.reads (trim_space r.username) us) us

-- The hash of a new password is written, if it can be made.
unfoldable pub write_hash : Calls → ℕ → Option Text → List OpsUser → Answer
write_hash calls id none us = answer 400 us
write_hash calls id (some hash) us =
    if calls.writes then answer 200 (update_password id hash calls.now us) else answer 500 us

unfoldable pub change_as :
    Crypto → Service → Calls → ℕ → Text → Text → Lookup → List OpsUser → Answer
unfolding write_hash
change_as cr s calls uid old new Lookup.not_found us = answer 404 us
change_as cr s calls uid old new Lookup.db_error us = answer 404 us
change_as cr s calls uid old new (Lookup.found u) us =
    if cr.compare_hash u.password_hash old
    then write_hash calls uid (hash_password cr s new) us
    else answer 401 us

-- The body is the old and the new password.
unfoldable pub change_password_handler :
    Crypto → Service → Calls → ℕ → Option (Text × Text) → List OpsUser → Answer
unfolding change_as
change_password_handler cr s calls uid none us = answer 400 us
change_password_handler cr s calls uid (some (old, new)) us =
    if uid == 0
    then answer 401 us
    else change_as cr s calls uid old new (get_user_by_id calls.reads uid us) us

unfoldable pub reset_as : Crypto → Service → Calls → ℕ → Text → Lookup → List OpsUser → Answer
unfolding write_hash
reset_as cr s calls id new Lookup.not_found us = answer 404 us
reset_as cr s calls id new Lookup.db_error us = answer 404 us
reset_as cr s calls id new (Lookup.found u) us = write_hash calls id (hash_password cr s new) us

-- The id of the path, nothing where it is no number, and the new password.
unfoldable pub admin_reset_password_handler :
    Crypto → Service → Calls → Option ℕ → Option Text → List OpsUser → Answer
unfolding reset_as
admin_reset_password_handler cr s calls none body us = answer 400 us
admin_reset_password_handler cr s calls (some id) none us = answer 400 us
admin_reset_password_handler cr s calls (some id) (some new) us =
    reset_as cr s calls id new (get_user_by_id calls.reads id us) us

pub record CreateUserRequest : Type 0 where
  pub username : Text
  pub password : Text
  pub display_name : Text
  pub email : Text
  pub role : UserRole
  pub remark : Text

unfoldable pub new_user : Calls → CreateUserRequest → Text → OpsUser
new_user calls r hash = record {
  id = calls.next_id;
  username = r.username;
  password_hash = hash;
  display_name = r.display_name;
  email = r.email;
  role = r.role;
  status = UserStatus.active;
  password_changed_at = calls.now;
  last_login_at = 0;
  remark = r.remark;
}

unfoldable pub create_with : Calls → CreateUserRequest → Option Text → List OpsUser → Answer
unfolding new_user
create_with calls r none us = answer 400 us
create_with calls r (some hash) us =
    if calls.writes then answer 201 (create_user (new_user calls r hash) us) else answer 500 us

-- Only a row that is found is a conflict.
unfoldable pub create_as :
    Crypto → Service → Calls → CreateUserRequest → Lookup → List OpsUser → Answer
unfolding create_with
create_as cr s calls r (Lookup.found u) us = answer 409 us
create_as cr s calls r Lookup.not_found us = create_with calls r (hash_password cr s r.password) us
create_as cr s calls r Lookup.db_error us = create_with calls r (hash_password cr s r.password) us

unfoldable pub create_user_handler :
    Crypto → Service → Calls → Option CreateUserRequest → List OpsUser → Answer
unfolding create_as
create_user_handler cr s calls none us = answer 400 us
create_user_handler cr s calls (some r) us =
    create_as cr s calls r (get_user_by_username calls.reads r.username us) us

pub record UpdateUserRequest : Type 0 where
  pub display_name : Option Text
  pub email : Option Text
  pub role : Option UserRole
  pub status : Option UserStatus
  pub remark : Option Text

abbrev given : {A : Type 0} → Option A → A → A
given none a = a
given (some b) a = b

unfoldable pub apply_update : UpdateUserRequest → OpsUser → OpsUser
apply_update r u = record u {
  display_name = given r.display_name u.display_name;
  email = given r.email u.email;
  role = given r.role u.role;
  status = given r.status u.status;
  remark = given r.remark u.remark;
}

-- An update of the row of an id that is found.
unfoldable pub write_row : Calls → (OpsUser → OpsUser) → ℕ → Lookup → List OpsUser → Answer
write_row calls f id Lookup.not_found us = answer 404 us
write_row calls f id Lookup.db_error us = answer 404 us
write_row calls f id (Lookup.found u) us =
    if calls.writes then answer 200 (update_rows f id us) else answer 500 us

unfoldable pub update_user_handler :
    Calls → Option ℕ → Option UpdateUserRequest → List OpsUser → Answer
unfolding write_row
update_user_handler calls none body us = answer 400 us
update_user_handler calls (some id) none us = answer 400 us
update_user_handler calls (some id) (some r) us =
    write_row calls (apply_update r) id (get_user_by_id calls.reads id us) us

unfoldable pub mark_deleted : OpsUser → OpsUser
mark_deleted u = record u { status = UserStatus.deleted }

unfoldable pub delete_user_handler : Calls → ℕ → Option ℕ → List OpsUser → Answer
unfolding write_row
delete_user_handler calls uid none us = answer 400 us
delete_user_handler calls uid (some id) us =
    if id == uid
    then answer 400 us
    else write_row calls mark_deleted id (get_user_by_id calls.reads id us) us

-- The settings of the first administrator.
pub record AdminConfig : Type 0 where
  pub admin_username : Text
  pub admin_password : Text
  pub admin_password_change : Bool

unfoldable pub first_admin : Calls → AdminConfig → Text → OpsUser
first_admin calls cfg hash = record {
  id = calls.next_id;
  username = cfg.admin_username;
  password_hash = hash;
  display_name = codes "Bootstrap Admin";
  email = [];
  role = UserRole.admin;
  status = UserStatus.active;
  password_changed_at = calls.now;
  last_login_at = 0;
  remark = codes "bootstrap (created on first startup)";
}

unfoldable pub seed_with : Calls → AdminConfig → Text → Lookup → List OpsUser → List OpsUser
seed_with calls cfg hash (Lookup.found u) us =
    if cfg.admin_password_change && calls.writes then update_password u.id hash calls.now us else us
seed_with calls cfg hash Lookup.db_error us = us
seed_with calls cfg hash Lookup.not_found us =
    if calls.writes then create_user (first_admin calls cfg hash) us else us

unfoldable pub seed_hash : Calls → AdminConfig → Option Text → List OpsUser → List OpsUser
unfolding seed_with
seed_hash calls cfg none us = us
seed_hash calls cfg (some hash) us = seed_with calls cfg hash (find_name cfg.admin_username us) us

unfoldable pub seed_bootstrap_admin :
    Crypto → Service → Calls → AdminConfig → List OpsUser → List OpsUser
unfolding seed_hash
seed_bootstrap_admin cr s calls cfg us =
    if same cfg.admin_password []
    then us
    else (if calls.reads
        then seed_hash calls cfg (hash_password cr s cfg.admin_password) us
        else us)
