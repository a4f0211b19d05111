-- ===== src/Accounts/Revocation.antt =====
-- What becomes of the tokens of a user whose password was changed.
use api_ops.Common.{
  ◌≡◌, refl, ◌⊎◌, ℕ, ◌<◌, ◌≤◌, Bool, true, false, not, ◌&&◌, ◌||◌, Option, none, some, List, [],
  ◌∷◌, ◌++◌, ltb, ◌==◌, if◌then◌else◌, length, codes, trim_space, arith, Option-cases,
}
use api_ops.Accounts.Users.{
  Text, same, UserStatus, is_active, UserRole, OpsUser, Lookup, get_user_by_username,
  get_user_by_id, find_name, find_id, update_rows, create_user, update_password, touch_last_login,
  Claims, Crypto, Service, hash_password, issue_token, parse_token,
}
use api_ops.Accounts.Handlers.{
  Calls, Answer, LoginRequest, login_handler, change_password_handler, admin_reset_password_handler,
  CreateUserRequest, create_user_handler, UpdateUserRequest, update_user_handler,
  delete_user_handler, AdminConfig, seed_bootstrap_admin,
}
mod Steps
pub mod Tokens

-- The handlers that write the table, each with the outcome of its statements.
pub data Op : Type 0 where
  login : Calls → Option LoginRequest → Op
  change_password : Calls → ℕ → Option (Text × Text) → Op
  reset_password : Calls → Option ℕ → Option Text → Op
  create : Calls → Option CreateUserRequest → Op
  update : Calls → Option ℕ → Option UpdateUserRequest → Op
  delete : Calls → ℕ → Option ℕ → Op
  seed : Calls → AdminConfig → Op

abbrev pub clock : Op → ℕ
clock (login calls r) = calls.now
clock (change_password calls uid r) = calls.now
clock (reset_password calls id r) = calls.now
clock (create calls r) = calls.now
clock (update calls id r) = calls.now
clock (delete calls uid id) = calls.now
clock (seed calls cfg) = calls.now

unfoldable pub run_op : Crypto → Service → Op → List OpsUser → List OpsUser
run_op cr s (login calls r) us = (login_handler cr s calls r us).users
run_op cr s (change_password calls uid r) us = (change_password_handler cr s calls uid r us).users
run_op cr s (reset_password calls id r) us = (admin_reset_password_handler cr s calls id r us).users
run_op cr s (create calls r) us = (create_user_handler cr s calls r us).users
run_op cr s (update calls id r) us = (update_user_handler calls id r us).users
run_op cr s (delete calls uid id) us = (delete_user_handler calls uid id us).users
run_op cr s (seed calls cfg) us = seed_bootstrap_admin cr s calls cfg us

unfoldable pub run_ops : Crypto → Service → List Op → List OpsUser → List OpsUser
run_ops cr s [] us = us
run_ops cr s (op ∷ ops) us = run_ops cr s ops (run_op cr s op us)

-- Every operation comes after this second.
abbrev pub After : ℕ → List Op → Type 0
After ts [] = Unit
After ts (op ∷ ops) = (ts < clock op) × After ts ops

-- Every row of the id has changed its password after this second.
abbrev Revoked : ℕ → ℕ → List OpsUser → Type 0
Revoked id ts [] = Unit
Revoked id ts (u ∷ us) = (u.id ≡ id → ts < u.password_changed_at) × Revoked id ts us

pub update_rows-Revoked :
    (id ts : ℕ) (f : OpsUser → OpsUser) (k : ℕ) (us : List OpsUser)
    → ((u : OpsUser)
        → (u.id ≡ id → ts < u.password_changed_at)
        → (f u).id ≡ id
        → ts < (f u).password_changed_at)
    → Revoked id ts us
    → Revoked id ts (update_rows f k us)
unfolding update_rows
update_rows-Revoked id ts f k [] keeps h = h
update_rows-Revoked id ts f k (u ∷ us) keeps (h, hs) =
    (ground (arith, keeps u h), update_rows-Revoked id ts f k us keeps hs)

pub create_user-Revoked :
    (id ts : ℕ) (u : OpsUser) (us : List OpsUser)
    → ts < u.password_changed_at
    → Revoked id ts us
    → Revoked id ts (create_user u us)
unfolding create_user
create_user-Revoked id ts u [] now h = ((λ _. now), h)
create_user-Revoked id ts u (v ∷ us) now (h, hs) = (h, create_user-Revoked id ts u us now hs)

pub update_password-Revoked :
    (id ts k : ℕ) (hash : Text) (now : ℕ) (us : List OpsUser)
    → ts < now
    → Revoked id ts us
    → Revoked id ts (update_password k hash now us)
unfolding update_password
update_password-Revoked id ts k hash now us after h =
    update_rows-Revoked id ts (λ u. record u { password_hash = hash; password_changed_at = now }) k
      us (λ u old e. after) h

pub touch-Revoked :
    (id ts k now : ℕ) (us : List OpsUser)
    → Revoked id ts us
    → Revoked id ts (touch_last_login k now us)
unfolding touch_last_login
touch-Revoked id ts k now us h =
    update_rows-Revoked id ts (λ u. record u { last_login_at = now }) k us (λ u old e. old e) h

-- A change of the password of the id revokes it.
pub update_password-revokes :
    (id ts : ℕ) (hash : Text) (now : ℕ) (us : List OpsUser)
    → ts < now
    → Revoked id ts (update_password id hash now us)
unfolding update_password update_rows
update_password-revokes id ts hash now [] after = tt
update_password-revokes id ts hash now (u ∷ us) after =
    (ground arith, update_password-revokes id ts hash now us after)
