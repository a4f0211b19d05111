-- ===== src/Accounts/Revocation/Steps.antt =====
-- A revoked id stays revoked under every handler.
use api_ops.Common.{◌≡◌, refl, ℕ, ◌<◌, Option, none, some, List, [], ◌∷◌, trim_space, arith}
use api_ops.Accounts.Users.{
  Text, OpsUser, Lookup, get_user_by_username, get_user_by_id, find_name, Crypto, Service,
  hash_password, issue_token,
}
use api_ops.Accounts.Handlers.{
  Calls, LoginRequest, login_with, login_as, login_handler, write_hash, change_as,
  change_password_handler, reset_as, admin_reset_password_handler, CreateUserRequest, new_user,
  create_with, create_as, create_user_handler, UpdateUserRequest, apply_update, write_row,
  update_user_handler, mark_deleted, delete_user_handler, AdminConfig, first_admin, seed_with,
  seed_hash, seed_bootstrap_admin,
}
use api_ops.Accounts.Revocation.{
  Op, login, change_password, reset_password, create, update, delete, seed, clock, run_op, run_ops,
  After, Revoked, update_rows-Revoked, create_user-Revoked, update_password-Revoked, touch-Revoked,
}

module _ (id ts : ℕ) where
  login_with-Revoked :
      (calls : Calls) (u : OpsUser) (token : Option Text) (us : List OpsUser)
      → Revoked id ts us
      → Revoked id ts (login_with calls u token us).users
  unfolding login_with
  login_with-Revoked calls u none us h = h
  login_with-Revoked calls u (some token) us h =
      ground (arith, touch-Revoked id ts u.id calls.now us h)

  login_as-Revoked :
      (cr : Crypto) (s : Service) (calls : Calls) (password : Text) (l : Lookup) (us : List OpsUser)
      → Revoked id ts us
      → Revoked id ts (login_as cr s calls password l us).users
  unfolding login_as
  login_as-Revoked cr s calls password Lookup.not_found us h = h
  login_as-Revoked cr s calls password Lookup.db_error us h = h
  login_as-Revoked cr s calls password (Lookup.found u) us h =
      ground (arith, login_with-Revoked calls u (issue_token cr s calls.now u) us h)

  login_handler-Revoked :
      (cr : Crypto) (s : Service) (calls : Calls) (r : Option LoginRequest) (us : List OpsUser)
      → Revoked id ts us
      → Revoked id ts (login_handler cr s calls r us).users
  unfolding login_handler
  login_handler-Revoked cr s calls none us h = h
  login_handler-Revoked cr s calls (some r) us h = ground (
    arith,
    login_as-Revoked cr s calls r.password
        (get_user_by_username calls.reads (trim_space r.username) us) us h,
  )

  module _ (calls : Calls) (after : ts < calls.now) where
    write_hash-Revoked :
        (k : ℕ) (hash : Option Text) (us : List OpsUser)
        → Revoked id ts us
        → Revoked id ts (write_hash calls k hash us).users
    unfolding write_hash
    write_hash-Revoked k none us h = h
    write_hash-Revoked k (some hash) us h =
        ground (arith, update_password-Revoked id ts k hash calls.now us after h)

    change_as-Revoked :
        (cr : Crypto) (s : Service) (uid : ℕ) (old new : Text) (l : Lookup) (us : List OpsUser)
        → Revoked id ts us
        → Revoked id ts (change_as cr s calls uid old new l us).users
    unfolding change_as
    change_as-Revoked cr s uid old new Lookup.not_found us h = h
    change_as-Revoked cr s uid old new Lookup.db_error us h = h
    change_as-Revoked cr s uid old new (Lookup.found u) us h =
        ground (arith, write_hash-Revoked uid (hash_password cr s new) us h)

    change_password-Revoked :
        (cr : Crypto) (s : Service) (uid : ℕ) (r : Option (Text × Text)) (us : List OpsUser)
        → Revoked id ts us
        → Revoked id ts (change_password_handler cr s calls uid r us).users
    unfolding change_password_handler
    change_password-Revoked cr s uid none us h = h
    change_password-Revoked cr s uid (some (old, new)) us h =
        ground (arith, change_as-Revoked cr s uid old new (get_user_by_id calls.reads uid us) us h)

    reset_as-Revoked :
        (cr : Crypto) (s : Service) (k : ℕ) (new : Text) (l : Lookup) (us : List OpsUser)
        → Revoked id ts us
        → Revoked id ts (reset_as cr s calls k new l us).users
    unfolding reset_as
    reset_as-Revoked cr s k new Lookup.not_found us h = h
    reset_as-Revoked cr s k new Lookup.db_error us h = h
    reset_as-Revoked cr s k new (Lookup.found u) us h =
        write_hash-Revoked k (hash_password cr s new) us h

    reset-Revoked :
        (cr : Crypto) (s : Service) (k : Option ℕ) (new : Option Text) (us : List OpsUser)
        → Revoked id ts us
        → Revoked id ts (admin_reset_password_handler cr s calls k new us).users
    unfolding admin_reset_password_handler
    reset-Revoked cr s none body us h = h
    reset-Revoked cr s (some k) none us h = h
    reset-Revoked cr s (some k) (some new) us h = reset_as-Revoked cr s k new _ us h

    create_with-Revoked :
        (r : CreateUserRequest) (hash : Option Text) (us : List OpsUser)
        → Revoked id ts us
        → Revoked id ts (create_with calls r hash us).users
    unfolding create_with new_user
    create_with-Revoked r none us h = h
    create_with-Revoked r (some hash) us h =
        ground (arith, create_user-Revoked id ts (new_user calls r hash) us after h)

    create_as-Revoked :
        (cr : Crypto) (s : Service) (r : CreateUserRequest) (l : Lookup) (us : List OpsUser)
        → Revoked id ts us
        → Revoked id ts (create_as cr s calls r l us).users
    unfolding create_as
    create_as-Revoked cr s r (Lookup.found u) us h = h
    create_as-Revoked cr s r Lookup.not_found us h =
        create_with-Revoked r (hash_password cr s r.password) us h
    create_as-Revoked cr s r Lookup.db_error us h =
        create_with-Revoked r (hash_password cr s r.password) us h

    create-Revoked :
        (cr : Crypto) (s : Service) (r : Option CreateUserRequest) (us : List OpsUser)
        → Revoked id ts us
        → Revoked id ts (create_user_handler cr s calls r us).users
    unfolding create_user_handler
    create-Revoked cr s none us h = h
    create-Revoked cr s (some r) us h =
        create_as-Revoked cr s r (get_user_by_username calls.reads r.username us) us h

    seed_with-Revoked :
        (cfg : AdminConfig) (hash : Text) (l : Lookup) (us : List OpsUser)
        → Revoked id ts us
        → Revoked id ts (seed_with calls cfg hash l us)
    unfolding seed_with first_admin
    seed_with-Revoked cfg hash (Lookup.found u) us h =
        ground (arith, update_password-Revoked id ts u.id hash calls.now us after h)
    seed_with-Revoked cfg hash Lookup.not_found us h =
        ground (arith, create_user-Revoked id ts (first_admin calls cfg hash) us after h)
    seed_with-Revoked cfg hash Lookup.db_error us h = h

    seed_hash-Revoked :
        (cfg : AdminConfig) (hash : Option Text) (us : List OpsUser)
        → Revoked id ts us
        → Revoked id ts (seed_hash calls cfg hash us)
    unfolding seed_hash
    seed_hash-Revoked cfg none us h = h
    seed_hash-Revoked cfg (some hash) us h =
        seed_with-Revoked cfg hash (find_name cfg.admin_username us) us h

    seed-Revoked :
        (cr : Crypto) (s : Service) (cfg : AdminConfig) (us : List OpsUser)
        → Revoked id ts us
        → Revoked id ts (seed_bootstrap_admin cr s calls cfg us)
    unfolding seed_bootstrap_admin
    seed-Revoked cr s cfg us h =
        ground (arith, seed_hash-Revoked cfg (hash_password cr s cfg.admin_password) us h)

  write_row-Revoked :
      (calls : Calls) (f : OpsUser → OpsUser) (k : ℕ) (l : Lookup) (us : List OpsUser)
      → ((u : OpsUser) → ((f u).id ≡ u.id) × ((f u).password_changed_at ≡ u.password_changed_at))
      → Revoked id ts us
      → Revoked id ts (write_row calls f k l us).users
  unfolding write_row
  write_row-Revoked calls f k Lookup.not_found us same_row h = h
  write_row-Revoked calls f k Lookup.db_error us same_row h = h
  write_row-Revoked calls f k (Lookup.found u) us same_row h =
      ground
        (arith, update_rows-Revoked id ts f k us (λ v old e. ground (arith, old, same_row v)) h)

  update-Revoked :
      (calls : Calls) (k : Option ℕ) (r : Option UpdateUserRequest) (us : List OpsUser)
      → Revoked id ts us
      → Revoked id ts (update_user_handler calls k r us).users
  unfolding update_user_handler apply_update
  update-Revoked calls none r us h = h
  update-Revoked calls (some k) none us h = h
  update-Revoked calls (some k) (some r) us h =
      write_row-Revoked calls (apply_update r) k (get_user_by_id calls.reads k us) us
        (λ u. (refl, refl)) h

  delete-Revoked :
      (calls : Calls) (uid : ℕ) (k : Option ℕ) (us : List OpsUser)
      → Revoked id ts us
      → Revoked id ts (delete_user_handler calls uid k us).users
  unfolding delete_user_handler mark_deleted
  delete-Revoked calls uid none us h = h
  delete-Revoked calls uid (some k) us h = ground (
    arith,
    write_row-Revoked calls mark_deleted k (get_user_by_id calls.reads k us) us (λ u. (refl, refl))
        h,
  )

  run_op-Revoked :
      (cr : Crypto) (s : Service) (op : Op) (us : List OpsUser)
      → ts < clock op
      → Revoked id ts us
      → Revoked id ts (run_op cr s op us)
  unfolding run_op
  run_op-Revoked cr s (login calls r) us after h = login_handler-Revoked cr s calls r us h
  run_op-Revoked cr s (change_password calls uid r) us after h =
      change_password-Revoked calls after cr s uid r us h
  run_op-Revoked cr s (reset_password calls k r) us after h =
      reset-Revoked calls after cr s k r us h
  run_op-Revoked cr s (create calls r) us after h = create-Revoked calls after cr s r us h
  run_op-Revoked cr s (update calls k r) us after h = update-Revoked calls k r us h
  run_op-Revoked cr s (delete calls uid k) us after h = delete-Revoked calls uid k us h
  run_op-Revoked cr s (seed calls cfg) us after h = seed-Revoked calls after cr s cfg us h

  -- A revoked id stays revoked under any sequence of later operations.
  pub run_ops-Revoked :
      (cr : Crypto) (s : Service) (ops : List Op) (us : List OpsUser)
      → After ts ops
      → Revoked id ts us
      → Revoked id ts (run_ops cr s ops us)
  unfolding run_ops
  run_ops-Revoked cr s [] us after h = h
  run_ops-Revoked cr s (op ∷ ops) us (now, later) h =
      run_ops-Revoked cr s ops (run_op cr s op us) later (run_op-Revoked cr s op us now h)
