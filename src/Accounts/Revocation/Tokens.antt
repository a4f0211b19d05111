-- ===== src/Accounts/Revocation/Tokens.antt =====
-- A token that was issued before a change of the password, at the middleware.
use api_ops.Common.{◌≡◌, refl, ◌⊎◌, ℕ, ◌<◌, false, Option, none, some, List, [], ◌∷◌, arith}
use api_ops.Accounts.Users.{
  Text, same, OpsUser, Lookup, get_user_by_id, find_id, Claims, Crypto, Service, hash_password,
  parse_token,
}
use api_ops.Accounts.Access.{
  Request, aborts, Server, is_open, token_of, claims_access, parsed_access, service_access,
  auth_middleware, serving,
}
use api_ops.Accounts.Handlers.{Calls, write_hash, change_as, change_password_handler}
use api_ops.Accounts.Revocation.{Op, run_ops, After, Revoked, update_password-revokes}
use api_ops.Accounts.Revocation.Steps.{run_ops-Revoked}

find_id-Revoked :
    (id ts : ℕ) (us : List OpsUser) (u : OpsUser)
    → Revoked id ts us
    → find_id id us ≡ Lookup.found u
    → ts < u.password_changed_at
unfolding find_id
find_id-Revoked id ts [] u h e = ground arith
find_id-Revoked id ts (v ∷ us) u (h, hs) e = ground (arith, find_id-Revoked id ts us u hs)

find_id_answers : (id : ℕ) (us : List OpsUser) → ¬ (find_id id us ≡ Lookup.db_error)
unfolding find_id
find_id_answers id [] e = ground arith
find_id_answers id (u ∷ us) e = ground (arith, find_id_answers id us)

claims_refused :
    (srv : Server) (token : Text) (c : Claims) (us : List OpsUser) (l : Lookup)
    → find_id c.user_id us ≡ l
    → Revoked c.user_id c.pwd_ts us
    → (claims_access srv token c (find_id c.user_id us) ≡ aborts 401)
      ⊎ (claims_access srv token c (find_id c.user_id us) ≡ aborts 403)
unfolding claims_access
claims_refused srv token c us (Lookup.found u) e h =
    ground (arith, find_id-Revoked c.user_id c.pwd_ts us u h e)
claims_refused srv token c us Lookup.not_found e h = ground arith
claims_refused srv token c us Lookup.db_error e h = ground (arith, find_id_answers c.user_id us)

older_refused :
    (cr : Crypto) (srv : Server) (svc : Service) (r : Request) (c : Claims) (us : List OpsUser)
    → is_open r ≡ false
    → same (token_of r) [] ≡ false
    → parse_token cr svc srv.now (token_of r) ≡ some c
    → Revoked c.user_id c.pwd_ts us
    → (auth_middleware cr (serving srv svc us) r ≡ aborts 401)
      ⊎ (auth_middleware cr (serving srv svc us) r ≡ aborts 403)
unfolding auth_middleware service_access parsed_access get_user_by_id
older_refused cr srv svc r c us not_open given parsed h =
    ground
      (arith, claims_refused (serving srv svc us) (token_of r) c us (find_id c.user_id us) refl h)

write_hash-revokes :
    (calls : Calls) (id ts : ℕ) (hash : Option Text) (us : List OpsUser)
    → ts < calls.now
    → (write_hash calls id hash us).status ≡ 200
    → Revoked id ts (write_hash calls id hash us).users
unfolding write_hash
write_hash-revokes calls id ts none us after e = ground arith
write_hash-revokes calls id ts (some hash) us after e =
    ground (arith, update_password-revokes id ts hash calls.now us after)

change_as-revokes :
    (cr : Crypto) (s : Service) (calls : Calls) (id ts : ℕ) (old new : Text) (l : Lookup)
    (us : List OpsUser)
    → ts < calls.now
    → (change_as cr s calls id old new l us).status ≡ 200
    → Revoked id ts (change_as cr s calls id old new l us).users
unfolding change_as
change_as-revokes cr s calls id ts old new Lookup.not_found us after e = ground arith
change_as-revokes cr s calls id ts old new Lookup.db_error us after e = ground arith
change_as-revokes cr s calls id ts old new (Lookup.found u) us after e =
    ground (arith, write_hash-revokes calls id ts (hash_password cr s new) us after)

change_password-revokes :
    (cr : Crypto) (s : Service) (calls : Calls) (id ts : ℕ) (old new : Text) (us : List OpsUser)
    → ts < calls.now
    → (change_password_handler cr s calls id (some (old, new)) us).status ≡ 200
    → Revoked id ts (change_password_handler cr s calls id (some (old, new)) us).users
unfolding change_password_handler
change_password-revokes cr s calls id ts old new us after e =
    ground (
      arith,
      change_as-revokes cr s calls id ts old new (get_user_by_id calls.reads id us) us after,
    )

-- Once changePasswordHandler has answered 200, a token whose claims have an older time of the password is
-- refused with 401 or 403, whatever the handlers of the accounts do in between: by any sequence of logins,
-- changes and resets of passwords, created, changed and deleted users, and starts of the server, all later
-- than the time in the claims, as long as the database answers.
pub changed_password_revokes :
    (cr : Crypto) (s : Service) (calls : Calls) (old new : Text) (us : List OpsUser) (ops : List Op)
    (srv : Server) (r : Request) (c : Claims)
    → (change_password_handler cr s calls c.user_id (some (old, new)) us).status ≡ 200
    → c.pwd_ts < calls.now
    → After c.pwd_ts ops
    → is_open r ≡ false
    → same (token_of r) [] ≡ false
    → parse_token cr s srv.now (token_of r) ≡ some c
    → (auth_middleware cr
          (serving srv s (
            run_ops cr s ops
              (change_password_handler cr s calls c.user_id (some (old, new)) us).users))
          r
        ≡ aborts 401)
      ⊎ (auth_middleware cr
            (serving srv s (
              run_ops cr s ops
                (change_password_handler cr s calls c.user_id (some (old, new)) us).users))
            r
          ≡ aborts 403)
changed_password_revokes cr s calls old new us ops srv r c done older after not_open given parsed =
    let changed = change_password-revokes cr s calls c.user_id c.pwd_ts old new us older done in
    older_refused cr srv s r c _ not_open given parsed
      (run_ops-Revoked c.user_id c.pwd_ts cr s ops _ after changed)
