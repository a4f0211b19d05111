-- ===== src/Accounts/Login.antt =====
-- From a login to the middleware.
use api_ops.Common.{
  ◌≡◌, ℕ, ◌<◌, ◌≤◌, ◌+◌, true, false, Option, none, some, List, [], trim_space, arith,
}
use api_ops.Accounts.Users.{
  Text, same, is_active, OpsUser, Lookup, get_user_by_username, get_user_by_id, find_id, Claims,
  claims_of, Crypto, Service, issue_token, parse_token,
}
use api_ops.Accounts.Access.{
  Request, user, passes, Server, is_open, token_of, claims_access, parsed_access, service_access,
  auth_middleware, serving,
}
use api_ops.Accounts.Handlers.{Calls, LoginRequest, login_with, login_as, login_handler}

-- A token that was signed is parsed to its claims until it expires.
abbrev pub ParsesSigned : Crypto → Type 0
ParsesSigned cr =
    (secret : Text) (c : Claims) (token : Text) (now : ℕ)
    → cr.sign secret c ≡ some token
    → c.issued_at ≤ now
    → now < c.expires_at
    → cr.parse secret now token ≡ some c

login_with_hands :
    (calls : Calls) (u : OpsUser) (made : Option Text) (token : Text) (us : List OpsUser)
    → (login_with calls u made us).token ≡ some token
    → made ≡ some token
unfolding login_with
login_with_hands calls u none token us e = ground arith
login_with_hands calls u (some made) token us e = e

login_as_signs :
    (cr : Crypto) (s : Service) (calls : Calls) (password : Text) (u : OpsUser) (token : Text)
    (us : List OpsUser)
    → (login_as cr s calls password (Lookup.found u) us).token ≡ some token
    → cr.sign s.jwt_secret (claims_of s calls.now u) ≡ some token
unfolding login_as issue_token
login_as_signs cr s calls password u token us e =
    ground (arith, login_with_hands calls u (issue_token cr s calls.now u) token us)

login_handler_signs :
    (cr : Crypto) (s : Service) (calls : Calls) (q : LoginRequest) (u : OpsUser) (token : Text)
    (us : List OpsUser)
    → get_user_by_username calls.reads (trim_space q.username) us ≡ Lookup.found u
    → (login_handler cr s calls (some q) us).token ≡ some token
    → cr.sign s.jwt_secret (claims_of s calls.now u) ≡ some token
unfolding login_handler
login_handler_signs cr s calls q u token us row e =
    ground (arith, login_as_signs cr s calls q.password u token us)

-- What a login hands out is a token with which the middleware lets a request through, as the user of the
-- login with the role that the row has then, as long as the token has not expired and the row is active
-- and has its password of the login. JWT parses what it has signed.
pub login_admits :
    (cr : Crypto) (s : Service) (calls : Calls) (q : LoginRequest) (u v : OpsUser) (token : Text)
    (us vs : List OpsUser) (srv : Server) (r : Request)
    → ParsesSigned cr
    → get_user_by_username calls.reads (trim_space q.username) us ≡ Lookup.found u
    → (login_handler cr s calls (some q) us).token ≡ some token
    → is_open r ≡ false
    → token_of r ≡ token
    → same token [] ≡ false
    → calls.now ≤ srv.now
    → srv.now < calls.now + s.token_ttl
    → find_id u.id vs ≡ Lookup.found v
    → is_active v.status ≡ true
    → v.password_changed_at ≡ u.password_changed_at
    → auth_middleware cr (serving srv s vs) r ≡ passes (user v.id v.role)
unfolding auth_middleware service_access parsed_access get_user_by_id claims_access parse_token
    claims_of
login_admits cr s calls q u v token us vs srv r parses row given not_open held some_token later live
      found active kept =
    let signed = login_handler_signs cr s calls q u token us row given in
    ground (arith, parses s.jwt_secret (claims_of s calls.now u) token srv.now signed later live)
