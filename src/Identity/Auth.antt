-- ===== src/Identity/Auth.antt =====
-- app/services/identity/auth_service.py.
use i_dolly_backend.Database.{Database}
use i_dolly_backend.Error.{ErrorClass, plain, coded}
use i_dolly_backend.Identity.{
  Env, EmailTokenType, create_access_token, create_email_token, decode_email_token,
}
use i_dolly_backend.Prelude.{
  ℕ, ◌+◌, ◌*◌, Bool, true, false, ◌&&◌, ◌||◌, not, Option, none, some, [], ◌∷◌, ◌++◌, if◌then◌else◌,
  ◌==◌, ltb, count, find, update, delete, is_some,
}
use i_dolly_backend.Rows.{find_user}
use i_dolly_backend.Schema.{UserRole}
use i_dolly_backend.Session.{
  Service, Effect, pure, query, found, raise_if, modify, write, commit, send, ◌>>=◌, ◌>>◌,
}
use i_dolly_backend.Tables.{Text, Time, User, RefreshToken, Uuid}

-- What a call takes from outside besides Env: the time, and the ids that are drawn.
pub record AuthRequest : Type 0 where
  pub now : Time
  pub new_user_id : Uuid
  pub new_token : Text

abbrev pub find_email : Text → Database → Option User
find_email email' db = find (λ u. u.email == email') db.users

abbrev pub find_token : Text → Database → Option RefreshToken
find_token token' db = find (λ t. t.token == token') db.refresh_tokens

abbrev pub put_user : User → Database → Database
put_user user db = record db { users = update (λ u. u.id == user.id) (λ _. user) db.users }

-- INSERT INTO users, under the unique constraint on email.
unfoldable pub insert_user : User → Service (Unit {0})
insert_user user =
    write
      (λ db.
        if is_some (find_email user.email db) then some (plain ErrorClass.dbapi_error) else none)
      (λ db. record db { users = db.users ++ user ∷ [] })

-- INSERT INTO refresh_tokens, under the unique constraint on token.
unfoldable pub insert_token : RefreshToken → Service (Unit {0})
insert_token t =
    write
      (λ db. if is_some (find_token t.token db) then some (plain ErrorClass.dbapi_error) else none)
      (λ db. record db { refresh_tokens = db.refresh_tokens ++ t ∷ [] })

-- `RefreshToken.user_id == user.id, RefreshToken.revoked == False`
abbrev pub is_live_token_of : Uuid → RefreshToken → Bool
is_live_token_of user_id t = t.user_id == user_id && not t.revoked

abbrev pub revoke : RefreshToken → RefreshToken
revoke t = record t { revoked = true }

abbrev pub revoke_all : Uuid → Database → Database
revoke_all user_id db = record db {
  refresh_tokens = update (is_live_token_of user_id) revoke db.refresh_tokens;
}

-- `db.query(Users).filter(Users.id == user_id).first() if user_id else None`
abbrev pub user_if_any : Option Uuid → Database → Option User
user_if_any none db = none
user_if_any (some user_id) db = find_user user_id db

module _ (e : Env) (req : AuthRequest) where
  -- AuthService.create_user; a new row takes the column's default role, `fan`.
  unfoldable pub create_user : Text → Text → Text → Service User
  create_user name' email' password' = do
    raise_if (coded ErrorClass.bad_request "email_taken") (is_some (← query (find_email email')))
    let user : User = record {
      id = req.new_user_id;
      name = name';
      email = email';
      is_admin = false;
      hashed_password = e.hash_password password';
      is_verified = false;
      role = UserRole.fan;
      company_id = none;
    }
    insert_user user
    commit
    pure user

  -- `not db_user or not verify_password(...)`
  abbrev pub with_password : Text → Option User → Option User
  with_password password' none = none
  with_password password' (some u) =
      if e.verify_password password' u.hashed_password then some u else none

  -- AuthService.authenticate_user
  unfoldable pub authenticate_user : Text → Text → Service (Option User)
  authenticate_user email' password' = do
    db_user ← query (find_email email')
    pure (with_password password' db_user)

  abbrev pub new_refresh_token : Uuid → RefreshToken
  new_refresh_token user_id = record {
    user_id = user_id;
    token = req.new_token;
    expires_at = req.now + e.refresh_token_expire_days * 86400;
    revoked = false;
  }

  -- AuthService.create_tokens: the access token and the refresh token.
  unfoldable pub create_tokens : User → Service (Text × Text)
  create_tokens user = do
    modify (revoke_all user.id)
    insert_token (new_refresh_token user.id)
    commit
    pure (create_access_token e req.now user.id, req.new_token)

  -- AuthService.email_verification_process
  unfoldable pub email_verification_process : User → Service (Unit {0})
  email_verification_process user = send (
      Effect.email_verification_email user.id
        (create_email_token e req.now user.id EmailTokenType.verify))

  -- AuthService.verify_email_token
  unfoldable pub verify_email_token : Text → Service (Unit {0})
  verify_email_token token' = do
    user ←
        found (coded ErrorClass.bad_request "invalid_token")
          (← query (user_if_any (decode_email_token e req.now token' EmailTokenType.verify)))
    raise_if (coded ErrorClass.conflict "already_verified") user.is_verified
    modify (put_user (record user { is_verified = true }))
    commit

-- `db_token and not db_token.revoked` and `expires > now`
abbrev pub owner_if_valid : Time → Option RefreshToken → Option Uuid
owner_if_valid now none = none
owner_if_valid now (some t) = if not t.revoked && ltb now t.expires_at then some t.user_id else none

-- AuthService.verify_refresh_token
unfoldable pub verify_refresh_token : Time → Text → Service (Option User)
verify_refresh_token now token' = do
  db_token ← query (find_token token')
  query (user_if_any (owner_if_valid now db_token))

-- `(RefreshToken.expires_at < now) | (RefreshToken.revoked == True)`
abbrev pub is_dead : Time → RefreshToken → Bool
is_dead now t = ltb t.expires_at now || t.revoked

-- AuthService.cleanup_expired_tokens
unfoldable pub cleanup_expired_tokens : Time → Service ℕ
cleanup_expired_tokens now = do
  deleted ← query (λ db. count (is_dead now) db.refresh_tokens)
  modify (λ db. record db { refresh_tokens = delete (is_dead now) db.refresh_tokens })
  commit
  pure deleted
