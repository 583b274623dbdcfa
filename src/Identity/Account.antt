-- ===== src/Identity/Account.antt =====
-- app/services/identity/user_service.py. `some true`, `some false` and `none` stand for True,
-- False and None.
use i_dolly_backend.Error.{ErrorClass, plain, coded}
use i_dolly_backend.Identity.{Env, EmailTokenType, create_email_token, decode_email_token}
use i_dolly_backend.Identity.Auth.{
  AuthRequest, find_email, find_token, insert_user, put_user, revoke, revoke_all,
}
use i_dolly_backend.Notification.{notice}
use i_dolly_backend.Prelude.{
  Bool, true, false, not, Option, none, some, if◌then◌else◌, ◌==◌, contains, is_some, update,
}
use i_dolly_backend.Rows.{add_notification, find_user}
use i_dolly_backend.Schema.{NotificationType, UserRole, is_admin}
use i_dolly_backend.Session.{
  Service, Effect, pure, query, raise_if, modify, commit, send, ◌>>=◌, ◌>>◌,
}
use i_dolly_backend.Tables.{Text, User, RefreshToken, Uuid}

-- UserService.promote_admin, after the lookup.
unfoldable pub promote_found : Option User → Service (Option Bool)
promote_found none = pure none
promote_found (some user) = if is_admin user.role then pure (some false) else (do
  modify (put_user (record user { role = UserRole.admin; is_admin = true }))
  commit
  pure (some true))

-- UserService.promote_admin
unfoldable pub promote_admin : Uuid → Service (Option Bool)
promote_admin user_id = do user ← query (find_user user_id); promote_found user

-- UserService.revoke_token, after the lookup.
unfoldable pub revoke_found : Option RefreshToken → Service Bool
revoke_found none = pure false
revoke_found (some t) = do
  modify (λ db. record db {
    refresh_tokens = update (λ x. x.token == t.token) revoke db.refresh_tokens;
  })
  commit
  pure true

-- UserService.revoke_token
unfoldable pub revoke_token : Text → Service Bool
revoke_token token' = do t ← query (find_token token'); revoke_found t

module _ (e : Env) (req : AuthRequest) where
  -- UserService.change_password_process, on the row of the user that the request has loaded.
  unfoldable pub change_password_process : User → Text → Text → Service (Option Bool)
  change_password_process user old_password new_password =
      if e.verify_password old_password user.hashed_password
      then (do
        modify (put_user (record user { hashed_password = e.hash_password new_password }))
        commit
        pure (some true))
      else pure none

  -- UserService.reset_password_process, after the lookup; the result is always True.
  unfoldable pub mail_reset : Option User → Service Bool
  mail_reset none = pure true
  mail_reset (some user) = do
    send (
        Effect.password_reset_email user.id
          (create_email_token e req.now user.id EmailTokenType.reset))
    pure true

  unfoldable pub reset_password_process : Text → Service Bool
  reset_password_process email' = do user ← query (find_email email'); mail_reset user

  -- UserService.verify_rtoken, with a user that exists.
  unfoldable pub reset_password : User → Text → Service (Option Bool)
  reset_password user new_password = do
    modify (put_user (record user { hashed_password = e.hash_password new_password }))
    modify (revoke_all user.id)
    modify (add_notification (notice user.id NotificationType.password_reset))
    commit
    pure (some true)

  unfoldable pub reset_found : Option User → Text → Service (Option Bool)
  reset_found none new_password = pure none
  reset_found (some user) new_password = reset_password user new_password

  unfoldable pub reset_decoded : Option Uuid → Text → Service (Option Bool)
  reset_decoded none new_password = pure (some false)
  reset_decoded (some user_id) new_password = do
    user ← query (find_user user_id)
    reset_found user new_password

  -- UserService.verify_rtoken
  unfoldable pub verify_rtoken : Text → Text → Service (Option Bool)
  verify_rtoken token' new_password =
      reset_decoded (decode_email_token e req.now token' EmailTokenType.reset) new_password

  -- UserService.create_manager_user
  unfoldable pub create_manager_user : Text → Text → Text → Uuid → Service User
  create_manager_user name' email' password' company_id' = do
    raise_if (coded ErrorClass.bad_request "email_taken") (is_some (← query (find_email email')))
    raise_if (plain ErrorClass.not_found)
        (not (← query (λ db. contains company_id' db.management_companies)))
    let user : User = record {
      id = req.new_user_id;
      name = name';
      email = email';
      is_admin = false;
      hashed_password = e.hash_password password';
      is_verified = false;
      role = UserRole.manager;
      company_id = some company_id';
    }
    insert_user user
    commit
    pure user
