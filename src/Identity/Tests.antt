-- ===== src/Identity/Tests.antt =====
-- The account services, run on the small database.
use i_dolly_backend.Database.{Database}
use i_dolly_backend.Fixtures.{db, fan}
use i_dolly_backend.Identity.{EmailTokenType, create_access_token, create_email_token}
use i_dolly_backend.Identity.Account.{revoke_token, verify_rtoken}
use i_dolly_backend.Identity.Auth.{
  AuthRequest, authenticate_user, cleanup_expired_tokens, create_tokens, create_user, insert_token,
  insert_user, verify_refresh_token, verify_email_token, with_password,
}
use i_dolly_backend.Identity.EmailTokens.{
  verify_email_token-create_email_token, verify_rtoken-create_email_token,
}
use i_dolly_backend.Identity.Registration.{create_user-authenticate_user, new_user}
use i_dolly_backend.Identity.Rotation.{
  cleanup_expired_tokens-verify_refresh_token, create_tokens-verify_refresh_token,
  revoke_token-verify_refresh_token,
}
use i_dolly_backend.Identity.SampleEnv.{env, env-IsEnv}
use i_dolly_backend.Identity.Sessions.{Reach, Reach-SessionsSound, SessionsSound, Step}
use i_dolly_backend.Prelude.{◌≡◌, refl, true, false, none, some, [], ◌∷◌, arith}
use i_dolly_backend.Rows.{find_user}
use i_dolly_backend.Session.{ok, start, ◌>>=◌}
use i_dolly_backend.Tables.{RefreshToken}

abbrev auth_request : AuthRequest
auth_request = record { now = 1000; new_user_id = 9; new_token = 802 }

-- The token of the fan's last login.
abbrev old_token : RefreshToken
old_token = record { user_id = 1; token = 801; expires_at = 5000; revoked = false }

abbrev other_token : RefreshToken
other_token = record { user_id = 2; token = 803; expires_at = 900; revoked = false }

abbrev signed_in : Database
signed_in = record db { refresh_tokens = old_token ∷ other_token ∷ [] }

signed_in-SessionsSound : SessionsSound signed_in
signed_in-SessionsSound = record { one_live = λ u. ground arith; unique = λ k. ground arith }

-- The fan signs in again, and the manager logs out.
Reach-SessionsSound_example :
    SessionsSound
      (revoke_token 803
        (start (create_tokens env auth_request fan (start signed_in)).1.committed)).1.committed
Reach-SessionsSound_example =
    Reach-SessionsSound {e = env}
      (Reach.next (Reach.next Reach.here (Step.login auth_request fan)) (Step.logout 803))
      signed_in-SessionsSound

cleanup_expired_tokens-verify_refresh_token_example :
    (verify_refresh_token 1000 801 (cleanup_expired_tokens 1000 (start signed_in)).1).0
    ≡ (verify_refresh_token 1000 801 (start signed_in)).0
cleanup_expired_tokens-verify_refresh_token_example =
    cleanup_expired_tokens-verify_refresh_token 1000 1000 801 (start signed_in) (omega arith)
      (omega arith)

revoke_token-verify_refresh_token_example :
    (verify_refresh_token 1000 801 (revoke_token 801 (start signed_in)).1).0 ≡ ok none
revoke_token-verify_refresh_token_example =
    revoke_token-verify_refresh_token 1000 801 (start signed_in)

signed_in_again : create_tokens env auth_request fan (start signed_in) ≡ (
  ok (create_access_token env 1000 1, 802),
  (create_tokens env auth_request fan (start signed_in)).1,
)
unfolding create_tokens insert_token ◌>>=◌
signed_in_again = refl

create_tokens-verify_refresh_token_example :
    (verify_refresh_token 1000 801 (create_tokens env auth_request fan (start signed_in)).1).0
    ≡ ok none
create_tokens-verify_refresh_token_example =
    create_tokens-verify_refresh_token env auth_request fan (start signed_in)
      (create_tokens env auth_request fan (start signed_in)).1 (create_access_token env 1000 1, 802)
      signed_in_again 1000 801

verify_email_token-create_email_token_example :
    (verify_email_token env auth_request
      (create_email_token env 900 1 EmailTokenType.verify)
      (start db)).0
    ≡ ok tt
verify_email_token-create_email_token_example =
    verify_email_token-create_email_token env auth_request 900 1 EmailTokenType.verify (start db)
      env-IsEnv

verify_rtoken-create_email_token_example :
    let (r, s') =
      verify_rtoken env auth_request
        (create_email_token env 900 1 EmailTokenType.reset)
        55
        (start signed_in) in
    (r ≡ ok (some true))
    × (s'.committed ≡ s'.view)
    × (with_password env auth_request 55 (find_user 1 s'.view)
        ≡ some (record fan { hashed_password = 755 }))
    × ((verify_refresh_token 1000 801 s').0 ≡ ok none)
verify_rtoken-create_email_token_example =
    verify_rtoken-create_email_token env auth_request 900 fan 55 (start signed_in) 1000 801
      env-IsEnv (omega arith) refl refl

registered : create_user env auth_request 30 604 5 (start db) ≡ (
  ok (new_user env auth_request 30 604 5),
  (create_user env auth_request 30 604 5 (start db)).1,
)
unfolding create_user insert_user ◌>>=◌
registered = refl

create_user-authenticate_user_example :
    ((authenticate_user env auth_request 604 5
        (create_user env auth_request 30 604 5 (start db)).1).0
      ≡ ok (some (new_user env auth_request 30 604 5)))
    × ((authenticate_user env auth_request 604 6
          (create_user env auth_request 30 604 5 (start db)).1).0
        ≡ ok none)
create_user-authenticate_user_example =
    create_user-authenticate_user env auth_request 30 604 5 (start db)
      (create_user env auth_request 30 604 5 (start db)).1 (new_user env auth_request 30 604 5) 604
      6 env-IsEnv registered
