-- ===== src/Identity/EmailTokens.antt =====
-- `_create_email_token` and `_decode_email_token`, and the two calls that take such a token:
-- AuthService.verify_email_token and UserService.verify_rtoken.
use i_dolly_backend.Database.{Database}
use i_dolly_backend.Error.{ErrorClass, coded}
use i_dolly_backend.Identity.{
  Claims, EmailTokenType, Env, IsEnv, create_email_token, decode_email_token, same_type,
}
use i_dolly_backend.Identity.Account.{reset_decoded, reset_found, reset_password, verify_rtoken}
use i_dolly_backend.Identity.Auth.{
  AuthRequest, find_token, is_live_token_of, owner_if_valid, put_user, revoke, revoke_all,
  user_if_any, verify_email_token, verify_refresh_token, with_password,
}
use i_dolly_backend.Identity.Rotation.{is_owned, verify_refresh_token-owner}
use i_dolly_backend.Notification.{notice}
use i_dolly_backend.Prelude.{
  ◌+◌, ◌*◌, ◌≤◌, ◌≡◌, refl, ap, ◌∙◌, true, false, Option, none, some, Bool-cases, Option-cases,
  arith, find-put, find-update_same, if◌then◌else◌, inl, inr, ltb, ◌==◌,
}
use i_dolly_backend.Schema.{NotificationType}
use i_dolly_backend.Rows.{add_notification, find_user}
use i_dolly_backend.Session.{Result, Session, err, ok, ◌>>=◌}
use i_dolly_backend.Tables.{Text, Time, User, Uuid}

-- The last moment of an email token of the moment `now`.
abbrev pub email_token_expiry : Env → Time → Time
email_token_expiry e now = now + e.email_token_expire_minutes * 60

decode_email_token-create_email_token :
    (e : Env) (now later : Time) (u : Uuid) (k expected : EmailTokenType)
    → IsEnv e
    → decode_email_token e later (create_email_token e now u k) expected ≡ (
        if ltb (email_token_expiry e now) later
        then none
        else (if same_type k expected then some u else none))
unfolding decode_email_token create_email_token
decode_email_token-create_email_token e now later u k expected h =
    let c : Claims = record { sub = some u; type = some k; exp = email_token_expiry e now } in
    elim (Bool-cases (ltb (email_token_expiry e now) later)) [
      | inl late ↦
          rw
            (
              late,
              h.expired e.jwt_email_secret_key c later (ground (arith, late)),
              decode_email_token,
              create_email_token,
            )
            refl
      | inr early ↦
          rw
            (
              early,
              h.valid e.jwt_email_secret_key c later (ground (arith, early)),
              decode_email_token,
              create_email_token,
            )
            refl
    ]

-- What verifying answers for the user that a token names.
abbrev pub verification_answer : Option User → Result (Unit {0})
verification_answer none = err (coded ErrorClass.bad_request "invalid_token")
verification_answer (some user) =
    if user.is_verified then err (coded ErrorClass.conflict "already_verified") else ok tt

verify_email_token-answer :
    (e : Env) (req : AuthRequest) (token' : Text) (s : Session)
    → (verify_email_token e req token' s).0
      ≡ verification_answer
          (user_if_any (decode_email_token e req.now token' EmailTokenType.verify) s.view)
unfolding verify_email_token ◌>>=◌
verify_email_token-answer e req token' s =
    elim (Option-cases
      (user_if_any (decode_email_token e req.now token' EmailTokenType.verify) s.view)) [
        | inl absent ↦ ground (arith, absent)
        | inr (user, seen) ↦ elim (Bool-cases user.is_verified) [
          | inl before ↦ ground (arith, seen, before)
          | inr first ↦ ground (arith, seen, first)
        ]
      ]

-- The answer to an emailed token: the user it was made for is verified, or is verified already, as
-- long as the token has not expired; an expired token, a token of the other kind and the token of
-- a deleted user are all invalid.
pub verify_email_token-create_email_token :
    (e : Env) (req : AuthRequest) (issued : Time) (u : Uuid) (k : EmailTokenType) (s : Session)
    → IsEnv e
    → (verify_email_token e req (create_email_token e issued u k) s).0 ≡ (
        if ltb (email_token_expiry e issued) req.now
        then err (coded ErrorClass.bad_request "invalid_token")
        else (if same_type k EmailTokenType.verify
            then verification_answer (find_user u s.view)
            else err (coded ErrorClass.bad_request "invalid_token")))
verify_email_token-create_email_token e req issued u k s h =
    rw
      (
        verify_email_token-answer e req (create_email_token e issued u k) s,
        decode_email_token-create_email_token e issued req.now u k EmailTokenType.verify h,
      )
      (elim (Bool-cases (ltb (email_token_expiry e issued) req.now)) [
        | inl late ↦ rw late refl
        | inr early ↦ rw early (elim (Bool-cases (same_type k EmailTokenType.verify)) [
          | inl same ↦ rw same refl
          | inr other ↦ rw other refl
        ])
      ])

-- The database after a password reset.
abbrev pub after_reset : Env → User → Text → Database → Database
after_reset e user new db =
    add_notification (notice user.id NotificationType.password_reset)
      (revoke_all user.id (put_user (record user { hashed_password = e.hash_password new }) db))

reset_decoded-run :
    (e : Env) (req : AuthRequest) (u : Uuid) (new : Text) (user : User) (s : Session)
    → find_user u s.view ≡ some user
    → reset_decoded e req (some u) new s ≡ (
      ok (some true),
      record s { view = after_reset e user new s.view; committed = after_reset e user new s.view },
    )
unfolding reset_decoded reset_found reset_password ◌>>=◌
reset_decoded-run e req u new user s seen = ground (arith, seen)

after_reset-find_user :
    (e : Env) (new : Text) (user : User) (db : Database)
    → find_user user.id db ≡ some user
    → find_user user.id (after_reset e user new db)
      ≡ some (record user { hashed_password = e.hash_password new })
after_reset-find_user e new user db seen =
    find-put (λ x. x.id) (record user { hashed_password = e.hash_password new }) db.users {x = user}
      seen

after_reset-owner :
    (e : Env) (new : Text) (user : User) (db : Database) (later : Time) (k : Text)
    → is_owned user.id (find_token k db) ≡ true
    → owner_if_valid later (find_token k (after_reset e user new db)) ≡ none
after_reset-owner e new user db later k own =
    let found' =
      find-update_same (λ t. t.token == k) (is_live_token_of user.id) revoke db.refresh_tokens
        (λ t. refl) in
    elim (Option-cases (find_token k db)) [
      | inl absent ↦ ground (arith, own, absent)
      | inr (t, seen) ↦ rw (found', seen) (ground (arith, own, seen))
    ]

-- A reset link that has not expired works: the call commits, the account has the new password, and
-- a refresh token that the account had verifies no more, at any time.
pub verify_rtoken-create_email_token :
    (e : Env) (req : AuthRequest) (issued : Time) (user : User) (new : Text) (s : Session)
    (later : Time) (k : Text)
    → IsEnv e
    → req.now ≤ email_token_expiry e issued
    → find_user user.id s.view ≡ some user
    → is_owned user.id (find_token k s.view) ≡ true
    → let (r, s') =
        verify_rtoken e req (create_email_token e issued user.id EmailTokenType.reset) new s in
      (r ≡ ok (some true))
      × (s'.committed ≡ s'.view)
      × (with_password e req new (find_user user.id s'.view)
          ≡ some (record user { hashed_password = e.hash_password new }))
      × ((verify_refresh_token later k s').0 ≡ ok none)
unfolding verify_rtoken
verify_rtoken-create_email_token e req issued user new s later k h early seen own =
    let decoded =
      decode_email_token-create_email_token e issued req.now user.id EmailTokenType.reset
        EmailTokenType.reset h in
    let run = reset_decoded-run e req user.id new user s seen in
    let db' = after_reset e user new s.view in
    let in_time : ltb (email_token_expiry e issued) req.now ≡ false = ground (arith, early) in
    rw (decoded, in_time, run)
      (
        refl,
        refl,
        rw (after_reset-find_user e new user s.view seen, h.password new) refl,
        verify_refresh_token-owner later k (record s { view = db'; committed = db' })
            ∙ ap (λ o. ok (user_if_any o db')) (after_reset-owner e new user s.view later k own),
      )
