-- ===== src/Identity/Registration.antt =====
-- AuthService.create_user, seen through authenticate_user.
use i_dolly_backend.Identity.{Env, IsEnv}
use i_dolly_backend.Identity.Auth.{
  AuthRequest, authenticate_user, create_user, find_email, insert_user, with_password,
}
use i_dolly_backend.Prelude.{
  ◌≡◌, refl, sym, ap, ◌∙◌, false, none, some, List, [], ◌∷◌, ◌++◌, Bool-cases, Option-cases, arith,
  find, find-append, if◌then◌else◌, inl, inr, ◌==◌, ==→eq,
}
use i_dolly_backend.Schema.{UserRole}
use i_dolly_backend.Session.{Session, ok, ◌>>=◌}
use i_dolly_backend.Session.Outcome.{bind-ok, commit-by, guard-by, pure-ok, query-by, write-ok}
use i_dolly_backend.Tables.{Text, User}

-- A row with another email.
find_email-append :
    (other email' : Text) (row : User) (users : List User)
    → row.email ≡ email'
    → (email' == other) ≡ false
    → find (λ u. u.email == other) (users ++ row ∷ []) ≡ find (λ u. u.email == other) users
find_email-append other email' row [] same apart = ground (arith, same, apart)
find_email-append other email' row (u ∷ users) same apart =
    ground (arith, find_email-append other email' row users same apart)

module _ (e : Env) (req : AuthRequest) where
  -- The row of a new account.
  abbrev pub new_user : Text → Text → Text → User
  new_user name' email' password' = record {
    id = req.new_user_id;
    name = name';
    email = email';
    is_admin = false;
    hashed_password = e.hash_password password';
    is_verified = false;
    role = UserRole.fan;
    company_id = none;
  }

  -- What a registration that returns leaves in the session.
  create_user-ok :
      (name' email' password' : Text) (s s' : Session) (user : User)
      → create_user e req name' email' password' s ≡ (ok user, s')
      → (find_email email' s.view ≡ none)
        × (user ≡ new_user name' email' password')
        × (s'.view ≡ record s.view { users = s.view.users ++ new_user name' email' password' ∷ [] })
  unfolding create_user insert_user
  create_user-ok name' email' password' s s' user h =
      let row = new_user name' email' password' in
      query-by _ _ s s' user h λ h₀. guard-by _ _ _ s s' user h₀ λ free h₁.
        let (_, s₂, inserted, h₂) = bind-ok (insert_user row) _ s s' user h₁ in
        let (_, now₂) = write-ok _ _ s s₂ tt inserted in
        commit-by _ s₂ s' user h₂ λ h₃.
          let (same, now₃) = pure-ok row user _ s' h₃ in
          (
            elim (Option-cases (find_email email' s.view)) [
              | inl absent ↦ absent
              | inr (u, seen) ↦ absurd (ground (arith, free, seen))
            ],
            sym same,
            ap (λ x. x.view) now₃ ∙ ap (λ x. x.view) now₂,
          )

  authenticate_user-found :
      (email' password' : Text) (s : Session)
      → (authenticate_user e req email' password' s).0
        ≡ ok (with_password e req password' (find_email email' s.view))
  unfolding authenticate_user ◌>>=◌
  authenticate_user-found email' password' s = refl

  -- After a registration the new account signs in with its own password, and with another one
  -- exactly if that verifies against the stored hash; every other email signs in as before.
  pub create_user-authenticate_user :
      (name' email' password' : Text) (s s' : Session) (user : User) (other attempt : Text)
      → IsEnv e
      → create_user e req name' email' password' s ≡ (ok user, s')
      → ((authenticate_user e req email' password' s').0 ≡ ok (some user))
        × ((authenticate_user e req other attempt s').0 ≡ (
            if other == email'
            then ok (with_password e req attempt (some user))
            else (authenticate_user e req other attempt s).0))
  create_user-authenticate_user name' email' password' s s' user other attempt env h =
      let (free, same, view') = create_user-ok name' email' password' s s' user h in
      let row = new_user name' email' password' in
      let found' : find_email email' s'.view ≡ some row =
        rw view' (find-append (λ u. u.email) email' s.view.users (row ∷ []) free ∙ ground arith) in
      (
        authenticate_user-found email' password' s'
            ∙ ap (λ o. ok (with_password e req password' o)) found'
            ∙ rw (env.password password', same) refl,
        authenticate_user-found other attempt s' ∙ elim (Bool-cases (other == email')) [
          | inl own ↦
              let equal : other ≡ email' = ==→eq other email' own in
              rw (own, same, equal) (ap (λ o. ok (with_password e req attempt o)) found')
          | inr apart ↦
              rw (apart, view')
                (ap (λ o. ok (with_password e req attempt o))
                    (find_email-append other email' row s.view.users refl (ground (arith, apart)))
                  ∙ sym (authenticate_user-found other attempt s))
        ],
      )
