-- ===== src/Identity/Rotation.antt =====
-- AuthService.create_tokens, cleanup_expired_tokens and UserService.revoke_token, seen through
-- verify_refresh_token.
use i_dolly_backend.Database.{Database}
use i_dolly_backend.Identity.{Env}
use i_dolly_backend.Identity.Account.{revoke_found, revoke_token}
use i_dolly_backend.Identity.Auth.{
  AuthRequest, cleanup_expired_tokens, create_tokens, find_token, insert_token, is_dead,
  is_live_token_of, new_refresh_token, owner_if_valid, revoke, user_if_any, verify_refresh_token,
}
use i_dolly_backend.Prelude.{
  ◌≤◌, ◌≡◌, refl, ap, ◌∙◌, Bool, true, false, Option, none, some, List, [], ◌∷◌, ◌++◌, Bool-cases,
  Option-cases, arith, count, delete, find, find-append, find-append_some, find-delete,
  find-delete-none, find-update_same, if◌then◌else◌, inl, inr, key-find, update, ◌==◌, ==→eq,
}
use mathlib.Core.Option
use i_dolly_backend.Session.{Result, Session, ok, ◌>>=◌}
use i_dolly_backend.Session.Outcome.{bind-ok, commit-by, modify-by, pure-ok, write-ok}
use i_dolly_backend.Tables.{RefreshToken, Text, Time, User, Uuid}

-- The token is in the table and is the user's.
abbrev pub is_owned : Uuid → Option RefreshToken → Bool
is_owned u none = false
is_owned u (some t) = t.user_id == u

-- The owner is looked up in the users alone.
user_if_any-users :
    (o : Option Uuid) (db db' : Database)
    → db'.users ≡ db.users
    → user_if_any o db' ≡ user_if_any o db
user_if_any-users none db db' e = refl
user_if_any-users (some u) db db' e = ap (find (λ x. x.id == u)) e

-- After a DELETE of the dead tokens, a look-up at no earlier time gives the same owner.
owner-delete :
    (now later : Time) (k : Text) (ts : List RefreshToken)
    → count (λ t. t.token == k) ts ≤ 1
    → now ≤ later
    → owner_if_valid later (find (λ t. t.token == k) (delete (is_dead now) ts))
      ≡ owner_if_valid later (find (λ t. t.token == k) ts)
owner-delete now later k ts h le = elim (Option-cases (find (λ t. t.token == k) ts)) [
  | inl absent ↦ rw (absent, find-delete-none (λ t. t.token == k) (is_dead now) ts absent) refl
  | inr (t, seen) ↦
      let left = find-delete (λ t. t.token == k) (is_dead now) ts h seen in
      elim (Bool-cases (is_dead now t)) [
        | inl dead ↦ rw (seen, left, dead) (ground (arith, dead, le))
        | inr live ↦ rw (seen, left, live) refl
      ]
]

-- Cleaning up changes no answer: where no token stands twice, every refresh token verifies at every
-- later time exactly as it would have without the cleanup.
pub cleanup_expired_tokens-verify_refresh_token :
    (now later : Time) (k : Text) (s : Session)
    → count (λ t. t.token == k) s.view.refresh_tokens ≤ 1
    → now ≤ later
    → (verify_refresh_token later k (cleanup_expired_tokens now s).1).0
      ≡ (verify_refresh_token later k s).0
unfolding verify_refresh_token cleanup_expired_tokens ◌>>=◌
cleanup_expired_tokens-verify_refresh_token now later k s h le = ap ok (
    user_if_any-users _ s.view _ refl
    ∙ ap (λ o. user_if_any o s.view) (owner-delete now later k s.view.refresh_tokens h le))

-- A token that has been logged out verifies for nobody, at any time.
pub revoke_token-verify_refresh_token :
    (later : Time) (k : Text) (s : Session)
    → (verify_refresh_token later k (revoke_token k s).1).0 ≡ ok none
unfolding verify_refresh_token revoke_token revoke_found ◌>>=◌
revoke_token-verify_refresh_token later k s = elim (Option-cases (find_token k s.view)) [
  | inl absent ↦ ground (arith, absent)
  | inr (t, seen) ↦ ground (
    arith,
    seen,
    key-find (λ t. t.token) k s.view.refresh_tokens seen,
    find-update_same (λ x. x.token == k) (λ x. x.token == t.token) revoke s.view.refresh_tokens
        (λ x. refl),
  )
]

pub verify_refresh_token-owner :
    (later : Time) (k : Text) (s : Session)
    → (verify_refresh_token later k s).0
      ≡ ok (user_if_any (owner_if_valid later (find_token k s.view)) s.view)
unfolding verify_refresh_token ◌>>=◌
verify_refresh_token-owner later k s = refl

-- `ok (user_if_any _ db)` taken into the branches of a test.
user_of_branch :
    (b c : Bool) (x y : Option Uuid) (db : Database)
    → ◌≡◌ {A = Result (Option User)}
        (ok (user_if_any (if b then x else (if c then none else y)) db))
        (if b then ok (user_if_any x db) else (if c then ok none else ok (user_if_any y db)))
user_of_branch true c x y db = refl
user_of_branch false true x y db = refl
user_of_branch false false x y db = refl

module _ (e : Env) (req : AuthRequest) where
  -- What a login that returns leaves in the session's view.
  create_tokens-ok :
      (user : User) (s s' : Session) (tokens : Text × Text)
      → create_tokens e req user s ≡ (ok tokens, s')
      → (find_token req.new_token s.view ≡ none)
        × (s'.view ≡ record s.view {
          refresh_tokens =
              update (is_live_token_of user.id) revoke s.view.refresh_tokens
              ++ new_refresh_token e req user.id ∷ [];
        })
  unfolding create_tokens insert_token
  create_tokens-ok user s s' tokens h = modify-by _ _ s s' tokens h λ h₁.
      let (_, s₂, inserted, h₂) =
        bind-ok (insert_token (new_refresh_token e req user.id)) _ _ s' tokens h₁ in
      let (fresh, now₂) = write-ok _ _ _ s₂ tt inserted in
      commit-by _ s₂ s' tokens h₂ λ h₃.
        let (_, now₃) = pure-ok _ tokens _ s' h₃ in
        (
          ground (
            arith,
            fresh,
            find-update_same (λ t. t.token == req.new_token) (is_live_token_of user.id) revoke
                s.view.refresh_tokens (λ t. refl),
          ),
          ap (λ x. x.view) now₃ ∙ ap (λ x. x.view) now₂,
        )

  -- The owner of a token after a login.
  owner-login :
      (u : Uuid) (later : Time) (k : Text) (ts : List RefreshToken)
      → find (λ t. t.token == req.new_token) ts ≡ none
      → owner_if_valid later (
          find
            (λ t. t.token == k)
            (update (is_live_token_of u) revoke ts ++ new_refresh_token e req u ∷ []))
        ≡ (if k == req.new_token
            then owner_if_valid later (some (new_refresh_token e req u))
            else (if is_owned u (find (λ t. t.token == k) ts)
                then none
                else owner_if_valid later (find (λ t. t.token == k) ts)))
  owner-login u later k ts fresh =
      let old = find-update_same (λ t. t.token == k) (is_live_token_of u) revoke ts (λ t. refl) in
      let row = new_refresh_token e req u in
      elim (Bool-cases (k == req.new_token)) [
        | inl own ↦
            let same : k ≡ req.new_token = ==→eq k req.new_token own in
            let fresh' : find (λ t. t.token == k) ts ≡ none = rw same fresh in
            let gone : find (λ t. t.token == k) (update (is_live_token_of u) revoke ts) ≡ none =
              ground (arith, old, fresh') in
            ground (
              arith,
              own,
              same,
              find-append (λ t. t.token) k (update (is_live_token_of u) revoke ts) (row ∷ []) gone,
            )
        | inr other ↦ elim (Option-cases (find (λ t. t.token == k) ts)) [
          | inl absent ↦
              let gone : find (λ t. t.token == k) (update (is_live_token_of u) revoke ts) ≡ none =
                ground (arith, old, absent) in
              ground (
                arith,
                other,
                absent,
                find-append (λ t. t.token) k (update (is_live_token_of u) revoke ts) (row ∷ [])
                    gone,
              )
          | inr (t, seen) ↦
              let still =
                find-append_some (λ t. t.token) k (update (is_live_token_of u) revoke ts) (row ∷ [])
                  (old
                    ∙ ap (Option.map (λ x. if is_live_token_of u x then revoke x else x)) seen) in
              rw (still, seen, other) (ground arith)
        ]
      ]

  -- After a login or a refresh of a user, the new token is valid until its expiry, no other token
  -- of that user is valid any more, and the tokens of all other users verify as before.
  pub create_tokens-verify_refresh_token :
      (user : User) (s s' : Session) (tokens : Text × Text)
      → create_tokens e req user s ≡ (ok tokens, s')
      → (later : Time) (k : Text)
      → (verify_refresh_token later k s').0 ≡ (
          if k == req.new_token
          then ok
              (user_if_any (owner_if_valid later (some (new_refresh_token e req user.id))) s.view)
          else (if is_owned user.id (find_token k s.view)
              then ok none
              else (verify_refresh_token later k s).0))
  create_tokens-verify_refresh_token user s s' tokens h later k =
      let (fresh, view') = create_tokens-ok user s s' tokens h in
      let ts' =
        update (is_live_token_of user.id) revoke s.view.refresh_tokens
        ++ new_refresh_token e req user.id ∷ [] in
      rw (verify_refresh_token-owner later k s', verify_refresh_token-owner later k s, view')
        (ap ok (
            user_if_any-users (owner_if_valid later (find (λ t. t.token == k) ts')) s.view
              (record s.view { refresh_tokens = ts' }) refl)
          ∙ ap (λ o. ok (user_if_any o s.view))
              (owner-login user.id later k s.view.refresh_tokens fresh)
          ∙ user_of_branch (k == req.new_token) (is_owned user.id (find_token k s.view))
              (owner_if_valid later (some (new_refresh_token e req user.id)))
              (owner_if_valid later (find_token k s.view)) s.view)
