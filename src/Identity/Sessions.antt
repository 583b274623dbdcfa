-- ===== src/Identity/Sessions.antt =====
-- AuthService and UserService as steps of one database: what holds in every database that any
-- sequence of their calls reaches.
use i_dolly_backend.Database.{Database}
use i_dolly_backend.Identity.{Env}
use i_dolly_backend.Identity.Account.{
  change_password_process, create_manager_user, promote_admin, promote_found, reset_decoded,
  reset_found, reset_password, revoke_found, revoke_token, verify_rtoken,
}
use i_dolly_backend.Identity.Auth.{
  AuthRequest, cleanup_expired_tokens, create_tokens, create_user, find_token, insert_token,
  insert_user, is_live_token_of, new_refresh_token, put_user, revoke, revoke_all,
  verify_email_token,
}
use i_dolly_backend.Prelude.{
  ◌≤◌, ◌≡◌, refl, Bool, Option, none, some, List, [], ◌∷◌, ◌++◌, Bool-cases, arith, count,
  count-append, count-delete-le, count-update_same, count_zero_of_find, delete, inl, inr, update,
  ◌==◌, ==→eq,
}
use i_dolly_backend.Rows.{add_notification}
use i_dolly_backend.Session.{Session, start}
use i_dolly_backend.Session.Invariant.{
  Holds, Keeps, Keeps-write, bind-Holds, keeps_rules, modify-Holds, write-Holds,
}
use i_dolly_backend.Tables.{Notification, RefreshToken, Text, Time, User, Uuid}

-- A user has at most one live refresh token, and no token stands twice.
pub record SessionsSound (db : Database) : Type 0 where
  pub one_live : (u : Uuid) → count (is_live_token_of u) db.refresh_tokens ≤ 1
  pub unique : (k : Text) → count (λ t. t.token == k) db.refresh_tokens ≤ 1

count-revoke :
    (p : RefreshToken → Bool) (u : Uuid) (ts : List RefreshToken)
    → count (is_live_token_of u) (update p revoke ts) ≤ count (is_live_token_of u) ts
count-revoke p u [] = omega arith
count-revoke p u (t ∷ ts) = ground (arith, count-revoke p u ts)

-- Revoking all tokens of a user leaves that user none.
count-revoke_all :
    (u : Uuid) (ts : List RefreshToken)
    → count (is_live_token_of u) (update (is_live_token_of u) revoke ts) ≡ 0
count-revoke_all u [] = refl
count-revoke_all u (t ∷ ts) = ground (arith, count-revoke_all u ts)

-- An update that revokes some rows.
revoke-SessionsSound :
    (p : RefreshToken → Bool) (db : Database)
    → SessionsSound db
    → SessionsSound (record db { refresh_tokens = update p revoke db.refresh_tokens })
revoke-SessionsSound p db h = record {
  one_live = λ u. omega (arith, h.one_live u, count-revoke p u db.refresh_tokens);
  unique = λ k. omega (
    arith,
    h.unique k,
    count-update_same (λ t. t.token == k) p revoke db.refresh_tokens (λ t. refl),
  );
}

-- A new token of a user without a live one.
insert-SessionsSound :
    (t : RefreshToken) (db : Database)
    → SessionsSound db
    → count (is_live_token_of t.user_id) db.refresh_tokens ≡ 0
    → find_token t.token db ≡ none
    → SessionsSound (record db { refresh_tokens = db.refresh_tokens ++ t ∷ [] })
insert-SessionsSound t db h empty fresh = record {
  one_live = λ u. elim (Bool-cases (t.user_id == u)) [
    | inl own ↦
        let same : t.user_id ≡ u = ==→eq t.user_id u own in
        ground
          (arith, rw same at empty, count-append (is_live_token_of u) db.refresh_tokens (t ∷ []))
    | inr other ↦
        ground
          (arith, other, h.one_live u, count-append (is_live_token_of u) db.refresh_tokens (t ∷ []))
  ];
  unique = λ k. elim (Bool-cases (t.token == k)) [
    | inl own ↦
        let same : t.token ≡ k = ==→eq t.token k own in
        ground (
          arith,
          count_zero_of_find (λ x. x.token == k) db.refresh_tokens (rw same at fresh),
          count-append (λ x. x.token == k) db.refresh_tokens (t ∷ []),
        )
    | inr other ↦
        ground
          (arith, other, h.unique k, count-append (λ x. x.token == k) db.refresh_tokens (t ∷ []))
  ];
}

revoke_all-SessionsSound :
    (u : Uuid) (db : Database) → SessionsSound db → SessionsSound (revoke_all u db)
revoke_all-SessionsSound u db h = revoke-SessionsSound (is_live_token_of u) db h

insert_token-SessionsSound :
    (t : RefreshToken) (s : Session)
    → Holds SessionsSound s
    → count (is_live_token_of t.user_id) s.view.refresh_tokens ≡ 0
    → Holds SessionsSound (insert_token t s).1
unfolding insert_token
insert_token-SessionsSound t s h empty =
    write-Holds SessionsSound _ _ s h
      (λ fresh. insert-SessionsSound t s.view h.0 empty (ground (arith, fresh)))

module _ (e : Env) (req : AuthRequest) where
  -- A login or a refresh keeps every user at one live token, and the tokens apart, whether it
  -- returns or raises.
  pub create_tokens-SessionsSound :
      (user : User) (s : Session)
      → Holds SessionsSound s
      → Holds SessionsSound (create_tokens e req user s).1
  unfolding create_tokens
  create_tokens-SessionsSound user s h =
      let row = new_refresh_token e req user.id in
      let revoked = revoke_all-SessionsSound user.id s.view h.0 in
      let cleared : Session = record s { view = revoke_all user.id s.view } in
      modify-Holds SessionsSound (revoke_all user.id) _ s (
        bind-Holds SessionsSound (insert_token row) _ cleared
          (insert_token-SessionsSound row cleared (revoked, h.1)
            (count-revoke_all user.id s.view.refresh_tokens))
          (λ _. search keeps_rules))

-- A write to another table.
same_tokens :
    (db db' : Database)
    → db'.refresh_tokens ≡ db.refresh_tokens
    → SessionsSound db
    → SessionsSound db'
same_tokens db db' e h = record {
  one_live = λ u. rw e (h.one_live u);
  unique = λ k. rw e (h.unique k);
}

revoke_one-SessionsSound : (t : Option RefreshToken) → Keeps SessionsSound (revoke_found t)
unfolding revoke_found
revoke_one-SessionsSound none = search keeps_rules
revoke_one-SessionsSound (some t) = search (keeps_rules, revoke-SessionsSound) depth 20

delete-SessionsSound :
    (p : RefreshToken → Bool) (db : Database)
    → SessionsSound db
    → SessionsSound (record db { refresh_tokens = delete p db.refresh_tokens })
delete-SessionsSound p db h = record {
  one_live =
      λ u. omega (arith, h.one_live u, count-delete-le (is_live_token_of u) p db.refresh_tokens);
  unique = λ k. omega (arith, h.unique k, count-delete-le (λ t. t.token == k) p db.refresh_tokens);
}

cleanup-SessionsSound : (now : Time) → Keeps SessionsSound (cleanup_expired_tokens now)
unfolding cleanup_expired_tokens
cleanup-SessionsSound now = search (keeps_rules, delete-SessionsSound) depth 20

revoke_token-SessionsSound : (token' : Text) → Keeps SessionsSound (revoke_token token')
unfolding revoke_token
revoke_token-SessionsSound token' = search (keeps_rules, revoke_one-SessionsSound) depth 20

insert_user-SessionsSound : (user : User) → Keeps SessionsSound (insert_user user)
unfolding insert_user
insert_user-SessionsSound user = Keeps-write SessionsSound _ _ (λ db _ h. same_tokens db _ refl h)

put_user-SessionsSound :
    (user : User) (db : Database) → SessionsSound db → SessionsSound (put_user user db)
put_user-SessionsSound user db h = same_tokens db _ refl h

notify-SessionsSound :
    (n : Notification) (db : Database) → SessionsSound db → SessionsSound (add_notification n db)
notify-SessionsSound n db h = same_tokens db _ refl h

promote-SessionsSound : (user : Option User) → Keeps SessionsSound (promote_found user)
unfolding promote_found
promote-SessionsSound none = search keeps_rules
promote-SessionsSound (some user) = search (keeps_rules, put_user-SessionsSound) depth 20

promote_admin-SessionsSound : (user_id : Uuid) → Keeps SessionsSound (promote_admin user_id)
unfolding promote_admin
promote_admin-SessionsSound user_id = search (keeps_rules, promote-SessionsSound) depth 20

module _ (e : Env) (req : AuthRequest) where
  create_user-SessionsSound :
      (name' email' password' : Text)
      → Keeps SessionsSound (create_user e req name' email' password')
  unfolding create_user
  create_user-SessionsSound name' email' password' =
      search (keeps_rules, insert_user-SessionsSound) depth 20

  create_manager_user-SessionsSound :
      (name' email' password' : Text) (company_id' : Uuid)
      → Keeps SessionsSound (create_manager_user e req name' email' password' company_id')
  unfolding create_manager_user
  create_manager_user-SessionsSound name' email' password' company_id' =
      search (keeps_rules, insert_user-SessionsSound) depth 20

  verify_email_token-SessionsSound :
      (token' : Text) → Keeps SessionsSound (verify_email_token e req token')
  unfolding verify_email_token
  verify_email_token-SessionsSound token' = search (keeps_rules, put_user-SessionsSound) depth 20

  change_password-SessionsSound :
      (user : User) (old new : Text)
      → Keeps SessionsSound (change_password_process e req user old new)
  unfolding change_password_process
  change_password-SessionsSound user old new = search (keeps_rules, put_user-SessionsSound) depth 20

  reset_found-SessionsSound :
      (user : Option User) (password' : Text)
      → Keeps SessionsSound (reset_found e req user password')
  unfolding reset_found reset_password
  reset_found-SessionsSound none password' = search keeps_rules
  reset_found-SessionsSound (some user) password' =
      search (keeps_rules, put_user-SessionsSound, revoke_all-SessionsSound, notify-SessionsSound)
        depth 30

  reset_decoded-SessionsSound :
      (user_id : Option Uuid) (password' : Text)
      → Keeps SessionsSound (reset_decoded e req user_id password')
  unfolding reset_decoded
  reset_decoded-SessionsSound none password' = search keeps_rules
  reset_decoded-SessionsSound (some user_id) password' =
      search (keeps_rules, reset_found-SessionsSound) depth 20

-- One call of the account services, run in a session of its own: it commits, or raises and leaves
-- what was committed.
pub data Step (e : Env) (db : Database) : Database → Type 0 where
  register :
      (req : AuthRequest) (name' email' password' : Text)
      → Step e db (create_user e req name' email' password' (start db)).1.committed
  hire :
      (req : AuthRequest) (name' email' password' : Text) (company_id' : Uuid)
      → Step e db
          (create_manager_user e req name' email' password' company_id' (start db)).1.committed
  login :
      (req : AuthRequest) (user : User)
      → Step e db (create_tokens e req user (start db)).1.committed
  logout : (token' : Text) → Step e db (revoke_token token' (start db)).1.committed
  confirm :
      (req : AuthRequest) (token' : Text)
      → Step e db (verify_email_token e req token' (start db)).1.committed
  change :
      (req : AuthRequest) (user : User) (old new : Text)
      → Step e db (change_password_process e req user old new (start db)).1.committed
  reset :
      (req : AuthRequest) (token' new : Text)
      → Step e db (verify_rtoken e req token' new (start db)).1.committed
  promote : (user_id : Uuid) → Step e db (promote_admin user_id (start db)).1.committed
  cleanup : (now : Time) → Step e db (cleanup_expired_tokens now (start db)).1.committed

pub data Reach (e : Env) (db : Database) : Database → Type 0 where
  here : Reach e db db
  next : {mid db' : Database} → Reach e db mid → Step e mid db' → Reach e db db'

Step-SessionsSound :
    {e : Env} {db db' : Database} → Step e db db' → SessionsSound db → SessionsSound db'
unfolding verify_rtoken promote_admin
Step-SessionsSound {e} {db} (register req n m p) h =
    ((create_user-SessionsSound e req n m p).at (start db) (h, h)).1
Step-SessionsSound {e} {db} (hire req n m p c) h =
    ((create_manager_user-SessionsSound e req n m p c).at (start db) (h, h)).1
Step-SessionsSound {e} {db} (login req user) h =
    (create_tokens-SessionsSound e req user (start db) (h, h)).1
Step-SessionsSound {e} {db} (logout token') h =
    ((revoke_token-SessionsSound token').at (start db) (h, h)).1
Step-SessionsSound {e} {db} (confirm req token') h =
    ((verify_email_token-SessionsSound e req token').at (start db) (h, h)).1
Step-SessionsSound {e} {db} (change req user old new) h =
    ((change_password-SessionsSound e req user old new).at (start db) (h, h)).1
Step-SessionsSound {e} {db} (reset req token' new) h =
    ((reset_decoded-SessionsSound e req _ new).at (start db) (h, h)).1
Step-SessionsSound {e} {db} (promote user_id) h =
    ((promote_admin-SessionsSound user_id).at (start db) (h, h)).1
Step-SessionsSound {e} {db} (cleanup now) h = ((cleanup-SessionsSound now).at (start db) (h, h)).1

-- In every database that calls of the account services reach, in any order and with any
-- arguments, each user has at most one live refresh token, and no token stands twice.
pub Reach-SessionsSound :
    {e : Env} {db db' : Database} → Reach e db db' → SessionsSound db → SessionsSound db'
Reach-SessionsSound here h = h
Reach-SessionsSound (next r st) h = Step-SessionsSound st (Reach-SessionsSound r h)
