-- ===== src/Identity/Access.antt =====
-- app/deps/auth.py: the user of a request, and the role that a route requires.
use i_dolly_backend.Database.{Database}
use i_dolly_backend.Identity.{Env, decode_token}
use i_dolly_backend.Prelude.{ℕ, ◌||◌, Option, none, some, if◌then◌else◌}
use i_dolly_backend.Rows.{find_user}
use i_dolly_backend.Schema.{is_admin, is_manager}
use i_dolly_backend.Tables.{Text, Time, User, Uuid}

-- The user goes on to the route, or an HTTPException has this status.
pub data Access : Type 0 where
  granted : User → Access
  denied : ℕ → Access

infixl 5 ◌>>=◌
abbrev pub ◌>>=◌ : Access → (User → Access) → Access
granted user >>= f = f user
denied status >>= f = denied status

abbrev user_of_sub : Option Uuid → Database → Option User
user_of_sub none db = none
user_of_sub (some user_id) db = find_user user_id db

module _ (e : Env) (now : Time) (db : Database) where
  -- `_user_from_token`
  unfoldable pub user_from_token : Text → Option User
  user_from_token token' = elim (decode_token e now token') [
    | none ↦ none
    | some payload ↦ user_of_sub payload.sub db
  ]

  -- get_current_user
  unfoldable pub get_current_user : Text → Access
  get_current_user token' = elim (user_from_token token') [
    | none ↦ Access.denied 401
    | some user ↦ Access.granted user
  ]

  -- get_current_user_optional; a missing token is none.
  unfoldable pub get_current_user_optional : Option Text → Option User
  get_current_user_optional none = none
  get_current_user_optional (some token') = user_from_token token'

  -- require_admin
  unfoldable pub require_admin : Text → Access
  require_admin token' = do
    current_user ← get_current_user token'
    if is_admin current_user.role then Access.granted current_user else Access.denied 403

  -- require_manager_or_admin
  unfoldable pub require_manager_or_admin : Text → Access
  require_manager_or_admin token' = do
    current_user ← get_current_user token'
    if is_admin current_user.role || is_manager current_user.role
        then Access.granted current_user
        else Access.denied 403
