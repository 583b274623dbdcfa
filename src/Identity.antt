-- ===== src/Identity.antt =====
-- app/utils/jwt_manager.py and app/utils/hashing.py: tokens and passwords.
pub mod Access
pub mod Auth
pub mod Account
pub mod Sessions
pub mod Rotation
pub mod EmailTokens
pub mod Registration
mod SampleEnv
mod Tests
use i_dolly_backend.Prelude.{
  ℕ, ◌+◌, ◌*◌, ◌≤◌, ◌<◌, ◌≡◌, Bool, true, false, Option, none, some, if◌then◌else◌,
}
use i_dolly_backend.Tables.{Text, Time, Uuid}

-- EmailTokenType
pub data EmailTokenType : Type 0 where
  verify reset : EmailTokenType

abbrev pub same_type : EmailTokenType → EmailTokenType → Bool
same_type EmailTokenType.verify EmailTokenType.verify = true
same_type EmailTokenType.reset EmailTokenType.reset = true
same_type _ _ = false

-- The payload of a token. `sub` is none where it is missing or no UUID, `type` where it is missing
-- or neither of the two.
pub record Claims : Type 0 where
  pub sub : Option Uuid
  pub type : Option EmailTokenType
  pub exp : Time

-- What comes from outside: app/config/settings.py's values, python-jose and passlib. `decode` has
-- the secret, the time and the token; it gives none for a JWTError.
pub record Env : Type 0 where
  pub jwt_secret_key : Text
  pub jwt_email_secret_key : Text
  pub access_token_expire_minutes : ℕ
  pub refresh_token_expire_days : ℕ
  pub email_token_expire_minutes : ℕ
  pub encode : Text → Claims → Text
  pub decode : Text → Time → Text → Option Claims
  pub hash_password : Text → Text
  pub verify_password : Text → Text → Bool

-- What is documented of the two libraries: a token decodes under its own secret to its payload up
-- to its expiry, and not at all after it; a password verifies against its hash.
pub record IsEnv (e : Env) : Type 0 where
  pub valid :
      (k : Text) (c : Claims) (now : Time) → now ≤ c.exp → e.decode k now (e.encode k c) ≡ some c
  pub expired :
      (k : Text) (c : Claims) (now : Time) → c.exp < now → e.decode k now (e.encode k c) ≡ none
  pub password : (p : Text) → e.verify_password p (e.hash_password p) ≡ true

module _ (e : Env) where
  unfoldable pub create_access_token : Time → Uuid → Text
  create_access_token now user_id =
      e.encode e.jwt_secret_key
        (record { sub = some user_id; type = none; exp = now + e.access_token_expire_minutes * 60 })

  unfoldable pub decode_token : Time → Text → Option Claims
  decode_token now token = e.decode e.jwt_secret_key now token

  -- `_create_email_token`, which the two functions for one kind call.
  unfoldable pub create_email_token : Time → Uuid → EmailTokenType → Text
  create_email_token now user_id token_type = e.encode e.jwt_email_secret_key (record {
    sub = some user_id;
    type = some token_type;
    exp = now + e.email_token_expire_minutes * 60;
  })

  -- `payload.get("type") != expected_type`
  abbrev pub has_type : Option EmailTokenType → EmailTokenType → Bool
  has_type none expected = false
  has_type (some t) expected = same_type t expected

  unfoldable pub decode_email_token : Time → Text → EmailTokenType → Option Uuid
  decode_email_token now token expected = elim (e.decode e.jwt_email_secret_key now token) [
    | none ↦ none
    | some payload ↦ if has_type payload.type expected then payload.sub else none
  ]
