-- ===== src/Identity/SampleEnv.antt =====
-- A concrete Env for the tests of the account services: a token is the number of its secret and
-- its payload, by Cantor's numbering of the pairs.
use i_dolly_backend.Identity.{Claims, EmailTokenType, Env, IsEnv}
use i_dolly_backend.Prelude.{
  ℕ, zero, suc, ◌+◌, ◌≡◌, refl, ap, ◌∙◌, Option, none, some, arith, if◌then◌else◌, ltb, ◌==◌,
}
use i_dolly_backend.Tables.{Text, Time, Uuid}

-- The pair after `p` on the diagonals.
abbrev next : ℕ × ℕ → ℕ × ℕ
next (zero, b) = (suc b, 0)
next (suc a, b) = (a, suc b)

unfoldable pub unpair : ℕ → ℕ × ℕ
unpair zero = (0, 0)
unpair (suc n) = next (unpair n)

unfoldable pub triangle : ℕ → ℕ
triangle zero = 0
triangle (suc s) = suc (triangle s + s)

unfoldable pub pair : ℕ → ℕ → ℕ
pair a b = triangle (a + b) + b

unpair-triangle : (s a b : ℕ) → a + b ≡ s → unpair (triangle s + b) ≡ (a, b)
unfolding unpair triangle
unpair-triangle zero a b h =
    let none_left : b ≡ 0 = omega (arith, h) in
    let none_right : a ≡ 0 = omega (arith, h) in rw (none_left, none_right) refl
unpair-triangle (suc s) a zero h =
    let first : a ≡ suc s = omega (arith, h) in
    let at : suc (triangle s + s) + 0 ≡ suc (triangle s + s) = omega arith in
    ap unpair at ∙ ap next (unpair-triangle s 0 s (omega arith)) ∙ rw first refl
unpair-triangle (suc s) a (suc b) h =
    let at : suc (triangle s + s) + suc b ≡ suc (suc (triangle s + s) + b) = omega arith in
    ap unpair at ∙ ap next (unpair-triangle (suc s) (suc a) b (omega (arith, h)))

unpair-pair : (a b : ℕ) → unpair (pair a b) ≡ (a, b)
unfolding pair
unpair-pair a b = unpair-triangle (a + b) a b refl

abbrev code_of : Option EmailTokenType → ℕ
code_of none = 0
code_of (some EmailTokenType.verify) = 1
code_of (some EmailTokenType.reset) = 2

abbrev type_of : ℕ → Option EmailTokenType
type_of zero = none
type_of (suc zero) = some EmailTokenType.verify
type_of (suc (suc n)) = some EmailTokenType.reset

type_of-code_of : (t : Option EmailTokenType) → type_of (code_of t) ≡ t
type_of-code_of none = refl
type_of-code_of (some EmailTokenType.verify) = refl
type_of-code_of (some EmailTokenType.reset) = refl

abbrev sub_code : Option Uuid → ℕ
sub_code none = 0
sub_code (some u) = suc u

abbrev sub_of : ℕ → Option Uuid
sub_of zero = none
sub_of (suc u) = some u

sub_of-sub_code : (o : Option Uuid) → sub_of (sub_code o) ≡ o
sub_of-sub_code none = refl
sub_of-sub_code (some u) = refl

unfoldable pub sample_encode : Text → Claims → Text
sample_encode k c = pair k (pair (sub_code c.sub) (pair (code_of c.type) c.exp))

-- The payload of a token with this secret, before its expiry is read.
unfoldable pub sample_payload : ℕ × ℕ → Text → Option Claims
sample_payload (k, rest) secret =
    let (sub', rest') = unpair rest in
    let (type', exp') = unpair rest' in
    if k == secret
    then some (record { sub = sub_of sub'; type = type_of type'; exp = exp' })
    else none

abbrev until : Time → Option Claims → Option Claims
until now none = none
until now (some c) = if ltb c.exp now then none else some c

unfoldable pub sample_decode : Text → Time → Text → Option Claims
sample_decode k now token' = until now (sample_payload (unpair token') k)

sample_payload-encode :
    (k : Text) (c : Claims) → sample_payload (unpair (sample_encode k c)) k ≡ some c
unfolding sample_payload sample_encode
sample_payload-encode k c =
    rw
      (
        unpair-pair k (pair (sub_code c.sub) (pair (code_of c.type) c.exp)),
        unpair-pair (sub_code c.sub) (pair (code_of c.type) c.exp),
        unpair-pair (code_of c.type) c.exp,
        sub_of-sub_code c.sub,
        type_of-code_of c.type,
      )
      (ground arith)

abbrev pub env : Env
env = record {
  jwt_secret_key = 1;
  jwt_email_secret_key = 2;
  access_token_expire_minutes = 15;
  refresh_token_expire_days = 7;
  email_token_expire_minutes = 30;
  encode = sample_encode;
  decode = sample_decode;
  hash_password = λ p. p + 700;
  verify_password = λ p h. p + 700 == h;
}

pub env-IsEnv : IsEnv env
unfolding sample_decode
env-IsEnv = record {
  valid = λ k c now h. rw (sample_payload-encode k c) (ground (arith, h));
  expired = λ k c now h. rw (sample_payload-encode k c) (ground (arith, h));
  password = λ p. ground arith;
}
