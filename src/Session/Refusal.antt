-- ===== src/Session/Refusal.antt =====
-- The errors that a service raises: rules by which they are known to be the program's own.
use i_dolly_backend.Database.{Database}
use i_dolly_backend.Error.{Error, is_raw}
use i_dolly_backend.Prelude.{
  ◌≡◌, refl, Bool, true, false, Option, none, some, arith, Option-cases, inl, inr, ap,
}
use i_dolly_backend.Session.{
  Session, Effect, Result, ok, err, Service, pure, query, found, raise_if, modify, commit, send,
  when, write, continue, ◌>>=◌,
}

-- What the service raises is no raw error of the database.
pub record Refuses {A : Type 0} (m : Service A) : Type 0 where
  pub at : (s : Session) (e : Error) → (m s).0 ≡ err e → is_raw e ≡ false

module _ {A : Type 0} where
  pub Refuses-pure : (a : A) → Refuses (pure a)
  unfolding pure
  Refuses-pure a = record { at = λ s e h. cc }

  pub Refuses-query : (f : Database → A) → Refuses (query f)
  unfolding query
  Refuses-query f = record { at = λ s e h. cc }

  pub Refuses-found : (e : Error) (o : Option A) → is_raw e ≡ false → Refuses (found e o)
  unfolding found
  Refuses-found x none h = record { at = λ s e v. ground (arith, v, h) }
  Refuses-found x (some a) h = record { at = λ s e v. cc }

pub Refuses-raise_if : (e : Error) (b : Bool) → is_raw e ≡ false → Refuses (raise_if e b)
unfolding raise_if
Refuses-raise_if x true h = record { at = λ s e v. ground (arith, v, h) }
Refuses-raise_if x false h = record { at = λ s e v. cc }

pub Refuses-modify : (f : Database → Database) → Refuses (modify f)
unfolding modify
Refuses-modify f = record { at = λ s e h. cc }

pub Refuses-commit : Refuses commit
unfolding commit
Refuses-commit = record { at = λ s e h. cc }

pub Refuses-send : (x : Effect) → Refuses (send x)
unfolding send
Refuses-send x = record { at = λ s e h. ground (arith, h) }

pub Refuses-write :
    (check : Database → Option Error) (f : Database → Database)
    → ((db : Database) (e : Error) → check db ≡ some e → is_raw e ≡ false)
    → Refuses (write check f)
unfolding write
Refuses-write check f k = record {
  at = λ s e h. elim (Option-cases (check s.view)) [
    | inl passed ↦ ground (arith, h, passed)
    | inr (x, raised) ↦ k s.view e (ground (arith, h, raised))
  ];
}

pub Refuses-when : (b : Bool) (m : Service (Unit {0})) → Refuses m → Refuses (when b m)
unfolding when
Refuses-when true m h = record { at = h.at }
Refuses-when false m h = record { at = λ s e v. cc }

module _ {A B : Type 0} where
  continue-Refuses :
      (r : Result A) (f : A → Service B) (s : Session) (e : Error)
      → ((x : Error) → r ≡ err x → is_raw x ≡ false)
      → ((a : A) → r ≡ ok a → (f a s).0 ≡ err e → is_raw e ≡ false)
      → (continue r f s).0 ≡ err e
      → is_raw e ≡ false
  continue-Refuses (ok a) f s e h k v = k a refl v
  continue-Refuses (err x) f s e h k v = h e (ground (arith, v))

  -- One step of a block, with what the step has found out.
  pub raises-by :
      (m : Service A) (f : A → Service B) (s : Session) (e : Error)
      → ((m >>= f) s).0 ≡ err e
      → ((x : Error) → (m s).0 ≡ err x → is_raw x ≡ false)
      → ((a : A) → m s ≡ (ok a, (m s).1) → (f a (m s).1).0 ≡ err e → is_raw e ≡ false)
      → is_raw e ≡ false
  unfolding ◌>>=◌
  raises-by m f s e v h k =
      continue-Refuses (m s).0 f (m s).1 e h (λ a q. k a (ap (λ r. (r, (m s).1)) q)) v

  pub Refuses-bind :
      (m : Service A) (f : A → Service B)
      → Refuses m
      → ((a : A) → Refuses (f a))
      → Refuses (m >>= f)
  Refuses-bind m f h k = record {
    at = λ s e v. raises-by m f s e v (h.at s) (λ a _. (k a).at (m s).1 e);
  }

pub ruleset refusal_rules = (
  Refuses-pure, Refuses-query, Refuses-found, Refuses-raise_if, Refuses-modify, Refuses-commit,
  Refuses-send, Refuses-when, Refuses-bind,
)
