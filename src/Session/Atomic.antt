-- ===== src/Session/Atomic.antt =====
-- All or nothing: what a service has committed when it raises. One rule for each way to build a
-- service lets `search` prove it of a whole handler.
use i_dolly_backend.Database.{Database}
use i_dolly_backend.Error.{Error}
use i_dolly_backend.Prelude.{
  ◌≡◌, refl, ap, ◌∙◌, Bool, true, false, Option, none, some, if◌then◌else◌, arith,
}
use i_dolly_backend.Session.{
  Session, Effect, Result, ok, err, Service, pure, raise, query, found, raise_if, modify, write,
  calm, commit, rollback, emit, when, continue, ◌>>=◌,
}

-- The service commits nothing, and asks nothing of Redis.
pub record Uncommitted {A : Type 0} (m : Service A) : Type 0 where
  pub at : (s : Session) → (m s).1.committed ≡ s.committed
  pub blind : (s : Session) → m (calm s) ≡ ((m s).0, calm (m s).1)

-- The service never raises.
pub record Returns {A : Type 0} (m : Service A) : Type 0 where
  pub value : (s : Session) → (a : A) × ((m s).0 ≡ ok a)

-- Where the service raises, it has committed nothing.
pub record IsAtomic {A : Type 0} (m : Service A) : Type 0 where
  pub at : (s : Session) (e : Error) → (m s).0 ≡ err e → (m s).1.committed ≡ s.committed

module _ {A : Type 0} where
  pub Uncommitted-pure : (a : A) → Uncommitted (pure a)
  unfolding pure
  Uncommitted-pure a = record { at = λ s. refl; blind = λ s. refl }

  pub Uncommitted-raise : (e : Error) → Uncommitted (raise {A = A} e)
  unfolding raise
  Uncommitted-raise e = record { at = λ s. refl; blind = λ s. refl }

  pub Uncommitted-query : (f : Database → A) → Uncommitted (query f)
  unfolding query
  Uncommitted-query f = record { at = λ s. refl; blind = λ s. refl }

  pub Uncommitted-found : (e : Error) (o : Option A) → Uncommitted (found e o)
  unfolding found
  Uncommitted-found e none = record { at = λ s. refl; blind = λ s. refl }
  Uncommitted-found e (some a) = record { at = λ s. refl; blind = λ s. refl }

  pub Returns-pure : (a : A) → Returns (pure a)
  unfolding pure
  Returns-pure a = record { value = λ s. (a, refl) }

  pub Returns-query : (f : Database → A) → Returns (query f)
  unfolding query
  Returns-query f = record { value = λ s. (f s.view, refl) }

  pub IsAtomic-Uncommitted : (m : Service A) → Uncommitted m → IsAtomic m
  IsAtomic-Uncommitted m u = record { at = λ s e h. u.at s }

  pub IsAtomic-Returns : (m : Service A) → Returns m → IsAtomic m
  IsAtomic-Returns m r = record { at = λ s e h. let (a, v) = r.value s in cc }

  pub Uncommitted-if :
      (b : Bool) (m n : Service A)
      → Uncommitted m
      → Uncommitted n
      → Uncommitted (if b then m else n)
  Uncommitted-if true m n h k = h
  Uncommitted-if false m n h k = k

  pub IsAtomic-if :
      (b : Bool) (m n : Service A) → IsAtomic m → IsAtomic n → IsAtomic (if b then m else n)
  IsAtomic-if true m n h k = h
  IsAtomic-if false m n h k = k

pub Uncommitted-raise_if : (e : Error) (b : Bool) → Uncommitted (raise_if e b)
unfolding raise_if
Uncommitted-raise_if e true = record { at = λ s. refl; blind = λ s. refl }
Uncommitted-raise_if e false = record { at = λ s. refl; blind = λ s. refl }

pub Uncommitted-modify : (f : Database → Database) → Uncommitted (modify f)
unfolding modify
Uncommitted-modify f = record { at = λ s. refl; blind = λ s. refl }

pub Uncommitted-write :
    (check : Database → Option Error) (f : Database → Database) → Uncommitted (write check f)
unfolding write
Uncommitted-write check f = record { at = λ s. ground arith; blind = λ s. ground arith }

pub Uncommitted-emit : (e : Effect) → Uncommitted (emit e)
unfolding emit
Uncommitted-emit e = record { at = λ s. refl; blind = λ s. refl }

pub Uncommitted-when : (b : Bool) (m : Service (Unit {0})) → Uncommitted m → Uncommitted (when b m)
unfolding when
Uncommitted-when true m h = record { at = h.at; blind = h.blind }
Uncommitted-when false m h = record { at = λ s. refl; blind = λ s. refl }

pub Returns-modify : (f : Database → Database) → Returns (modify f)
unfolding modify
Returns-modify f = record { value = λ s. (tt, refl) }

pub Returns-commit : Returns commit
unfolding commit
Returns-commit = record { value = λ s. (tt, refl) }

pub Returns-rollback : Returns rollback
unfolding rollback
Returns-rollback = record { value = λ s. (tt, refl) }

pub Returns-emit : (e : Effect) → Returns (emit e)
unfolding emit
Returns-emit e = record { value = λ s. (tt, refl) }

pub Returns-when : (b : Bool) (m : Service (Unit {0})) → Returns m → Returns (when b m)
unfolding when
Returns-when true m h = record { value = h.value }
Returns-when false m h = record { value = λ s. (tt, refl) }

module _ {A B : Type 0} where
  continue-Uncommitted :
      (r : Result A) (f : A → Service B) (s : Session)
      → ((a : A) → Uncommitted (f a))
      → (continue r f s).1.committed ≡ s.committed
  continue-Uncommitted (ok a) f s h = (h a).at s
  continue-Uncommitted (err e) f s h = refl

  continue-blind :
      (r : Result A) (f : A → Service B) (s : Session)
      → ((a : A) → Uncommitted (f a))
      → continue r f (calm s) ≡ ((continue r f s).0, calm (continue r f s).1)
  continue-blind (ok a) f s h = (h a).blind s
  continue-blind (err e) f s h = refl

  pub Uncommitted-bind :
      (m : Service A) (f : A → Service B)
      → Uncommitted m
      → ((a : A) → Uncommitted (f a))
      → Uncommitted (m >>= f)
  unfolding ◌>>=◌
  Uncommitted-bind m f h k = record {
    at = λ s. let (r, s') = m s in continue-Uncommitted r f s' k ∙ h.at s;
    blind = λ s.
        let (r, s') = m s in ap (λ x. continue x.0 f x.1) (h.blind s) ∙ continue-blind r f s' k;
  }

  continue-IsAtomic :
      (r : Result A) (f : A → Service B) (s : Session) (e : Error)
      → ((a : A) → IsAtomic (f a))
      → (continue r f s).0 ≡ err e
      → (continue r f s).1.committed ≡ s.committed
  continue-IsAtomic (ok a) f s e k h = (k a).at s e h
  continue-IsAtomic (err x) f s e k h = refl

  pub IsAtomic-bind :
      (m : Service A) (f : A → Service B)
      → Uncommitted m
      → ((a : A) → IsAtomic (f a))
      → IsAtomic (m >>= f)
  unfolding ◌>>=◌
  IsAtomic-bind m f h k = record {
    at = λ s e x. let (r, s') = m s in continue-IsAtomic r f s' e k x ∙ h.at s;
  }

  continue-Returns :
      (r : Result A) (f : A → Service B) (s : Session) (a : A)
      → r ≡ ok a
      → ((a : A) → Returns (f a))
      → (b : B) × ((continue r f s).0 ≡ ok b)
  continue-Returns (ok a) f s _ h k = (k a).value s
  continue-Returns (err x) f s a h k = cc

  pub Returns-bind :
      (m : Service A) (f : A → Service B)
      → Returns m
      → ((a : A) → Returns (f a))
      → Returns (m >>= f)
  unfolding ◌>>=◌
  Returns-bind m f h k = record {
    value = λ s. let (r, s') = m s in let (a, v) = h.value s in continue-Returns r f s' a v k;
  }

pub ruleset uncommitted_rules = (
  Uncommitted-pure, Uncommitted-raise, Uncommitted-query, Uncommitted-found, Uncommitted-raise_if,
  Uncommitted-modify, Uncommitted-write, Uncommitted-emit, Uncommitted-when, Uncommitted-if,
  Uncommitted-bind,
)

pub ruleset returns_rules = (
  Returns-pure, Returns-query, Returns-modify, Returns-commit, Returns-rollback, Returns-emit,
  Returns-when, Returns-bind,
)
