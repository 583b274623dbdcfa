-- ===== src/Session/Invariant.antt =====
-- Invariants of the database: one rule for each way to build a service lets `search` carry an
-- invariant through a whole handler, errors included.
use i_dolly_backend.Database.{Database}
use i_dolly_backend.Error.{Error}
use i_dolly_backend.Prelude.{
  ◌≡◌, refl, Bool, true, false, Option, none, some, if◌then◌else◌, Bool-cases, Option-cases, inl,
  inr,
}
use i_dolly_backend.Session.{
  Session, Effect, Result, ok, err, Service, pure, raise, query, found, raise_if, modify, write,
  commit, rollback, emit, send, recommit, when, continue, ◌>>=◌,
}

-- The invariant holds of what the session sees and of what is committed.
abbrev pub Holds : (Database → Type 0) → Session → Type 0
Holds P s = P s.view × P s.committed

pub record Keeps (P : Database → Type 0) {A : Type 0} (m : Service A) : Type 0 where
  pub at : (s : Session) → Holds P s → Holds P (m s).1

module _ (P : Database → Type 0) where
  module _ {A : Type 0} where
    pub Keeps-pure : (a : A) → Keeps P (pure a)
    unfolding pure
    Keeps-pure a = record { at = λ s h. h }

    pub Keeps-raise : (e : Error) → Keeps P (raise {A = A} e)
    unfolding raise
    Keeps-raise e = record { at = λ s h. h }

    pub Keeps-query : (f : Database → A) → Keeps P (query f)
    unfolding query
    Keeps-query f = record { at = λ s h. h }

    pub Keeps-found : (e : Error) (o : Option A) → Keeps P (found e o)
    unfolding found
    Keeps-found e none = record { at = λ s h. h }
    Keeps-found e (some a) = record { at = λ s h. h }

    pub Keeps-if :
        (b : Bool) (m n : Service A) → Keeps P m → Keeps P n → Keeps P (if b then m else n)
    Keeps-if true m n h k = h
    Keeps-if false m n h k = k

  pub Keeps-raise_if : (e : Error) (b : Bool) → Keeps P (raise_if e b)
  unfolding raise_if
  Keeps-raise_if e true = record { at = λ s h. h }
  Keeps-raise_if e false = record { at = λ s h. h }

  pub Keeps-modify :
      (f : Database → Database) → ((db : Database) → P db → P (f db)) → Keeps P (modify f)
  unfolding modify
  Keeps-modify f k = record { at = λ s h. (k s.view h.0, h.1) }

  -- What the database checks before it takes a write is what keeps the invariant.
  pub Keeps-write :
      (check : Database → Option Error) (f : Database → Database)
      → ((db : Database) → check db ≡ none → P db → P (f db))
      → Keeps P (write check f)
  unfolding write
  Keeps-write check f k = record {
    at = λ s h. elim (Option-cases (check s.view)) [
      | inl e ↦ rw (e, write) (k s.view e h.0, h.1)
      | inr (x, e) ↦ rw (e, write) h
    ];
  }

  -- The same for one session, whose view has what the write needs.
  pub write-Holds :
      (check : Database → Option Error) (f : Database → Database) (s : Session)
      → Holds P s
      → (check s.view ≡ none → P (f s.view))
      → Holds P (write check f s).1
  unfolding write
  write-Holds check f s h k = elim (Option-cases (check s.view)) [
    | inl e ↦ rw (e, write) (k e, h.1)
    | inr (x, e) ↦ rw (e, write) h
  ]

  pub Keeps-commit : Keeps P commit
  unfolding commit
  Keeps-commit = record { at = λ s h. (h.0, h.0) }

  pub Keeps-rollback : Keeps P rollback
  unfolding rollback
  Keeps-rollback = record { at = λ s h. (h.1, h.1) }

  pub Keeps-emit : (e : Effect) → Keeps P (emit e)
  unfolding emit
  Keeps-emit e = record { at = λ s h. h }

  pub Keeps-send : (e : Effect) → Keeps P (send e)
  unfolding send
  Keeps-send e = record {
    at = λ s h. elim (Bool-cases (s.delivers e)) [
      | inl up ↦ rw (up, send) h
      | inr down ↦ rw (down, send) h
    ];
  }

  pub Keeps-recommit : Keeps P recommit
  unfolding recommit
  Keeps-recommit = record {
    at = λ s h. elim (Bool-cases s.recommits) [
      | inl up ↦ rw (up, recommit) (h.0, h.0)
      | inr down ↦ rw (down, recommit) h
    ];
  }

  pub Keeps-when : (b : Bool) (m : Service (Unit {0})) → Keeps P m → Keeps P (when b m)
  unfolding when
  Keeps-when true m h = record { at = h.at }
  Keeps-when false m h = record { at = λ s k. k }

  module _ {A B : Type 0} where
    continue-Keeps :
        (r : Result A) (f : A → Service B) (s : Session)
        → ((a : A) → Keeps P (f a))
        → Holds P s
        → Holds P (continue r f s).1
    continue-Keeps (ok a) f s k h = (k a).at s h
    continue-Keeps (err e) f s k h = h

    pub Keeps-bind :
        (m : Service A) (f : A → Service B)
        → Keeps P m
        → ((a : A) → Keeps P (f a))
        → Keeps P (m >>= f)
    unfolding ◌>>=◌
    Keeps-bind m f h k = record {
      at = λ s x. let (r, s') = m s in continue-Keeps r f s' k (h.at s x);
    }

pub ruleset keeps_rules = (
  Keeps-pure, Keeps-raise, Keeps-query, Keeps-found, Keeps-raise_if, Keeps-modify, Keeps-commit,
  Keeps-rollback, Keeps-emit, Keeps-send, Keeps-recommit, Keeps-when, Keeps-if, Keeps-bind,
)

-- What follows a call whose session is known to keep the invariant.
module _ (P : Database → Type 0) {A B : Type 0} where
  pub bind-Holds :
      (m : Service A) (f : A → Service B) (s : Session)
      → Holds P (m s).1
      → ((a : A) → Keeps P (f a))
      → Holds P ((m >>= f) s).1
  unfolding ◌>>=◌
  bind-Holds m f s h k = let (r, s') = m s in continue-Keeps P r f s' k h

module _ (P : Database → Type 0) {B : Type 0} where
  pub modify-Holds :
      (g : Database → Database) (f : Unit {0} → Service B) (s : Session)
      → Holds P (f tt (record s { view = g s.view })).1
      → Holds P ((modify g >>= f) s).1
  unfolding ◌>>=◌
  modify-Holds g f s h = h

-- The same, one step of a `do` block at a time, with what the step has found out.
module _ (P : Database → Type 0) {A B : Type 0} where
  pub query-Holds :
      (g : Database → A) (f : A → Service B) (s : Session)
      → Holds P (f (g s.view) s).1
      → Holds P ((query g >>= f) s).1
  unfolding ◌>>=◌
  query-Holds g f s h = h

  pub found-Holds :
      (e : Error) (o : Option A) (f : A → Service B) (s : Session)
      → Holds P s
      → ((a : A) → o ≡ some a → Holds P (f a s).1)
      → Holds P ((found e o >>= f) s).1
  unfolding ◌>>=◌
  found-Holds e none f s h k = h
  found-Holds e (some a) f s h k = k a refl

module _ (P : Database → Type 0) {B : Type 0} where
  pub guard-Holds :
      (e : Error) (c : Bool) (f : Unit {0} → Service B) (s : Session)
      → Holds P s
      → (c ≡ false → Holds P (f tt s).1)
      → Holds P ((raise_if e c >>= f) s).1
  unfolding ◌>>=◌
  guard-Holds e true f s h k = h
  guard-Holds e false f s h k = k refl
