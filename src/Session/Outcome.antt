-- ===== src/Session/Outcome.antt =====
-- Inversion: what each call of a service must have done, if the service has returned.
use i_dolly_backend.Database.{Database}
use i_dolly_backend.Error.{Error}
use i_dolly_backend.Prelude.{
  ◌≡◌, refl, Bool, true, false, Option, none, some, [], ◌∷◌, ◌++◌, arith, Option-cases, inl, inr,
}
use i_dolly_backend.Session.{
  Session, Result, ok, err, Service, pure, query, found, raise_if, modify, write, commit, continue,
  ◌>>=◌, Effect, emit,
}

module _ {A B : Type 0} where
  continue-ok :
      (r : Result A) (f : A → Service B) (s' s'' : Session) (b : B)
      → continue r f s' ≡ (ok b, s'')
      → (a : A) × (r ≡ ok a) × (f a s' ≡ (ok b, s''))
  continue-ok (ok a) f s' s'' b h = (a, refl, h)
  continue-ok (err e) f s' s'' b h = cc

  pub bind-ok :
      (m : Service A) (f : A → Service B) (s s'' : Session) (b : B)
      → (m >>= f) s ≡ (ok b, s'')
      → (a : A) × (s' : Session) × (m s ≡ (ok a, s')) × (f a s' ≡ (ok b, s''))
  unfolding ◌>>=◌
  bind-ok m f s s'' b h =
      let (a, e, k) = continue-ok (m s).0 f (m s).1 s'' b h in (a, (m s).1, cc, k)

module _ {A : Type 0} where
  pub found-ok :
      (e : Error) (o : Option A) (s s' : Session) (a : A)
      → found e o s ≡ (ok a, s')
      → (o ≡ some a) × (s' ≡ s)
  unfolding found
  found-ok e none s s' a h = cc
  found-ok e (some x) s s' a h = ground arith

pub raise_if-ok :
    (e : Error) (b : Bool) (s s' : Session) (u : Unit {0})
    → raise_if e b s ≡ (ok u, s')
    → (b ≡ false) × (s' ≡ s)
unfolding raise_if
raise_if-ok e true s s' u h = cc
raise_if-ok e false s s' u h = ground arith

pub write-ok :
    (check : Database → Option Error) (f : Database → Database) (s s' : Session) (u : Unit {0})
    → write check f s ≡ (ok u, s')
    → (check s.view ≡ none) × (s' ≡ record s { view = f s.view })
unfolding write
write-ok check f s s' u h = elim (Option-cases (check s.view)) [
  | inl e ↦ ground (arith, e, h)
  | inr (x, e) ↦ ground (arith, e, h)
]

-- The same, one step of a `do` block at a time: from a block that has returned, what follows
-- from the step and from the rest of the block.
module _ {A B : Type 0} {C : Type 0} where
  pub query-by :
      (g : Database → A) (f : A → Service B) (s s' : Session) (b : B)
      → (query g >>= f) s ≡ (ok b, s')
      → (f (g s.view) s ≡ (ok b, s') → C)
      → C
  unfolding ◌>>=◌
  query-by g f s s' b h k = k h

  pub found-by :
      (e : Error) (o : Option A) (f : A → Service B) (s s' : Session) (b : B)
      → (found e o >>= f) s ≡ (ok b, s')
      → ((a : A) → o ≡ some a → f a s ≡ (ok b, s') → C)
      → C
  unfolding ◌>>=◌
  found-by e none f s s' b h k = cc
  found-by e (some a) f s s' b h k = k a refl h

module _ {B : Type 0} {C : Type 0} where
  pub guard-by :
      (e : Error) (c : Bool) (f : Unit {0} → Service B) (s s' : Session) (b : B)
      → (raise_if e c >>= f) s ≡ (ok b, s')
      → (c ≡ false → f tt s ≡ (ok b, s') → C)
      → C
  unfolding ◌>>=◌
  guard-by e true f s s' b h k = cc
  guard-by e false f s s' b h k = k refl h

module _ {A : Type 0} where
  pub pure-ok : (a b : A) (s s' : Session) → pure a s ≡ (ok b, s') → (a ≡ b) × (s' ≡ s)
  unfolding pure
  pure-ok a b s s' h = (cc, cc)

module _ {B C : Type 0} where
  pub modify-by :
      (g : Database → Database) (f : Unit {0} → Service B) (s s' : Session) (b : B)
      → (modify g >>= f) s ≡ (ok b, s')
      → (f tt (record s { view = g s.view }) ≡ (ok b, s') → C)
      → C
  unfolding ◌>>=◌
  modify-by g f s s' b h k = k h

  pub commit-by :
      (f : Unit {0} → Service B) (s s' : Session) (b : B)
      → (commit >>= f) s ≡ (ok b, s')
      → (f tt (record s { committed = s.view }) ≡ (ok b, s') → C)
      → C
  unfolding ◌>>=◌
  commit-by f s s' b h k = k h

  pub emit-by :
      (e : Effect) (f : Unit {0} → Service B) (s s' : Session) (b : B)
      → (emit e >>= f) s ≡ (ok b, s')
      → (f tt (record s { effects = s.effects ++ e ∷ [] }) ≡ (ok b, s') → C)
      → C
  unfolding ◌>>=◌
  emit-by e f s s' b h k = k h
