-- ===== src/Session/Settled.antt =====
-- What a service has committed when it raises after a commit, since Redis or a later commit fails.
use i_dolly_backend.Database.{Database}
use i_dolly_backend.Error.{Error}
use i_dolly_backend.Prelude.{◌≡◌, refl, ap, ◌∙◌, sym, ◌⊎◌, Bool, true, false, inl, inr, subst}
use mathlib.Core.Path.{fun_ext}
use i_dolly_backend.Session.{
  Session, Effect, Result, ok, err, Service, pure, query, modify, commit, send, recommit, when,
  calm, continue, ◌>>=◌,
}
use i_dolly_backend.Session.Atomic.{Uncommitted}
use i_dolly_backend.Session.Invariant.{Keeps}

-- The outcome of a service that raises: nothing is committed, or what `f` reads of the database is
-- as the same call commits it while Redis and the database are up, where it returns.
abbrev pub Outcome : {A X : Type 0} → (Database → X) → Service A → Session → Type 0
Outcome {A} f m s =
    ((m s).1.committed ≡ s.committed)
    ⊎ ((a : A) × ((m (calm s)).0 ≡ ok a) × (f (m s).1.committed ≡ f (m (calm s)).1.committed))

-- Where the service raises.
pub record AllOrNothing {A X : Type 0} (f : Database → X) (m : Service A) : Type 0 where
  pub at : (s : Session) (e : Error) → (m s).0 ≡ err e → Outcome f m s

-- While Redis and the database are up, the service returns, and they still are.
pub record ReturnsCalm {A : Type 0} (m : Service A) : Type 0 where
  pub value : (s : Session) → (a : A) × (s' : Session) × (m (calm s) ≡ (ok a, calm s'))

module _ {A : Type 0} where
  pub ReturnsCalm-pure : (a : A) → ReturnsCalm (pure a)
  unfolding pure
  ReturnsCalm-pure a = record { value = λ s. (a, s, refl) }

  pub ReturnsCalm-query : (g : Database → A) → ReturnsCalm (query g)
  unfolding query
  ReturnsCalm-query g = record { value = λ s. (g s.view, s, refl) }

pub ReturnsCalm-modify : (g : Database → Database) → ReturnsCalm (modify g)
unfolding modify
ReturnsCalm-modify g = record { value = λ s. (tt, record s { view = g s.view }, refl) }

pub ReturnsCalm-send : (e : Effect) → ReturnsCalm (send e)
unfolding send
ReturnsCalm-send e = record { value = λ s. (tt, (send e (calm s)).1, refl) }

pub ReturnsCalm-recommit : ReturnsCalm recommit
unfolding recommit
ReturnsCalm-recommit = record { value = λ s. (tt, record s { committed = s.view }, refl) }

pub ReturnsCalm-when : (b : Bool) (m : Service (Unit {0})) → ReturnsCalm m → ReturnsCalm (when b m)
unfolding when
ReturnsCalm-when true m h = record { value = h.value }
ReturnsCalm-when false m h = record { value = λ s. (tt, s, refl) }

module _ {A B : Type 0} where
  pub ReturnsCalm-bind :
      (m : Service A) (f : A → Service B)
      → ReturnsCalm m
      → ((a : A) → ReturnsCalm (f a))
      → ReturnsCalm (m >>= f)
  unfolding ◌>>=◌
  ReturnsCalm-bind m f h k = record {
    value = λ s.
        let (a, s₁, e) = h.value s in
        let (b, s₂, e') = (k a).value s₁ in (b, s₂, ap (λ x. continue x.0 f x.1) e ∙ e');
  }

pub ruleset calm_rules = (
  ReturnsCalm-pure, ReturnsCalm-query, ReturnsCalm-modify, ReturnsCalm-send, ReturnsCalm-recommit,
  ReturnsCalm-when, ReturnsCalm-bind,
)

module _ {A B X : Type 0} (g : Database → X) where
  continue-Outcome :
      (r : Result A) (f : A → Service B) (s s₁ : Session) (t : Result A × Session) (e : Error)
      → t ≡ (r, calm s₁)
      → s₁.committed ≡ s.committed
      → ((a : A) → AllOrNothing g (f a))
      → (continue r f s₁).0 ≡ err e
      → ((continue r f s₁).1.committed ≡ s.committed)
        ⊎ ((b : B) × ((continue t.0 f t.1).0 ≡ ok b)
            × (g (continue r f s₁).1.committed ≡ g (continue t.0 f t.1).1.committed))
  continue-Outcome (ok a) f s s₁ t e q same k h = elim ((k a).at s₁ e h) [
    | inl kept ↦ inl (kept ∙ same)
    | inr (b, v, w) ↦ inr (
      b,
      ap (λ x. (continue x.0 f x.1).0) q ∙ v,
      w ∙ sym (ap (λ x. g (continue x.0 f x.1).1.committed) q),
    )
  ]
  continue-Outcome (err x) f s s₁ t e q same k h = inl same

  -- Before the commit.
  pub AllOrNothing-bind :
      (m : Service A) (f : A → Service B)
      → Uncommitted m
      → ((a : A) → AllOrNothing g (f a))
      → AllOrNothing g (m >>= f)
  unfolding ◌>>=◌
  AllOrNothing-bind m f u k = record {
    at = λ s e h.
        let (r, s₁) = m s in continue-Outcome r f s s₁ (m (calm s)) e (u.blind s) (u.at s) k h;
  }

module _ {B X : Type 0} (g : Database → X) where
  -- At the commit: what follows keeps what `g` reads.
  pub AllOrNothing-commit :
      (f : Unit {0} → Service B)
      → ((x : X) → Keeps (λ db. g db ≡ x) (f tt))
      → ReturnsCalm (f tt)
      → AllOrNothing g (commit >>= f)
  unfolding ◌>>=◌
  AllOrNothing-commit f k r = record {
    at = λ s e h.
        let s' : Session = record s { committed = s.view } in
        let (b, s₂, v) = r.value s' in
        inr (
          b,
          ap (λ x. x.0) v,
          (((k (g s.view)).at s' (refl, refl)).1
              ∙ sym (((k (g s.view)).at (calm s') (refl, refl)).1)),
        );
  }

-- A commit at the end of a block of its own.
module _ {A B C X : Type 0} (g : Database → X) where
  continue_assoc :
      (r : Result A) (f : A → Service B) (k : B → Service C) (s : Session)
      → continue (continue r f s).0 k (continue r f s).1 ≡ continue r (λ a. f a >>= k) s
  unfolding ◌>>=◌
  continue_assoc (ok a) f k s = refl
  continue_assoc (err e) f k s = refl

  pub AllOrNothing-assoc :
      (m : Service A) (f : A → Service B) (k : B → Service C)
      → AllOrNothing g (m >>= λ a. f a >>= k)
      → AllOrNothing g ((m >>= f) >>= k)
  unfolding ◌>>=◌
  AllOrNothing-assoc m f k h =
      subst (AllOrNothing g) (fun_ext λ s. let (r, s') = m s in sym (continue_assoc r f k s')) h
