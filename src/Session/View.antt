-- ===== src/Session/View.antt =====
-- What a service keeps of the session's view alone, whatever is committed.
use i_dolly_backend.Database.{Database}
use i_dolly_backend.Error.{Error}
use i_dolly_backend.Prelude.{
  ◌≡◌, subst, Bool, true, false, Option, Bool-cases, Option-cases, inl, inr,
}
use i_dolly_backend.Session.{
  Session, Effect, Result, ok, err, Service, pure, modify, write, commit, emit, send, when,
  continue, ◌>>=◌,
}

pub record KeepsView (P : Database → Type 0) {A : Type 0} (m : Service A) : Type 0 where
  pub at : (s : Session) → P s.view → P (m s).1.view

module _ (P : Database → Type 0) where
  pub KeepsView-pure : {A : Type 0} (a : A) → KeepsView P (pure a)
  unfolding pure
  KeepsView-pure a = record { at = λ s h. h }

  pub KeepsView-modify :
      (f : Database → Database) → ((db : Database) → P db → P (f db)) → KeepsView P (modify f)
  unfolding modify
  KeepsView-modify f k = record { at = λ s h. k s.view h }

  pub KeepsView-write :
      (check : Database → Option Error) (f : Database → Database)
      → ((db : Database) → P db → P (f db))
      → KeepsView P (write check f)
  unfolding write
  KeepsView-write check f k = record {
    at = λ s h. elim (Option-cases (check s.view)) [
      | inl e ↦ rw (e, write) (k s.view h)
      | inr (x, e) ↦ rw (e, write) h
    ];
  }

  pub KeepsView-commit : KeepsView P commit
  unfolding commit
  KeepsView-commit = record { at = λ s h. h }

  pub KeepsView-emit : (e : Effect) → KeepsView P (emit e)
  unfolding emit
  KeepsView-emit e = record { at = λ s h. h }

  pub KeepsView-send : (e : Effect) → KeepsView P (send e)
  unfolding send
  KeepsView-send e = record {
    at = λ s h. elim (Bool-cases (s.delivers e)) [
      | inl up ↦ rw (up, send) h
      | inr down ↦ rw (down, send) h
    ];
  }

  pub KeepsView-when : (b : Bool) (m : Service (Unit {0})) → KeepsView P m → KeepsView P (when b m)
  unfolding when
  KeepsView-when true m h = record { at = h.at }
  KeepsView-when false m h = record { at = λ s k. k }

  module _ {A B : Type 0} where
    continue-KeepsView :
        (r : Result A) (f : A → Service B) (s : Session)
        → ((a : A) → KeepsView P (f a))
        → P s.view
        → P (continue r f s).1.view
    continue-KeepsView (ok a) f s k h = (k a).at s h
    continue-KeepsView (err e) f s k h = h

    pub KeepsView-bind :
        (m : Service A) (f : A → Service B)
        → KeepsView P m
        → ((a : A) → KeepsView P (f a))
        → KeepsView P (m >>= f)
    unfolding ◌>>=◌
    KeepsView-bind m f h k = record {
      at = λ s x. let (r, s') = m s in continue-KeepsView r f s' k (h.at s x);
    }

pub ruleset view_rules = (
  KeepsView-pure, KeepsView-modify, KeepsView-commit, KeepsView-emit, KeepsView-send,
  KeepsView-when, KeepsView-bind,
)

-- What is kept, where the service is known to end in `s'`.
pub KeepsView-ok :
    (P : Database → Type 0) {A : Type 0} (m : Service A) (s s' : Session) (r : Result A)
    → KeepsView P m
    → m s ≡ (r, s')
    → P s.view
    → P s'.view
KeepsView-ok P m s s' r kept h p = subst (λ x. P x.1.view) h (kept.at s p)
