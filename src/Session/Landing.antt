-- ===== src/Session/Landing.antt =====
-- What a service that returns leaves committed.
use i_dolly_backend.Database.{Database}
use i_dolly_backend.Prelude.{◌≡◌, subst}
use i_dolly_backend.Session.{Session, ok, Service, commit, ◌>>=◌}
use i_dolly_backend.Session.Invariant.{Keeps}
use i_dolly_backend.Session.Outcome.{bind-ok, commit-by}
use i_dolly_backend.Session.View.{KeepsView, KeepsView-ok}

-- Where the session sees `P` and the service returns, `P` is committed.
pub record Lands (P : Database → Type 0) {A : Type 0} (m : Service A) : Type 0 where
  pub at : (s s' : Session) (a : A) → m s ≡ (ok a, s') → P s.view → P s'.committed

module _ (P : Database → Type 0) {A B : Type 0} where
  pub Lands-bind :
      (m : Service A) (f : A → Service B)
      → KeepsView P m
      → ((a : A) → Lands P (f a))
      → Lands P (m >>= f)
  Lands-bind m f u k = record {
    at = λ s s' b h p.
        let (a, s₁, e, rest) = bind-ok m f s s' b h in
        (k a).at s₁ s' b rest (KeepsView-ok P m s s₁ (ok a) u e p);
  }

module _ (P : Database → Type 0) {B : Type 0} where
  pub Lands-commit : (f : Unit {0} → Service B) → Keeps P (f tt) → Lands P (commit >>= f)
  Lands-commit f k = record {
    at = λ s s' b h p. commit-by f s s' b h λ rest.
        subst (λ x. P x.1.committed) rest ((k.at (record s { committed = s.view }) (p, p)).1);
  }
