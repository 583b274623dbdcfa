-- ===== src/Session.antt =====
-- A SQLAlchemy session (autocommit and autoflush off) and the calls that a service makes on it.
-- A service works on the session's view of the database. Nothing of it is seen by others before
-- `commit`, and what a service leaves uncommitted when it raises is lost with the session.
pub mod Atomic
pub mod Outcome
pub mod Invariant
pub mod View
pub mod Settled
pub mod Refusal
pub mod Landing
use i_dolly_backend.Database.{Database}
use i_dolly_backend.Error.{Error, ErrorClass, plain}
use i_dolly_backend.Prelude.{
  Bool, true, false, Option, none, some, List, [], ◌∷◌, ◌++◌, if◌then◌else◌,
}
use i_dolly_backend.Tables.{Text, Time, Uuid}

-- What leaves the process: cache deletions and queued emails. No rollback takes them back.
pub data Effect : Type 0 where
  delete_cached_concert_detail : Uuid → Effect
  delete_cached_products delete_cached_product_details : Effect
  ticket_confirmed_email lottery_payment_confirmed_email : Uuid → Uuid → Effect
  email_verification_email password_reset_email : Uuid → Text → Effect
  -- To an address, about an inquiry, queued at a moment.
  inquiry_received_email : Text → Uuid → Time → Effect
  capture_order : Uuid → Effect

pub record Session : Type 0 where
  pub committed : Database
  pub view : Database
  pub effects : List Effect
  -- Whether Redis takes a cache deletion or a queued email while the request runs.
  pub delivers : Effect → Bool
  -- Whether the database takes a second commit of the request, that of a manager's notice.
  pub recommits : Bool

pub data Result (A : Type 0) : Type 0 where
  ok : A → Result A
  err : Error → Result A

abbrev pub Service : Type 0 → Type 0
Service A = Session → Result A × Session

module _ {A : Type 0} where
  unfoldable pub pure : A → Service A
  pure a s = (ok a, s)

  unfoldable pub raise : Error → Service A
  raise e s = (err e, s)

  -- A query, which reads the session's view.
  unfoldable pub query : (Database → A) → Service A
  query f s = (ok (f s.view), s)

  -- `if not x: raise e`
  unfoldable pub found : Error → Option A → Service A
  found e none s = (err e, s)
  found e (some a) s = (ok a, s)

-- `if b: raise e`
unfoldable pub raise_if : Error → Bool → Service (Unit {0})
raise_if e true s = (err e, s)
raise_if e false s = (ok tt, s)

unfoldable pub modify : (Database → Database) → Service (Unit {0})
modify f s = (ok tt, record s { view = f s.view })

-- A write that the database checks against what the session sees: it takes it, or raises.
unfoldable pub write : (Database → Option Error) → (Database → Database) → Service (Unit {0})
write check f s = elim (check s.view) [
  | none ↦ (ok tt, record s { view = f s.view })
  | some e ↦ (err e, s)
]

unfoldable pub commit : Service (Unit {0})
commit s = (ok tt, record s { committed = s.view })

unfoldable pub rollback : Service (Unit {0})
rollback s = (ok tt, record s { view = s.committed })

unfoldable pub emit : Effect → Service (Unit {0})
emit e s = (ok tt, record s { effects = s.effects ++ e ∷ [] })

-- CacheInvalidation and celery_app.send_task, which raise where Redis is down.
unfoldable pub send : Effect → Service (Unit {0})
send e s =
    if s.delivers e
    then (ok tt, record s { effects = s.effects ++ e ∷ [] })
    else (err (plain ErrorClass.redis_error), s)

-- A commit after another one, which may have lost its connection.
unfoldable pub recommit : Service (Unit {0})
recommit s =
    if s.recommits
    then (ok tt, record s { committed = s.view })
    else (err (plain ErrorClass.dbapi_error), s)

-- `if b: ...`
unfoldable pub when : Bool → Service (Unit {0}) → Service (Unit {0})
when true m s = m s
when false m s = (ok tt, s)

abbrev pub continue : {A B : Type 0} → Result A → (A → Service B) → Service B
continue (ok a) f s = f a s
continue (err e) f s = (err e, s)

infixl 5 ◌>>=◌ ◌>>◌
-- Opening this opens the calls above too.
unfoldable pub ◌>>=◌ : {A B : Type 0} → Service A → (A → Service B) → Service B
unfolding pure raise query found raise_if modify write commit rollback emit send recommit when
◌>>=◌ m f s = let (r, s') = m s in continue r f s'

abbrev pub ◌>>◌ : {A B : Type 0} → Service A → Service B → Service B
m >> k = m >>= λ _. k

-- `try: m` with `except Exception: handler`.
unfoldable pub attempt : {A : Type 0} → Service A → (Error → Service A) → Service A
attempt m handler s = let (r, s') = m s in elim r [ ok a ↦ (ok a, s') | err e ↦ handler e s' ]

-- A new session, while Redis and the database are up or not.
abbrev pub start_on : (Effect → Bool) → Bool → Database → Session
start_on delivers' recommits' db = record {
  committed = db;
  view = db;
  effects = [];
  delivers = delivers';
  recommits = recommits';
}

-- A new session while both are up.
abbrev pub start : Database → Session
start db = start_on (λ _. true) true db

-- The same session with both up.
abbrev pub calm : Session → Session
calm s = record s { delivers = λ _. true; recommits = true }
