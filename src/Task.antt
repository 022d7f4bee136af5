-- ===== src/Task.antt =====
-- An asynchronous method as an action on explicit state: it returns a value or throws, and what it
-- changed before it threw stays changed. `await` is the bind of this monad.
use open_dilim.Prelude.{◌≡◌, ap}
use open_dilim.Prelude.Text.{Text}

-- What a call can throw: a port that does not answer, a broken UNIQUE constraint, `new Error(…)`.
pub data Failure : Type 0 where
  unavailable : Failure
  unique_violation : Failure
  error : Text → Failure

pub data Result (A : Type 0) : Type 0 where
  ok : A → Result A
  thrown : Failure → Result A

abbrev pub Task : Type 0 → Type 0 → Type 0
Task S A = S → Result A × S

module _ {S : Type 0} where
  abbrev pub continue : {A B : Type 0} → (A → Task S B) → Result A × S → Result B × S
  continue f (ok a, s) = f a s
  continue f (thrown e, s) = (thrown e, s)

  infixl 5 ◌>>=◌ ◌>>◌
  abbrev pub ◌>>=◌ : {A B : Type 0} → Task S A → (A → Task S B) → Task S B
  ◌>>=◌ m f s = continue f (m s)

  abbrev pub ◌>>◌ : {A B : Type 0} → Task S A → Task S B → Task S B
  m >> k = m >>= λ _. k

  abbrev pub pure : {A : Type 0} → A → Task S A
  pure a s = (ok a, s)

  abbrev pub throw : {A : Type 0} → Failure → Task S A
  throw e s = (thrown e, s)

  -- `try { … } catch { … }` with a handler that only logs.
  abbrev pub ignore_failure : Task S (Unit {0}) → Task S (Unit {0})
  ignore_failure m s = (ok tt, (m s).1)

  -- The bind of a call whose result is known.
  module _ {A B : Type 0} (m : Task S A) (s s' : S) where
    pub bind-ok : (f : A → Task S B) {a : A} → m s ≡ (ok a, s') → (m >>= f) s ≡ f a s'
    bind-ok f e = ap (continue f) e

    pub bind-thrown :
        (f : A → Task S B) {x : Failure} → m s ≡ (thrown x, s') → (m >>= f) s ≡ (thrown x, s')
    bind-thrown f e = ap (continue f) e
