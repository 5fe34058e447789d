-- ===== src/Common/Action.antt =====
-- Code that may raise and works on a state; what it did before it raised stays done.
use mathlib.Core.Path.{◌≡◌, refl}
use native.Mathlib.Omega.{arith}
use events_api.Common.Result.{Result, ok, raise}

abbrev pub Action : Type 0 → Type 0
Action S = S → Result (Unit {0}) × S

module _ {S : Type 0} where
  abbrev pub then_do : Result (Unit {0}) × S → Action S → Result (Unit {0}) × S
  then_do (raise e, s) k = (raise e, s)
  then_do (ok u, s) k = k s

  infixl 5 ◌>>◌
  abbrev pub ◌>>◌ : Action S → Action S → Action S
  (m >> k) s = then_do (m s) k

  pub then_do-ok : (r : Result (Unit {0}) × S) (k : Action S) → r.0 ≡ ok tt → then_do r k ≡ k r.1
  then_do-ok (ok u, s) k h = refl
  then_do-ok (raise e, s) k h = ground (arith, h)
