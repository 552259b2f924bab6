-- ===== src/Machine/Stateful.antt =====
-- Code that changes a state and may end early: a method on `&mut self` with a `Result`. An early end
-- leaves the state as far as it was changed, so the state stands beside the result, whatever that is.
use vulkan_cocoa_core.Machine.{Run, ok, err, panic, out_of_fuel}

abbrev pub Stateful : (E S A : Type 0) → Type 0
Stateful E S A = S → Run E A × S

module _ {E S : Type 0} where
  abbrev pub then_do : {A B : Type 0} → Run E A × S → (A → Stateful E S B) → Run E B × S
  then_do (ok a, s) f = f a s
  then_do (err e, s) f = (err e, s)
  then_do (panic p, s) f = (panic p, s)
  then_do (out_of_fuel, s) f = (out_of_fuel, s)

  infixl 5 ◌>>=◌ ◌>>◌
  abbrev pub ◌>>=◌ : {A B : Type 0} → Stateful E S A → (A → Stateful E S B) → Stateful E S B
  ◌>>=◌ m f s = then_do (m s) f

  abbrev pub ◌>>◌ : {A B : Type 0} → Stateful E S A → Stateful E S B → Stateful E S B
  m >> k = m >>= λ _. k

  abbrev pub pure : {A : Type 0} → A → Stateful E S A
  pure a s = (ok a, s)

  abbrev pub fail : {A : Type 0} → E → Stateful E S A
  fail e s = (err e, s)

  abbrev pub modify : (S → S) → Stateful E S (Unit {0})
  modify f s = (ok tt, f s)

  abbrev pub lift : {A : Type 0} → Run E A → Stateful E S A
  lift r s = (r, s)

-- A value with `Q`, or an error with `R`, and no panic.
pub data Ends {E S A : Type 0} (Q : A → S → Type 0) (R : E → S → Type 0)
    : Run E A × S → Type 0 where
  returns : {a : A} {s : S} → Q a s → Ends Q R (ok a, s)
  fails : {e : E} {s : S} → R e s → Ends Q R (err e, s)

module _ {E S A B : Type 0} {P : A → S → Type 0} {Q : B → S → Type 0} {R : E → S → Type 0} where
  pub Ends-then :
      {r : Run E A × S} {f : A → Stateful E S B}
      → Ends P R r
      → ((a : A) (s : S) → P a s → Ends Q R (f a s))
      → Ends Q R (then_do r f)
  Ends-then (returns h) k = k _ _ h
  Ends-then (fails h) k = fails h

module _ {E S A : Type 0} {P : A → S → Type 0} {R : E → S → Type 0} where
  pub Ends-mono :
      {P' : A → S → Type 0} {r : Run E A × S}
      → Ends P R r
      → ((a : A) (s : S) → P a s → P' a s)
      → Ends P' R r
  Ends-mono (returns h) k = returns (k _ _ h)
  Ends-mono (fails h) k = fails h
