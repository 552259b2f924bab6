-- ===== src/Machine/Ensures.antt =====
-- A postcondition on every way a run may end: it ends, its value satisfies `P`, and it panics only
-- as `Allowed` says.
use vulkan_cocoa_core.Common.{
  ◌≡◌, ◌≢◌, Bool, true, false, if◌then◌else◌, refl, subst, ℕ, ◌+◌, ◌*◌, ◌^◌, leb, ltb,
}
use vulkan_cocoa_core.Machine.{
  Run, ok, err, panic, out_of_fuel, Panic, bind, Build, checked, wrapping, overflow, u32_sub,
  u32_add, u64_shl, with_capacity, isize_max, add_overflow, subtract_overflow, shift_overflow,
  capacity_overflow,
}

pub data Ensures {E A : Type 0} (Allowed : Panic → Type 0) (P : A → Type 0) : Run E A → Type 0 where
  holds : {a : A} → P a → Ensures Allowed P (ok a)
  rejected : {e : E} → Ensures Allowed P (err e)
  panics : {p : Panic} → Allowed p → Ensures Allowed P (panic p)

module _ {E A : Type 0} {Allowed : Panic → Type 0} {P : A → Type 0} where
  pub Ensures-ok : {r : Run E A} {a : A} → Ensures Allowed P r → r ≡ ok a → P a
  Ensures-ok (holds h) e = subst P (cc) h
  Ensures-ok rejected e = cc
  Ensures-ok (panics q) e = cc

  pub Ensures-out_of_fuel : {r : Run E A} → Ensures Allowed P r → r ≢ out_of_fuel
  Ensures-out_of_fuel (holds h) = cc
  Ensures-out_of_fuel rejected = cc
  Ensures-out_of_fuel (panics q) = cc

  pub Ensures-panic : {r : Run E A} {p : Panic} → Ensures Allowed P r → r ≡ panic p → Allowed p
  Ensures-panic (holds h) e = cc
  Ensures-panic rejected e = cc
  Ensures-panic (panics q) e = subst Allowed (cc) q

  pub Ensures-if :
      (t : Bool) {x y : Run E A}
      → (t ≡ true → Ensures Allowed P x)
      → (t ≡ false → Ensures Allowed P y)
      → Ensures Allowed P (if t then x else y)
  Ensures-if true hx hy = hx refl
  Ensures-if false hx hy = hy refl

  pub Ensures-bind :
      {B : Type 0} {Q : B → Type 0} {r : Run E A} {f : A → Run E B}
      → Ensures Allowed P r
      → ((a : A) → P a → Ensures Allowed Q (f a))
      → Ensures Allowed Q (bind r f)
  Ensures-bind (holds {a} h) k = k a h
  Ensures-bind rejected k = rejected
  Ensures-bind (panics q) k = panics q

  pub Ensures-mono :
      {Q : A → Type 0} {r : Run E A}
      → Ensures Allowed P r
      → ((a : A) → P a → Q a)
      → Ensures Allowed Q r
  Ensures-mono (holds {a} h) k = holds (k a h)
  Ensures-mono rejected k = rejected
  Ensures-mono (panics q) k = panics q

  pub Ensures-allow :
      {Al : Panic → Type 0} {r : Run E A}
      → Ensures Allowed P r
      → ((p : Panic) → Allowed p → Al p)
      → Ensures Al P r
  Ensures-allow (holds h) k = holds h
  Ensures-allow rejected k = rejected
  Ensures-allow (panics {p} q) k = panics (k p q)

  -- The value is the one that the run returned.
  pub Ensures-self : {r : Run E A} → Ensures Allowed P r → Ensures Allowed (λ a. (r ≡ ok a) × P a) r
  Ensures-self (holds h) = holds (refl, h)
  Ensures-self rejected = rejected
  Ensures-self (panics q) = panics q

  pub overflow-Ensures :
      (b : Build) (p : Panic) (a : A) → Allowed p → P a → Ensures Allowed P (overflow {E = E} b p a)
  overflow-Ensures checked p a q h = panics q
  overflow-Ensures wrapping p a q h = holds h

  -- A test between two functions, applied.
  pub Ensures-if_at :
      {S : Type 0} (t : Bool) (x y : S → Run E A) (s : S)
      → Ensures Allowed P (x s)
      → Ensures Allowed P (y s)
      → Ensures Allowed P ((if t then x else y) s)
  Ensures-if_at true x y s hx hy = hx
  Ensures-if_at false x y s hx hy = hy

-- Machine arithmetic panics only by its own overflow.
module _ {E : Type 0} {Allowed : Panic → Type 0} (b : Build) (x y : ℕ) where
  pub u32_sub-Ensures :
      Allowed subtract_overflow → Ensures Allowed (λ _. Unit {0}) (u32_sub {E = E} b x y)
  unfolding u32_sub
  u32_sub-Ensures q = Ensures-if (leb y x) (λ _. holds tt) (λ _. overflow-Ensures b _ _ q tt)

  pub u32_add-Ensures :
      Allowed add_overflow → Ensures Allowed (λ _. Unit {0}) (u32_add {E = E} b x y)
  unfolding u32_add
  u32_add-Ensures q =
      Ensures-if (ltb (x + y) (2 ^ 32)) (λ _. holds tt) (λ _. overflow-Ensures b _ _ q tt)

  pub u64_shl-Ensures :
      Allowed shift_overflow → Ensures Allowed (λ _. Unit {0}) (u64_shl {E = E} b x y)
  unfolding u64_shl
  u64_shl-Ensures q = Ensures-if (ltb y 64) (λ _. holds tt) (λ _. overflow-Ensures b _ _ q tt)

  pub with_capacity-Ensures :
      Allowed capacity_overflow → Ensures Allowed (λ _. Unit {0}) (with_capacity {E = E} x y)
  unfolding with_capacity
  with_capacity-Ensures q = Ensures-if (leb (x * y) isize_max) (λ _. holds tt) (λ _. panics q)
