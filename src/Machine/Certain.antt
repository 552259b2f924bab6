-- ===== src/Machine/Certain.antt =====
-- As `Ensures`, for a run that reports no error.
use vulkan_cocoa_core.Common.{◌≡◌, refl, Bool, true, false, if◌then◌else◌}
use vulkan_cocoa_core.Machine.{Run, ok, panic, Panic, bind, Build, checked, wrapping, overflow}

pub data Certain {E A : Type 0} (Allowed : Panic → Type 0) (P : A → Type 0) : Run E A → Type 0 where
  sure : {a : A} → P a → Certain Allowed P (ok a)
  panics : {p : Panic} → Allowed p → Certain Allowed P (panic p)

module _ {E A : Type 0} {Allowed : Panic → Type 0} {P : A → Type 0} where
  pub Certain-if :
      (t : Bool) {x y : Run E A}
      → (t ≡ true → Certain Allowed P x)
      → (t ≡ false → Certain Allowed P y)
      → Certain Allowed P (if t then x else y)
  Certain-if true hx hy = hx refl
  Certain-if false hx hy = hy refl

  pub Certain-bind :
      {B : Type 0} {Q : B → Type 0} {m : Run E B} {f : B → Run E A}
      → Certain Allowed Q m
      → ((x : B) → Q x → Certain Allowed P (f x))
      → Certain Allowed P (bind m f)
  Certain-bind (sure h) k = k _ h
  Certain-bind (panics q) k = panics q

  -- The value is the one that the run returned.
  pub Certain-self : {r : Run E A} → Certain Allowed P r → Certain Allowed (λ a. (r ≡ ok a) × P a) r
  Certain-self (sure h) = sure (refl, h)
  Certain-self (panics q) = panics q

  pub overflow-Certain :
      (b : Build) (p : Panic) (a : A) → Allowed p → P a → Certain Allowed P (overflow {E = E} b p a)
  overflow-Certain checked p a q h = panics q
  overflow-Certain wrapping p a q h = sure h
