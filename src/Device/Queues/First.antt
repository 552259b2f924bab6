-- ===== src/Device/Queues/First.antt =====
-- On the families that `pick_queue_families` of src/vulkan_backend/mod.rs picks.
use vulkan_cocoa_core.Common.{
  ℕ, ◌+◌, ◌≡◌, refl, sym, ◌∙◌, List, [], ◌∷◌, Option, none, some, Bool, true, false, ◌&&◌, not,
  if◌then◌else◌, arith,
}
use vulkan_cocoa_core.Device.Driver.{Driver, QueueFamily}
use vulkan_cocoa_core.Device.Queues.{
  QueueFamilyIndices, Picked, supports_present, is_better, is_none, pick_round, pick_loop,
  indices_of, pick_queue_families,
}

-- The index of the first family that passes a test, counted from `i` on.
unfoldable pub first_from : (ℕ → QueueFamily → Bool) → ℕ → List QueueFamily → Option ℕ
first_from test i [] = none
first_from test i (fam ∷ fams) = if test i fam then some i else first_from test (i + 1) fams

unfoldable pub or_else : {A : Type 0} → Option A → Option A → Option A
or_else none y = y
or_else (some x) y = some x

abbrev pub presents : (ℕ → Bool) → ℕ → QueueFamily → Bool
presents present i fam = fam.graphics && present i

abbrev pub draws : ℕ → QueueFamily → Bool
draws i fam = fam.graphics

abbrev pub is_dedicated : ℕ → QueueFamily → Bool
is_dedicated i fam = fam.transfer && not fam.graphics && not fam.compute

abbrev pub marked : Bool → Option ℕ → Option (ℕ × Bool)
marked c none = none
marked c (some i) = some (i, c)

-- The first graphics family that can present, or else the first graphics family.
unfoldable pub best_from : (ℕ → Bool) → ℕ → List QueueFamily → Option (ℕ × Bool)
unfolding or_else first_from
best_from present i fams =
    or_else (marked true (first_from (presents present) i fams))
      (marked false (first_from draws i fams))

-- The same behind a choice that was made already.
unfoldable improved : (ℕ → Bool) → ℕ → List QueueFamily → Option (ℕ × Bool) → Option (ℕ × Bool)
unfolding best_from
improved present i fams none = best_from present i fams
improved present i fams (some (j, true)) = some (j, true)
improved present i fams (some (j, false)) =
    or_else (marked true (first_from (presents present) i fams)) (some (j, false))

module _ (present : ℕ → Bool) where
  improved-nil : (i : ℕ) (o : Option (ℕ × Bool)) → improved present i [] o ≡ o
  unfolding improved
  improved-nil i none = refl
  improved-nil i (some (j, true)) = refl
  improved-nil i (some (j, false)) = refl

  improved-cons :
      (i : ℕ) (fam : QueueFamily) (fams : List QueueFamily) (o : Option (ℕ × Bool))
      → improved present
          (i + 1)
          fams
          (if fam.graphics && is_better o (present i) then some (i, present i) else o)
        ≡ improved present i (fam ∷ fams) o
  unfolding improved is_better
  improved-cons i fam fams none = by_cases fam.graphics (present i) refl refl
    where
      by_cases :
          (g p : Bool)
          → fam.graphics ≡ g
          → present i ≡ p
          → improved present
              (i + 1)
              fams
              (if fam.graphics && true then some (i, present i) else none)
            ≡ improved present i (fam ∷ fams) none
      by_cases true true e f = rw (e, f) refl
      by_cases true false e f = rw (e, f) refl
      by_cases false p e f = rw e refl
  improved-cons i fam fams (some (j, true)) = by_cases fam.graphics (present i) refl refl
    where
      by_cases :
          (g p : Bool)
          → fam.graphics ≡ g
          → present i ≡ p
          → improved present
              (i + 1)
              fams
              (if fam.graphics && (present i && false) then some (i, present i) else some (j, true))
            ≡ some (j, true)
      by_cases true true e f = rw (e, f) refl
      by_cases true false e f = rw (e, f) refl
      by_cases false p e f = rw e refl
  improved-cons i fam fams (some (j, false)) = by_cases fam.graphics (present i) refl refl
    where
      by_cases :
          (g p : Bool)
          → fam.graphics ≡ g
          → present i ≡ p
          → improved present
              (i + 1)
              fams
              (if fam.graphics && (present i && true) then some (i, present i) else some (j, false))
            ≡ improved present i (fam ∷ fams) (some (j, false))
      by_cases true true e f = rw (e, f) refl
      by_cases true false e f = rw (e, f) refl
      by_cases false p e f = rw e refl

  loop-best :
      (i : ℕ) (fams : List QueueFamily) (p : Picked)
      → (pick_loop present i fams p).best_graphics ≡ improved present i fams p.best_graphics
  unfolding pick_loop pick_round
  loop-best i [] p = sym (improved-nil i p.best_graphics)
  loop-best i (fam ∷ fams) p =
      loop-best (i + 1) fams (pick_round present i fam p) ∙ improved-cons i fam fams p.best_graphics

  loop-dedicated :
      (i : ℕ) (fams : List QueueFamily) (p : Picked)
      → (pick_loop present i fams p).dedicated_transfer
        ≡ or_else p.dedicated_transfer (first_from is_dedicated i fams)
  unfolding pick_loop pick_round or_else first_from is_none
  loop-dedicated i [] p = ground arith
  loop-dedicated i (fam ∷ fams) p =
      loop-dedicated (i + 1) fams (pick_round present i fam p) ∙ ground arith

indices_eq :
    {p q : Picked}
    → p.best_graphics ≡ q.best_graphics
    → p.dedicated_transfer ≡ q.dedicated_transfer
    → indices_of p ≡ indices_of q
indices_eq e f = λ i. indices_of (record { best_graphics = e i; dedicated_transfer = f i })

-- The families to use, by three searches: for a graphics family that can present, for a graphics
-- family, and for a family that only transfers. Without the last the graphics family transfers.
unfoldable pub families : (presenting drawing dedicated : Option ℕ) → Option QueueFamilyIndices
families (some g) drawing (some t) =
    some (record { graphics = g; transfer = t; graphics_supports_present = true })
families (some g) drawing none =
    some (record { graphics = g; transfer = g; graphics_supports_present = true })
families none (some g) (some t) =
    some (record { graphics = g; transfer = t; graphics_supports_present = false })
families none (some g) none =
    some (record { graphics = g; transfer = g; graphics_supports_present = false })
families none none dedicated = none

indices_of-families :
    (presenting drawing dedicated : Option ℕ)
    → indices_of (record {
      best_graphics = or_else (marked true presenting) (marked false drawing);
      dedicated_transfer = dedicated;
    })
      ≡ families presenting drawing dedicated
unfolding indices_of families or_else
indices_of-families (some g) drawing (some t) = refl
indices_of-families (some g) drawing none = refl
indices_of-families none (some g) (some t) = refl
indices_of-families none (some g) none = refl
indices_of-families none none (some t) = refl
indices_of-families none none none = refl

-- The one loop over the families finds what separate searches find: the first graphics family that
-- can present, with the mark that it can, or else the first graphics family, without the mark; and for
-- transfers the first family that only transfers, or else the graphics one; and nothing where no
-- family draws.
pub pick_queue_families-first :
    (d : Driver) (pdevice : ℕ) (surface : Option ℕ)
    → pick_queue_families d pdevice surface
      ≡ families
          (first_from (presents (supports_present d pdevice surface)) 0 (d.queue_families pdevice))
          (first_from draws 0 (d.queue_families pdevice))
          (first_from is_dedicated 0 (d.queue_families pdevice))
unfolding pick_queue_families improved or_else best_from
pick_queue_families-first d pdevice surface =
    let present = supports_present d pdevice surface in
    let start : Picked = record { best_graphics = none; dedicated_transfer = none } in
    let fams = d.queue_families pdevice in
    indices_eq (loop-best present 0 fams start) (loop-dedicated present 0 fams start)
    ∙ indices_of-families (first_from (presents present) 0 fams) (first_from draws 0 fams)
        (first_from is_dedicated 0 fams)
