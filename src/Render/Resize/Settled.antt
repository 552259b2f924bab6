-- ===== src/Render/Resize/Settled.antt =====
-- What the two threads agree on.
use vulkan_cocoa_core.Common.{ℕ, ◌≡◌, refl, ap, ◌∙◌, List, ◌∷◌, false, Bool-cases, inl, inr}
use vulkan_cocoa_core.Render.Display.{Extent}
use vulkan_cocoa_core.Render.Resize.{
  at_rest, width_stored, height_stored, Taker, free, swapped, width_loaded, System, Requests,
  store_width, store_height, store_flag, Takes, swap_flag, load_width, load_height, start, Reach,
  starts, requests, takes, Alone, stays, and_then,
}

-- The size that was asked for last.
abbrev pub Last : System → Extent → Type 0
Last s e = (es : List Extent) × (s.requested ≡ e ∷ es)

-- The size that `take` returned last.
abbrev pub LastTaken : System → Extent → Type 0
LastTaken s e = (es : List Extent) × (s.taken ≡ e ∷ es)

-- What holds in every order of the steps.
record Orderly (s : System) : Type 0 where
  at_width : (e : Extent) → s.requester ≡ width_stored e → Last s e × (s.cell.width ≡ e.width)
  at_height :
      (e : Extent)
      → s.requester ≡ height_stored e
      → Last s e × (s.cell.width ≡ e.width) × (s.cell.height ≡ e.height)
  resting :
      (e : Extent)
      → s.requester ≡ at_rest
      → Last s e
      → (s.cell.width ≡ e.width) × (s.cell.height ≡ e.height)
  loaded :
      (e : Extent) (w : ℕ)
      → s.requester ≡ at_rest
      → s.cell.flag ≡ false
      → s.taker ≡ width_loaded w
      → Last s e
      → w ≡ e.width
  quiet :
      (e : Extent)
      → s.requester ≡ at_rest
      → s.cell.flag ≡ false
      → s.taker ≡ free
      → Last s e
      → LastTaken s e

Extent-eq :
    {w h : ℕ} {e : Extent} → w ≡ e.width → h ≡ e.height → record { width = w; height = h } ≡ e
Extent-eq p q = rw (p, q) refl

start-Orderly : Orderly start
start-Orderly = record {
  at_width = λ e h. cc;
  at_height = λ e h. cc;
  resting = λ e h (es, l). absurd (cc);
  loaded = λ e w h f t l. cc;
  quiet = λ e h f t (es, l). absurd (cc);
}

Requests-Orderly : {s s' : System} → Orderly s → Requests s s' → Orderly s'
Requests-Orderly {s} is (store_width e at) = record {
  at_width = λ e' h.
      let same : e ≡ e' = cc in
      ((s.requested, ap (λ x. x ∷ s.requested) same), ap (λ x. x.width) same);
  at_height = λ e' h. cc;
  resting = λ e' h l. cc;
  loaded = λ e' w h f t l. cc;
  quiet = λ e' h f t l. cc;
}
Requests-Orderly is (store_height e at) = record {
  at_width = λ e' h. cc;
  at_height = λ e' h.
      let same : e ≡ e' = cc in
      let ((es, l), w) = is.at_width e at in
      ((es, l ∙ ap (λ x. x ∷ es) same), w ∙ ap (λ x. x.width) same, ap (λ x. x.height) same);
  resting = λ e' h l. cc;
  loaded = λ e' w h f t l. cc;
  quiet = λ e' h f t l. cc;
}
Requests-Orderly is (store_flag e at) = record {
  at_width = λ e' h. cc;
  at_height = λ e' h. cc;
  resting = λ e' h (es', l').
      let ((es, l), w, t) = is.at_height e at in
      let same : e ≡ e' = cc (l, l') in (w ∙ ap (λ x. x.width) same, t ∙ ap (λ x. x.height) same);
  loaded = λ e' w h f t l. cc;
  quiet = λ e' h f t l. cc;
}

Takes-Orderly : {s s' : System} → Orderly s → Takes s s' → Orderly s'
Takes-Orderly is (swap_flag at set) = record {
  at_width = is.at_width;
  at_height = is.at_height;
  resting = is.resting;
  loaded = λ e w h f t l. cc;
  quiet = λ e h f t l. cc;
}
Takes-Orderly is (load_width at) = record {
  at_width = is.at_width;
  at_height = is.at_height;
  resting = is.resting;
  loaded = λ e w h f t l. let (w', _) = is.resting e h l in cc (w', t);
  quiet = λ e h f t l. cc;
}
Takes-Orderly {s} is (load_height w at) = record {
  at_width = is.at_width;
  at_height = is.at_height;
  resting = is.resting;
  loaded = λ e w' h f t l. cc;
  quiet = λ e h f t l.
      (s.taken, ap (λ x. x ∷ s.taken) (Extent-eq (is.loaded e w h f at l) (is.resting e h l).1));
}

Reach-Orderly : {s : System} → Reach s → Orderly s
Reach-Orderly starts = start-Orderly
Reach-Orderly (requests r t) = Requests-Orderly (Reach-Orderly r) t
Reach-Orderly (takes r t) = Takes-Orderly (Reach-Orderly r) t

-- In whatever order the steps of both threads went: where no request is under way, the flag is not set
-- and nothing is being taken, the last size that was taken is the last one that was requested.
pub taken-settled :
    {s : System} (e : Extent)
    → Reach s
    → s.requester ≡ at_rest
    → s.cell.flag ≡ false
    → s.taker ≡ free
    → Last s e
    → LastTaken s e
taken-settled e r = (Reach-Orderly r).quiet e

-- The thread that renders has taken the size.
pub record Delivered (s : System) (e : Extent) : Type 0 where
  pub after : System
  pub run : Alone s after
  pub free_ : after.taker ≡ free
  pub unset : after.cell.flag ≡ false
  pub last : LastTaken after e

prepend : {s s' : System} {e : Extent} → Takes s s' → Delivered s' e → Delivered s e
prepend t d = record {
  after = d.after;
  run = and_then t d.run;
  free_ = d.free_;
  unset = d.unset;
  last = d.last;
}

-- No request is under way, and the last one was for this size.
record Asked (s : System) (e : Extent) : Type 0 where
  reach : Reach s
  rest : s.requester ≡ at_rest
  last : Last s e

module _ (e : Extent) where
  -- With the flag not set, what is under way is the last round.
  free_unset : (s : System) → Asked s e → s.cell.flag ≡ false → s.taker ≡ free → Delivered s e
  free_unset s is f at = record {
    after = s;
    run = stays;
    free_ = at;
    unset = f;
    last = taken-settled e is.reach is.rest f at is.last;
  }

  loaded_unset :
      (s : System) (w : ℕ)
      → Asked s e
      → s.cell.flag ≡ false
      → s.taker ≡ width_loaded w
      → Delivered s e
  loaded_unset s w is f at = prepend (load_height w at) (
      free_unset _
        (record { reach = takes is.reach (load_height w at); rest = is.rest; last = is.last }) f
        refl)

  swapped_unset : (s : System) → Asked s e → s.cell.flag ≡ false → s.taker ≡ swapped → Delivered s e
  swapped_unset s is f at = prepend (load_width at) (
      loaded_unset _ s.cell.width
        (record { reach = takes is.reach (load_width at); rest = is.rest; last = is.last }) f refl)

  free_any : (s : System) → Asked s e → s.taker ≡ free → Delivered s e
  free_any s is at = elim (Bool-cases s.cell.flag) [
    | inl set ↦ prepend (swap_flag at set) (
        swapped_unset _
          (record { reach = takes is.reach (swap_flag at set); rest = is.rest; last = is.last })
          refl refl)
    | inr f ↦ free_unset s is f at
  ]

  loaded_any : (s : System) (w : ℕ) → Asked s e → s.taker ≡ width_loaded w → Delivered s e
  loaded_any s w is at = prepend (load_height w at) (
      free_any _
        (record { reach = takes is.reach (load_height w at); rest = is.rest; last = is.last }) refl)

  swapped_any : (s : System) → Asked s e → s.taker ≡ swapped → Delivered s e
  swapped_any s is at = prepend (load_width at) (
      loaded_any _ s.cell.width
        (record { reach = takes is.reach (load_width at); rest = is.rest; last = is.last }) refl)

  -- In whatever order the steps went so far: where no request is under way and the last one was for
  -- this size, the thread that renders, on its own, comes to have taken it.
  pub take-Delivered : (s : System) → Reach s → s.requester ≡ at_rest → Last s e → Delivered s e
  take-Delivered s r rest l = by_taker s.taker refl
    where
      is : Asked s e
      is = record { reach = r; rest = rest; last = l }

      by_taker : (t : Taker) → s.taker ≡ t → Delivered s e
      by_taker free at = free_any s is at
      by_taker swapped at = swapped_any s is at
      by_taker (width_loaded w) at = loaded_any s w is at
