-- ===== src/Windows/Table.antt =====
-- The table of window states of src/frameworks/appkit.rs. A coordinate is a floating-point number,
-- of which the code uses what `Float` has.
use vulkan_cocoa_core.Common.{ℕ, ◌≡◌, refl, List, [], ◌∷◌, Bool, false, ◌==◌, if◌then◌else◌, arith}

-- `differ` is `!=`, and `as_u32` the cast.
pub record Float : Type 1 where
  pub Carrier : Type 0
  pub nought : Carrier
  pub differ : Carrier → Carrier → Bool
  pub as_u32 : Carrier → ℕ

pub record NsPoint (C : Type 0) : Type 0 where
  pub x : C
  pub y : C

pub record NsSize (C : Type 0) : Type 0 where
  pub width : C
  pub height : C

pub record NsRect (C : Type 0) : Type 0 where
  pub origin : NsPoint C
  pub size : NsSize C

-- A pointer is a number, and 0 the null pointer; a title is its bytes.
pub record WindowState (C : Type 0) : Type 0 where
  pub frame : NsRect C
  pub title : List ℕ
  pub is_key : Bool
  pub wants_layer : Bool
  pub layer : ℕ
  pub delegate : ℕ

module _ (F : Float) where
  abbrev pub origin_default : NsPoint F.Carrier
  origin_default = record { x = F.nought; y = F.nought }

  abbrev pub window_default : WindowState F.Carrier
  window_default = record {
    frame = record {
      origin = origin_default;
      size = record { width = F.nought; height = F.nought };
    };
    title = [];
    is_key = false;
    wants_layer = false;
    layer = 0;
    delegate = 0;
  }

  abbrev pub Table : Type 0
  Table = List (ℕ × WindowState F.Carrier)

  -- `entry(key).or_default()`, for its value.
  unfoldable pub lookup : ℕ → Table → WindowState F.Carrier
  lookup id [] = window_default
  lookup id ((k, ws) ∷ m) = if k == id then ws else lookup id m

  unfoldable pub put : ℕ → WindowState F.Carrier → Table → Table
  put id ws [] = (id, ws) ∷ []
  put id ws ((k, old) ∷ m) = if k == id then (k, ws) ∷ m else (k, old) ∷ put id ws m

  -- `with_window_state`, for the state that the closure leaves; what it returns is read from the
  -- state before.
  unfoldable pub with_window_state :
      ℕ → (WindowState F.Carrier → WindowState F.Carrier) → Table → Table
  unfolding lookup put
  with_window_state id f m = put id (f (lookup id m)) m

  unfoldable pub remove_window_state : ℕ → Table → Table
  remove_window_state id [] = []
  remove_window_state id ((k, ws) ∷ m) =
      let rest = remove_window_state id m in if k == id then rest else (k, ws) ∷ rest

  pub lookup-put :
      (id j : ℕ) (ws : WindowState F.Carrier) (m : Table)
      → lookup j (put id ws m) ≡ (if id == j then ws else lookup j m)
  unfolding lookup put
  lookup-put id j ws [] = refl
  lookup-put id j ws ((k, old) ∷ m) = ground (arith, lookup-put id j ws m)

  pub lookup-with_window_state :
      (id j : ℕ) (f : WindowState F.Carrier → WindowState F.Carrier) (m : Table)
      → lookup j (with_window_state id f m) ≡ (if id == j then f (lookup id m) else lookup j m)
  unfolding with_window_state
  lookup-with_window_state id j f m = lookup-put id j (f (lookup id m)) m

  pub lookup-remove_window_state :
      (id j : ℕ) (m : Table)
      → lookup j (remove_window_state id m) ≡ (if id == j then window_default else lookup j m)
  unfolding lookup remove_window_state
  lookup-remove_window_state id j [] = ground arith
  lookup-remove_window_state id j ((k, old) ∷ m) = ground (arith, lookup-remove_window_state id j m)
