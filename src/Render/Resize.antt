-- ===== src/Render/Resize.antt =====
-- `PendingResize` of src/vulkan_backend/state_machine.rs: three atomic variables that the thread of the
-- window system writes (`request`) and the thread that renders reads (`take`), each access a step of
-- its own. Releases and acquisitions order the accesses as they stand in the code.
pub mod Settled
pub mod Refines
pub mod Tests
use vulkan_cocoa_core.Common.{ℕ, ◌≡◌, List, [], ◌∷◌, Option, some, none, Bool, true, false}
use vulkan_cocoa_core.Render.Display.{Extent}

pub record PendingResize : Type 0 where
  pub flag : Bool
  pub width : ℕ
  pub height : ℕ

unfoldable pub default : PendingResize
default = record { flag = false; width = 0; height = 0 }

-- Both methods without interference.
unfoldable pub request : Extent → PendingResize → PendingResize
request e p = record { flag = true; width = e.width; height = e.height }

unfoldable pub take : PendingResize → Option Extent × PendingResize
take p = elim p.flag [
  | true ↦ (some (record { width = p.width; height = p.height }), record p { flag = false })
  | false ↦ (none, p)
]

-- How far `request` has come with a size.
pub data Requester : Type 0 where
  at_rest : Requester
  width_stored height_stored : Extent → Requester

-- How far `take` has come, with the width that it loaded.
pub data Taker : Type 0 where
  free swapped : Taker
  width_loaded : ℕ → Taker

-- `requested` and `taken` list the sizes that were asked for and that `take` returned, the last one
-- first.
pub record System : Type 0 where
  pub cell : PendingResize
  pub requester : Requester
  pub taker : Taker
  pub requested : List Extent
  pub taken : List Extent

pub data Requests : System → System → Type 0 where
  store_width :
      {s : System} (e : Extent)
      → s.requester ≡ at_rest
      → Requests s (record s {
        cell = record { flag = s.cell.flag; width = e.width; height = s.cell.height };
        requester = width_stored e;
        requested = e ∷ s.requested;
      })
  store_height :
      {s : System} (e : Extent)
      → s.requester ≡ width_stored e
      → Requests s (record s {
        cell = record { flag = s.cell.flag; width = s.cell.width; height = e.height };
        requester = height_stored e;
      })
  store_flag :
      {s : System} (e : Extent)
      → s.requester ≡ height_stored e
      → Requests s (record s {
        cell = record { flag = true; width = s.cell.width; height = s.cell.height };
        requester = at_rest;
      })

-- Where the flag is not set, `take` returns nothing and changes nothing.
pub data Takes : System → System → Type 0 where
  swap_flag :
      {s : System}
      → s.taker ≡ free
      → s.cell.flag ≡ true
      → Takes s (record s {
        cell = record { flag = false; width = s.cell.width; height = s.cell.height };
        taker = swapped;
      })
  load_width :
      {s : System} → s.taker ≡ swapped → Takes s (record s { taker = width_loaded s.cell.width })
  load_height :
      {s : System} (w : ℕ)
      → s.taker ≡ width_loaded w
      → Takes s (record s {
        taker = free;
        taken = record { width = w; height = s.cell.height } ∷ s.taken;
      })

abbrev pub start : System
start = record { cell = default; requester = at_rest; taker = free; requested = []; taken = [] }

-- The states that some order of the steps of both threads leads to.
pub data Reach : System → Type 0 where
  starts : Reach start
  requests : {s s' : System} → Reach s → Requests s s' → Reach s'
  takes : {s s' : System} → Reach s → Takes s s' → Reach s'

-- The steps of the thread that renders, without the other.
pub data Alone : System → System → Type 0 where
  stays : {s : System} → Alone s s
  and_then : {s s' s'' : System} → Takes s s' → Alone s' s'' → Alone s s''
