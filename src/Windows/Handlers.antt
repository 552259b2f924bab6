-- ===== src/Windows/Handlers.antt =====
-- The handlers of NSWindow and NSView of src/bridge/swizzle.rs. What they send to the compositor and
-- to a window's delegate is logged; the code behind those calls is not modelled. A handler that only
-- returns its receiver or a constant has no definition.
use vulkan_cocoa_core.Common.{
  ℕ, List, [], ◌∷◌, Option, none, some, Bool, true, false, ◌||◌, ◌==◌, if◌then◌else◌,
}
use vulkan_cocoa_core.Windows.Table.{
  Float, NsSize, NsRect, WindowState, Table, origin_default, lookup, with_window_state,
  remove_window_state,
}

-- The calls of the compositor and of delegates.
pub data Event : Type 0 where
  window_shown : (id width height layer : ℕ) → Event
  window_resized : (id width height : ℕ) → Event
  window_closed : (id : ℕ) → Event
  window_did_become_key : (delegate id : ℕ) → Event
  window_did_resize : (delegate id : ℕ) → Event

module _ (F : Float) where
  -- The table, and the events with the latest first.
  pub record Bridge : Type 0 where
    pub windows : Table F
    pub events : List Event

  abbrev pub update : ℕ → (WindowState F.Carrier → WindowState F.Carrier) → Bridge → Bridge
  update id f s = record s { windows = with_window_state F id f s.windows }

  -- `if let Some(c) = COMPOSITOR.get()`
  abbrev pub tell : (compositor : Bool) → Event → List Event → List Event
  tell compositor e es = if compositor then e ∷ es else es

  -- A message to the null delegate is not sent.
  abbrev pub send : (delegate : ℕ) → Event → List Event → List Event
  send delegate e es = if delegate == 0 then es else e ∷ es

  unfoldable pub window_init : (id : ℕ) → NsRect F.Carrier → Bridge → Bridge
  window_init id frame s = update id (λ ws. record ws { frame = frame }) s

  unfoldable pub window_set_title : (id : ℕ) → List ℕ → Bridge → Bridge
  window_set_title id title s = update id (λ ws. record ws { title = title }) s

  unfoldable pub window_set_delegate : (id delegate : ℕ) → Bridge → Bridge
  window_set_delegate id delegate s = update id (λ ws. record ws { delegate = delegate }) s

  unfoldable pub window_make_key_and_order_front : (compositor : Bool) → (id : ℕ) → Bridge → Bridge
  window_make_key_and_order_front compositor id s =
      let ws = lookup F id s.windows in
      let width = F.as_u32 ws.frame.size.width in
      let height = F.as_u32 ws.frame.size.height in
      let shown = tell compositor (window_shown id width height ws.layer) s.events in
      record {
        windows = with_window_state F id (λ ws. record ws { is_key = true }) s.windows;
        events =
            if ws.is_key
            then shown
            else send ws.delegate (window_did_become_key ws.delegate id) shown;
      }

  unfoldable pub size_differs : NsSize F.Carrier → NsSize F.Carrier → Bool
  size_differs a b = F.differ a.width b.width || F.differ a.height b.height

  unfoldable pub window_set_frame_display :
      (compositor : Bool) → (id : ℕ) → NsRect F.Carrier → Bridge → Bridge
  unfolding size_differs
  window_set_frame_display compositor id frame s =
      let ws = lookup F id s.windows in
      let resized = window_resized id (F.as_u32 frame.size.width) (F.as_u32 frame.size.height) in
      record {
        windows = with_window_state F id (λ ws. record ws { frame = frame }) s.windows;
        events =
            if size_differs ws.frame.size frame.size
            then send ws.delegate (window_did_resize ws.delegate id)
                (tell compositor resized s.events)
            else s.events;
      }

  unfoldable pub window_order_out : (id : ℕ) → Bridge → Bridge
  window_order_out id s = update id (λ ws. record ws { is_key = false }) s

  unfoldable pub window_close : (compositor : Bool) → (id : ℕ) → Bridge → Bridge
  window_close compositor id s = record {
    windows = remove_window_state F id s.windows;
    events = tell compositor (window_closed id) s.events;
  }

  unfoldable pub view_set_wants_layer : (id : ℕ) → Bool → Bridge → Bridge
  view_set_wants_layer id wants s = update id (λ ws. record ws { wants_layer = wants }) s

  -- A missing layer is made, if its class is there: `fresh` is the pointer to the new one.
  unfoldable pub view_layer : (fresh : Option ℕ) → (id : ℕ) → Bridge → ℕ × Bridge
  view_layer fresh id s =
      let ws = lookup F id s.windows in
      let layer = if ws.layer == 0 then elim fresh [ none ↦ ws.layer | some p ↦ p ] else ws.layer in
      (layer, update id (λ ws. record ws { layer = layer }) s)

  unfoldable pub view_set_layer : (id layer : ℕ) → Bridge → Bridge
  view_set_layer id layer s = update id (λ ws. record ws { layer = layer }) s

  -- `frame` of a window and of its view. Reading makes the entry, too.
  unfoldable pub view_frame : (id : ℕ) → Bridge → NsRect F.Carrier × Bridge
  view_frame id s = ((lookup F id s.windows).frame, update id (λ ws. ws) s)

  unfoldable pub view_bounds : (id : ℕ) → Bridge → NsRect F.Carrier × Bridge
  view_bounds id s = (
    record { origin = origin_default F; size = (lookup F id s.windows).frame.size },
    update id (λ ws. ws) s,
  )

  unfoldable pub view_wants_layer : (id : ℕ) → Bridge → Bool × Bridge
  view_wants_layer id s = ((lookup F id s.windows).wants_layer, update id (λ ws. ws) s)

  -- A message to a window or a view.
  pub data Message : Type 0 where
    init_with_frame set_frame : (id : ℕ) → NsRect F.Carrier → Message
    set_title : (id : ℕ) → List ℕ → Message
    set_delegate set_layer : (id pointer : ℕ) → Message
    make_key_and_order_front order_out close frame bounds wants_layer : (id : ℕ) → Message
    set_wants_layer : (id : ℕ) → Bool → Message
    layer : (fresh : Option ℕ) → (id : ℕ) → Message

  unfoldable pub handle : (compositor : Bool) → Message → Bridge → Bridge
  unfolding window_init window_set_title window_set_delegate window_make_key_and_order_front
      window_set_frame_display window_order_out window_close view_set_wants_layer view_layer
      view_set_layer view_frame view_bounds view_wants_layer
  handle c (init_with_frame id rect) s = window_init id rect s
  handle c (set_frame id rect) s = window_set_frame_display c id rect s
  handle c (set_title id text) s = window_set_title id text s
  handle c (set_delegate id p) s = window_set_delegate id p s
  handle c (set_layer id p) s = view_set_layer id p s
  handle c (make_key_and_order_front id) s = window_make_key_and_order_front c id s
  handle c (order_out id) s = window_order_out id s
  handle c (close id) s = window_close c id s
  handle c (frame id) s = (view_frame id s).1
  handle c (bounds id) s = (view_bounds id s).1
  handle c (wants_layer id) s = (view_wants_layer id s).1
  handle c (set_wants_layer id wants) s = view_set_wants_layer id wants s
  handle c (layer fresh id) s = (view_layer fresh id s).1

  unfoldable pub handle_all : (compositor : Bool) → List Message → Bridge → Bridge
  unfolding handle
  handle_all c [] s = s
  handle_all c (m ∷ ms) s = handle_all c ms (handle c m s)
