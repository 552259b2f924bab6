-- ===== src/Windows/Sync.antt =====
-- What the compositor knows of a window's size.
use vulkan_cocoa_core.Common.{
  ℕ, ◌≡◌, refl, sym, ap, ◌∙◌, List, [], ◌∷◌, Option, none, some, Bool, true, false, ◌==◌, ==_iff,
  if◌then◌else◌, arith, Bool-cases, inl, inr,
}
use vulkan_cocoa_core.Windows.Table.{
  Float, NsRect, WindowState, Table, lookup, with_window_state, lookup-with_window_state,
  lookup-remove_window_state,
}
use vulkan_cocoa_core.Windows.Handlers.{
  Event, window_shown, window_resized, window_closed, window_did_become_key, window_did_resize,
  Bridge, update, send, window_make_key_and_order_front, size_differs, window_set_frame_display,
  window_close, Message, init_with_frame, set_frame, set_title, set_delegate, set_layer,
  make_key_and_order_front, order_out, close, frame, bounds, wants_layer, set_wants_layer, layer,
  handle, handle_all, window_set_title, window_set_delegate, window_order_out, view_set_wants_layer,
  view_layer, view_set_layer, view_frame, view_bounds, view_wants_layer,
}

-- The size that the compositor was last told, of a window that was not closed since.
unfoldable pub known : ℕ → List Event → Option (ℕ × ℕ)
known id [] = none
known id (window_shown j w h l ∷ es) = if j == id then some (w, h) else known id es
known id (window_resized j w h ∷ es) = if j == id then some (w, h) else known id es
known id (window_closed j ∷ es) = if j == id then none else known id es
known id (window_did_become_key d j ∷ es) = known id es
known id (window_did_resize d j ∷ es) = known id es

-- Messages that give no window its first frame.
unfoldable pub initless : {F : Float} → List (Message F) → Bool
initless [] = true
initless (init_with_frame id rect ∷ ms) = false
initless (_ ∷ ms) = initless ms

module _ (F : Float) where
  abbrev pub pixels : NsRect F.Carrier → ℕ × ℕ
  pixels rect = (F.as_u32 rect.size.width, F.as_u32 rect.size.height)

  abbrev pub pixels_of : ℕ → Table F → ℕ × ℕ
  pixels_of id m = pixels (lookup F id m).frame

  -- Each size that the compositor knows is the window's.
  abbrev pub InSync : Bridge F → Type 0
  InSync s = (id : ℕ) (sz : ℕ × ℕ) → known id s.events ≡ some sz → sz ≡ pixels_of id s.windows

  -- Numbers that do not differ are cast to the same number.
  abbrev pub CastsAlike : Type 0
  CastsAlike = (x y : F.Carrier) → F.differ x y ≡ false → F.as_u32 x ≡ F.as_u32 y

  pixels-with_window_state :
      (id j : ℕ) (f : WindowState F.Carrier → WindowState F.Carrier) (m : Table F)
      → pixels_of j (with_window_state F id f m)
        ≡ (if id == j then pixels (f (lookup F id m)).frame else pixels_of j m)
  pixels-with_window_state id j f m = elim (Bool-cases (id == j)) [
    | inl e ↦ rw (lookup-with_window_state F id j f m, e) refl
    | inr e ↦ rw (lookup-with_window_state F id j f m, e) refl
  ]

  -- A change that keeps the frame keeps every window's size.
  pixels-kept :
      (id j : ℕ) (f : WindowState F.Carrier → WindowState F.Carrier) (m : Table F)
      → pixels (f (lookup F id m)).frame ≡ pixels_of id m
      → pixels_of j (with_window_state F id f m) ≡ pixels_of j m
  pixels-kept id j f m same = elim (Bool-cases (id == j)) [
    | inl e ↦
        let at : id ≡ j = (==_iff id j).0 e in
        pixels-with_window_state id j f m ∙ rw e (same ∙ ap (λ (i : ℕ). pixels_of i m) at)
    | inr e ↦ pixels-with_window_state id j f m ∙ rw e refl
  ]

  update-InSync :
      (id : ℕ) (f : WindowState F.Carrier → WindowState F.Carrier) (s : Bridge F)
      → pixels (f (lookup F id s.windows)).frame ≡ pixels_of id s.windows
      → InSync s
      → InSync (update F id f s)
  update-InSync id f s same is j sz e = is j sz e ∙ sym (pixels-kept id j f s.windows same)

  known-send :
      (j d id : ℕ) (es : List Event)
      → (known j (send F d (window_did_become_key d id) es) ≡ known j es)
        × (known j (send F d (window_did_resize d id) es) ≡ known j es)
  unfolding known
  known-send j d id es = (ground arith, ground arith)

  known-make_key :
      (id j : ℕ) (s : Bridge F)
      → known j (window_make_key_and_order_front F true id s).events
        ≡ (if id == j then some (pixels_of id s.windows) else known j s.events)
  unfolding window_make_key_and_order_front
  known-make_key id j s = elim (Bool-cases ws.is_key) [
    | inl e ↦ rw e (unfold known in refl)
    | inr e ↦ rw e ((known-send j ws.delegate id shown).0 ∙ (unfold known in refl))
  ]
    where
      ws : WindowState F.Carrier
      ws = lookup F id s.windows

      shown : List Event
      shown = window_shown id (pixels ws.frame).0 (pixels ws.frame).1 ws.layer ∷ s.events

  make_key-InSync :
      (id : ℕ) (s : Bridge F) → InSync s → InSync (window_make_key_and_order_front F true id s)
  unfolding window_make_key_and_order_front
  make_key-InSync id s is j sz e =
      let kept = pixels-kept id j (λ ws. record ws { is_key = true }) s.windows refl in
      let told = sym (known-make_key id j s) ∙ e in
      elim (Bool-cases (id == j)) [
        | inl h ↦
            let at : pixels_of id s.windows ≡ pixels_of j s.windows =
              ap (λ (i : ℕ). pixels_of i s.windows) ((==_iff id j).0 h) in
            let same : some (pixels_of id s.windows) ≡ some sz = rw h at told in cc (at, same, kept)
        | inr h ↦ is j sz (rw h at told) ∙ sym kept
      ]

  known-set_frame :
      (id j : ℕ) (rect : NsRect F.Carrier) (s : Bridge F)
      → size_differs F (lookup F id s.windows).frame.size rect.size ≡ true
      → known j (window_set_frame_display F true id rect s).events
        ≡ (if id == j then some (pixels rect) else known j s.events)
  unfolding window_set_frame_display
  known-set_frame id j rect s e =
      let ws = lookup F id s.windows in
      let told = window_resized id (pixels rect).0 (pixels rect).1 ∷ s.events in
      rw e ((known-send j ws.delegate id told).1 ∙ (unfold known in refl))

  set_frame-InSync :
      (id : ℕ) (rect : NsRect F.Carrier) (s : Bridge F)
      → CastsAlike
      → InSync s
      → InSync (window_set_frame_display F true id rect s)
  unfolding window_set_frame_display
  set_frame-InSync id rect s alike is j sz e =
      let old = (lookup F id s.windows).frame.size in
      let now = pixels-with_window_state id j (λ ws. record ws { frame = rect }) s.windows in
      elim (Bool-cases (size_differs F old rect.size)) [
        | inl d ↦
            let told = sym (known-set_frame id j rect s d) ∙ e in
            elim (Bool-cases (id == j)) [
              | inl h ↦
                  let same : some (pixels rect) ≡ some sz = rw h at told in
                  let here : pixels_of j _ ≡ pixels rect = now ∙ rw h refl in cc (same, here)
              | inr h ↦ is j sz (rw h at told) ∙ sym (now ∙ rw h refl)
            ]
        | inr d ↦
            let w : F.as_u32 old.width ≡ F.as_u32 rect.size.width =
              unfold size_differs in alike _ _ (ground (arith, d)) in
            let h : F.as_u32 old.height ≡ F.as_u32 rect.size.height =
              unfold size_differs in alike _ _ (ground (arith, d)) in
            is j sz (rw d at e)
            ∙ sym (pixels-kept id j (λ ws. record ws { frame = rect }) s.windows (cc (w, h)))
      ]

  close-InSync : (id : ℕ) (s : Bridge F) → InSync s → InSync (window_close F true id s)
  unfolding window_close known
  close-InSync id s is j sz e = elim (Bool-cases (id == j)) [
    | inl h ↦ cc (rw h at e)
    | inr h ↦ rw (lookup-remove_window_state F id j s.windows, h) (is j sz (rw h at e))
  ]

  handle-InSync :
      (m : Message F) (s : Bridge F)
      → CastsAlike
      → initless (m ∷ []) ≡ true
      → InSync s
      → InSync (handle F true m s)
  unfolding handle initless window_set_title window_set_delegate window_order_out
      view_set_wants_layer view_layer view_set_layer view_frame view_bounds view_wants_layer
  handle-InSync (init_with_frame id rect) s alike no_init is = cc
  handle-InSync (set_frame id rect) s alike no_init is = set_frame-InSync id rect s alike is
  handle-InSync (set_title id text) s alike no_init is = update-InSync id _ s refl is
  handle-InSync (set_delegate id p) s alike no_init is = update-InSync id _ s refl is
  handle-InSync (set_layer id p) s alike no_init is = update-InSync id _ s refl is
  handle-InSync (make_key_and_order_front id) s alike no_init is = make_key-InSync id s is
  handle-InSync (order_out id) s alike no_init is = update-InSync id _ s refl is
  handle-InSync (close id) s alike no_init is = close-InSync id s is
  handle-InSync (frame id) s alike no_init is = update-InSync id _ s refl is
  handle-InSync (bounds id) s alike no_init is = update-InSync id _ s refl is
  handle-InSync (wants_layer id) s alike no_init is = update-InSync id _ s refl is
  handle-InSync (set_wants_layer id wants) s alike no_init is = update-InSync id _ s refl is
  handle-InSync (layer fresh id) s alike no_init is = update-InSync id _ s refl is

  initless_cons :
      (m : Message F) (ms : List (Message F))
      → initless (m ∷ ms) ≡ true
      → (initless (m ∷ []) ≡ true) × (initless ms ≡ true)
  unfolding initless
  initless_cons (init_with_frame id rect) ms h = cc
  initless_cons (set_frame id rect) ms h = (refl, h)
  initless_cons (set_title id text) ms h = (refl, h)
  initless_cons (set_delegate id p) ms h = (refl, h)
  initless_cons (set_layer id p) ms h = (refl, h)
  initless_cons (make_key_and_order_front id) ms h = (refl, h)
  initless_cons (order_out id) ms h = (refl, h)
  initless_cons (close id) ms h = (refl, h)
  initless_cons (frame id) ms h = (refl, h)
  initless_cons (bounds id) ms h = (refl, h)
  initless_cons (wants_layer id) ms h = (refl, h)
  initless_cons (set_wants_layer id wants) ms h = (refl, h)
  initless_cons (layer fresh id) ms h = (refl, h)

  -- With a compositor, where numbers that do not differ are cast to the same number, messages that
  -- give no window its first frame keep the compositor in step: the size that it was last told of a
  -- window that was not closed since is the size of the window's frame.
  pub handle_all-InSync :
      (ms : List (Message F)) (s : Bridge F)
      → CastsAlike
      → initless ms ≡ true
      → InSync s
      → InSync (handle_all F true ms s)
  unfolding handle_all
  handle_all-InSync [] s alike h is = is
  handle_all-InSync (m ∷ ms) s alike h is =
      let (h₁, h₂) = initless_cons m ms h in
      handle_all-InSync ms (handle F true m s) alike h₂ (handle-InSync m s alike h₁ is)
