-- ===== src/GlWindow/Started.antt =====
-- The frames that a new window of gl_window.cc shows.
use mathlib.Core.Path.{subst}
use friendviewer.Prelude.{
  ℕ, ◌*◌, ◌%◌, ◌^◌, ◌<◌, ◌≡◌, refl, sym, ◌∙◌, ap, inl, inr, Bool, Bool-cases, Option, none, some,
  Option-cases, List, [], ◌∷◌, ◌++◌, length, All, arith,
}
use friendviewer.GlWindow.{
  Gl, GlWindow, bind_buffer, buffer_data, pixel_unpack_buffer, frame_bytes, calls, create_objects,
  create_context, create_window, window_hint, samples, context_version_major, context_version_minor,
  opengl_forward_compat, opengl_core_profile, make_context_current, set_window_user_pointer,
  set_sticky_keys, set_key_callback, set_mouse_button_callback, set_cursor_pos_callback,
}
use friendviewer.GlWindow.Picture.{
  View, PictureLaws, update_same, view-calls, render_frames, render_frames_delayed,
}

module _ {gl : Gl} (l : PictureLaws gl) where
  -- What a window has whose objects were made.
  record Started (width height : ℕ) (g : GlWindow) (w : gl.World) : Type 0 where
    opened : ℕ
    has_window : g.window ≡ some opened
    has_width : g.width ≡ width
    has_height : g.height ≡ height
    full : (l.view w).buffers g.pbo_id ≡ l.unset (frame_bytes g)

  new_buffer :
      (pbo n : ℕ) (w : gl.World)
      → (l.view (
            calls gl w (
              bind_buffer pixel_unpack_buffer pbo
              ∷ buffer_data pixel_unpack_buffer n
              ∷ []))).buffers
          pbo
        ≡ l.unset n
  new_buffer pbo n w =
      ap (λ (v : View). v.buffers pbo)
        (view-calls l w
          (bind_buffer pixel_unpack_buffer pbo ∷ buffer_data pixel_unpack_buffer n ∷ []))
      ∙ update_same pbo (l.unset n) (l.view w).buffers

  create_objects-Started :
      (g : GlWindow) (w : gl.World) (handle : ℕ)
      → g.window ≡ some handle
      → Started g.width g.height (create_objects gl g w).0 (create_objects gl g w).1
  unfolding create_objects
  create_objects-Started g w handle h = record {
    opened = handle;
    has_window = h;
    has_width = refl;
    has_height = refl;
    full = new_buffer _ (frame_bytes g) _;
  }

  create_context-Started :
      (handle : ℕ) (g : GlWindow) (w : gl.World)
      → g.window ≡ some handle
      → let (result, g', w') = create_context gl handle g w in
        result ≡ none → Started g.width g.height g' w'
  unfolding create_context
  create_context-Started handle g w made h =
      let w1 = calls gl w (make_context_current handle ∷ set_window_user_pointer handle ∷ []) in
      let w2 = (gl.glew_init w1).1 in
      let w3 = calls gl w2 (
        set_sticky_keys handle
        ∷ set_key_callback handle
        ∷ set_mouse_button_callback handle
        ∷ set_cursor_pos_callback handle
        ∷ []) in
      elim (Bool-cases (gl.glew_init w1).0) [
        | inr fails ↦ absurd (ground arith)
        | inl ready ↦
            let whole : create_context gl handle g w
                ≡ (none, (create_objects gl g w3).0, (create_objects gl g w3).1) =
              ground arith in
            subst (λ (s : Option Bool × GlWindow × gl.World). Started g.width g.height s.1 s.2)
              (sym whole) (create_objects-Started g w3 handle made)
      ]

  create_window-Started :
      (width height : ℕ) (g : GlWindow) (w : gl.World)
      → let (result, g', w') = create_window gl width height g w in
        result ≡ none → Started width height g' w'
  unfolding create_window
  create_window-Started width height g w h =
      let w1 = calls gl (gl.glfw_init w).1 (
        window_hint samples
        ∷ window_hint context_version_major
        ∷ window_hint context_version_minor
        ∷ window_hint opengl_forward_compat
        ∷ window_hint opengl_core_profile
        ∷ []) in
      let (window, w2) = gl.glfw_create_window w1 width height in
      let g2 = record g { width = width; height = height; window = window } in
      elim (Bool-cases (gl.glfw_init w).0) [
        | inr fails ↦ absurd (ground arith)
        | inl ready ↦ elim (Option-cases window) [
          | inl missing ↦ absurd (ground arith)
          | inr (handle, made) ↦
              let r = create_context gl handle g2 w2 in
              let whole : create_window gl width height g w ≡ r = ground arith in
              subst (λ (s : Option Bool × GlWindow × gl.World). Started width height s.1 s.2)
                (sym whole) (create_context-Started handle g2 w2 made (ground arith))
        ]
      ]

  -- Where OpenGL does what is documented of the calls that the picture comes from, and maps its
  -- buffers: after a `create_window` that made all it wants to make, for a frame of less than 2 ^
  -- 32 bytes: any frames of three bytes for each pixel are all rendered, and no write goes behind
  -- the pixel buffer. The pictures drawn are first what the new pixel buffer happened to hold, and
  -- then the frames but for the last one, which waits in the pixel buffer.
  pub create_window-render_frames :
      (width height : ℕ) (g : GlWindow) (w : gl.World) (images : List (List ℕ))
      → let (result, g1, w1) = create_window gl width height g w in
        result ≡ none
        → width * height * 3 < 2 ^ 32
        → All (λ image. length image ≡ width * height * 3) images
        → (g2 : GlWindow) × (w2 : gl.World) × (render_frames gl images g1 w1 ≡ some (g2, w2))
          × ((l.view w2).drawn ++ ((l.view w2).buffers g1.pbo_id ∷ [])
              ≡ (l.view w1).drawn ++ (l.unset (width * height * 3) ∷ images))
  create_window-render_frames width height g w images h fits sized =
      let (result, g1, w1) = create_window gl width height g w in
      let s = create_window-Started width height g w h in
      let size : g1.width * g1.height * 3 ≡ width * height * 3 =
        ap (λ n. n * g1.height * 3) s.has_width ∙ ap (λ n. width * n * 3) s.has_height in
      let bytes : frame_bytes g1 ≡ width * height * 3 = ap (λ n. n % 2 ^ 32) size ∙ omega arith in
      let full : (l.view w1).buffers g1.pbo_id ≡ l.unset (width * height * 3) =
        s.full ∙ ap l.unset bytes in
      let (g2, w2, same, shown) =
        render_frames_delayed l images g1 w1 s.opened s.has_window (omega arith)
          (ap length full ∙ l.length_unset (width * height * 3) ∙ sym size)
          (subst (λ n. All (λ image. length image ≡ n) images) (sym size) sized) in
      (g2, w2, same, shown ∙ ap (λ b. (l.view w1).drawn ++ (b ∷ images)) full)
