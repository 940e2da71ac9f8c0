-- ===== src/GlWindow/Closed.antt =====
-- From `create_window` to `close_window` of gl_window.cc.
use friendviewer.Prelude.{
  ℕ, ◌+◌, ◌≡◌, ◌∙◌, ap, inl, inr, Bool, Bool-cases, Option, none, some, Option-cases, List, [], ◌∷◌,
  arith,
}
use friendviewer.GlWindow.{
  GlCall, window_hint, samples, context_version_major, context_version_minor, opengl_forward_compat,
  opengl_core_profile, make_context_current, set_window_user_pointer, set_sticky_keys,
  set_key_callback, set_mouse_button_callback, set_cursor_pos_callback, Gl, GlWindow, calls,
  create_context, create_window, close_window,
}
use friendviewer.GlWindow.Objects.{
  Kind, made_window, ObjectLaws, alive-calls, ids, create_objects-alive, create_objects-window,
  close_window-alive,
}

module _ {gl : Gl} (l : ObjectLaws gl) (k : Kind) (i : ℕ) where
  create_context-alive :
      (window : ℕ) (g : GlWindow) (w : gl.World)
      → let (result, g', w') = create_context gl window g w in
        result ≡ none → (g'.window ≡ g.window) × (l.alive w' k i ≡ l.alive w k i + ids l k i g')
  unfolding create_context
  create_context-alive window g w h =
      let first : List GlCall = make_context_current window ∷ set_window_user_pointer window ∷ [] in
      let a1 = alive-calls l k i w first in
      let w1 = calls gl w first in
      let a2 = l.inits_glew w1 k i in
      let w2 = (gl.glew_init w1).1 in
      let last : List GlCall =
        set_sticky_keys window
        ∷ set_key_callback window
        ∷ set_mouse_button_callback window
        ∷ set_cursor_pos_callback window
        ∷ [] in
      let a3 = alive-calls l k i w2 last in
      let w3 = calls gl w2 last in
      let a4 = create_objects-alive l k i g w3 in
      let same = create_objects-window l k i g w3 in
      elim (Bool-cases (gl.glew_init w1).0) [
        | inl ready ↦ (ground arith, ground arith)
        | inr fails ↦ absurd (ground arith)
      ]

  -- Where only the calls that make and delete objects change how often one is alive: when
  -- `create_window` makes all it wants to make, `close_window` on that window deletes as many of
  -- each object as were made since, and of no other: every shader, program, array, buffer, texture
  -- and window is alive as often as before.
  pub create_window-close_window :
      (width height : ℕ) (g : GlWindow) (w : gl.World)
      → let (result, g', w') = create_window gl width height g w in
        result ≡ none
        → (w'' : gl.World) × (close_window gl g' w' ≡ some w'') × (l.alive w'' k i ≡ l.alive w k i)
  unfolding create_window
  create_window-close_window width height g w h =
      let g1 = record g { width = width; height = height } in
      let a1 = l.inits_glfw w k i in
      let w1 = (gl.glfw_init w).1 in
      let hints : List GlCall =
        window_hint samples
        ∷ window_hint context_version_major
        ∷ window_hint context_version_minor
        ∷ window_hint opengl_forward_compat
        ∷ window_hint opengl_core_profile
        ∷ [] in
      let a2 = alive-calls l k i w1 hints in
      let w2 = calls gl w1 hints in
      let a3 = l.creates_window w2 width height k i in
      let (window, w3) = gl.glfw_create_window w2 width height in
      elim (Bool-cases (gl.glfw_init w).0) [
        | inr fails ↦ absurd (ground arith)
        | inl ready ↦ elim (Option-cases window) [
          | inl missing ↦ absurd (ground arith)
          | inr (handle, made) ↦
              let g2 = record g1 { window = window } in
              let (kept, a4) = create_context-alive handle g2 w3 (ground arith) in
              let r = create_context gl handle g2 w3 in
              let (w4, closes, a5) = close_window-alive l k i r.1 r.2 handle (kept ∙ made) in
              let whole : create_window gl width height g w ≡ r = ground arith in
              (
                w4,
                ap (λ (s : Option Bool × GlWindow × gl.World). close_window gl s.1 s.2) whole
                    ∙ closes,
                omega (arith, a1, a2, a3, a4, a5, ap (λ o. made_window o k i) made),
              )
        ]
      ]
