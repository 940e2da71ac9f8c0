-- ===== src/GlWindow/Picture.antt =====
-- What the window shows: the frames that `render_frame` of gl_window.cc draws.
use friendviewer.Prelude.{
  ℕ, ◌*◌, ◌^◌, ◌≤◌, ◌<◌, ◌≡◌, refl, ◌∙◌, ap, true, Option, some, List, [], ◌∷◌, ◌++◌, ◌==◌, ==_iff,
  length, take, drop, take-length, replicate, drop-length, append_assoc, append-nil, All, arith,
  if◌then◌else◌,
}
use friendviewer.Prelude.Faults.{◌>>=◌}
use friendviewer.GlWindow.{
  pixel_unpack_buffer, GlCall, bind_texture, bind_buffer, buffer_data, tex_image, delete_buffer,
  delete_texture, tex_sub_image, copy_to_mapped, unmap_buffer, draw_elements, Gl, GlWindow,
  frame_bytes, update_calls, draw_first, draw_last, calls, upload, draw, render_frame,
}

-- The part of OpenGL's state that the picture comes from. `drawn` has the pictures so far.
pub record View : Type 0 where
  pub bound_texture : ℕ
  pub bound_unpack : ℕ
  pub textures : ℕ → List ℕ
  pub buffers : ℕ → List ℕ
  pub drawn : List (List ℕ)

abbrev pub update : ℕ → List ℕ → (ℕ → List ℕ) → ℕ → List ℕ
update k v f i = if i == k then v else f i

-- What OpenGL documents of the calls. `unset n` stands for the bytes of a new buffer of size `n`.
abbrev pub apply : (ℕ → List ℕ) → GlCall → View → View
apply unset (bind_texture t) v = record v { bound_texture = t }
apply unset (bind_buffer pixel_unpack_buffer b) v = record v { bound_unpack = b }
apply unset (buffer_data pixel_unpack_buffer n) v = record v {
  buffers = update v.bound_unpack (unset n) v.buffers;
}
apply unset (tex_sub_image x y) v = record v {
  textures = update v.bound_texture (take (x * y * 3) (v.buffers v.bound_unpack)) v.textures;
}
apply unset (copy_to_mapped bytes) v = record v {
  buffers =
      update v.bound_unpack (bytes ++ drop (length bytes) (v.buffers v.bound_unpack)) v.buffers;
}
apply unset draw_elements v = record v { drawn = v.drawn ++ (v.textures v.bound_texture ∷ []) }
apply unset (tex_image x y) v = record v {
  textures = update v.bound_texture (replicate (x * y * 3) 0) v.textures;
}
apply unset (delete_buffer b) v = record v {
  buffers = update b [] v.buffers;
  bound_unpack = if v.bound_unpack == b then 0 else v.bound_unpack;
}
apply unset (delete_texture t) v = record v {
  textures = update t [] v.textures;
  bound_texture = if v.bound_texture == t then 0 else v.bound_texture;
}
apply unset c v = v

pub record PictureLaws (gl : Gl) : Type 0 where
  pub view : gl.World → View
  pub unset : ℕ → List ℕ
  pub length_unset : (n : ℕ) → length (unset n) ≡ n
  pub applies : (w : gl.World) (c : GlCall) → view (gl.call w c) ≡ apply unset c (view w)
  pub maps : (w : gl.World) → (gl.map_buffer w).0 ≡ true
  pub keeps : (w : gl.World) → view (gl.map_buffer w).1 ≡ view w

abbrev pub apply_all : (ℕ → List ℕ) → View → List GlCall → View
apply_all unset v [] = v
apply_all unset v (c ∷ cs) = apply_all unset (apply unset c v) cs

pub update_same : (k : ℕ) (v : List ℕ) (f : ℕ → List ℕ) → update k v f k ≡ v
update_same k v f =
    let e : (k == k) ≡ true = (==_iff k k).1 refl in ap (λ b. if b then v else f k) e

module _ {gl : Gl} (l : PictureLaws gl) where
  pub view-calls :
      (w : gl.World) (cs : List GlCall) → l.view (calls gl w cs) ≡ apply_all l.unset (l.view w) cs
  view-calls w [] = refl
  view-calls w (c ∷ cs) =
      view-calls (gl.call w c) cs ∙ ap (λ v. apply_all l.unset v cs) (l.applies w c)

  -- The picture and the buffers after a frame was rendered.
  abbrev pub Rendered : GlWindow → List ℕ → View → View → Type 0
  Rendered g image v v' =
      (v'.drawn ≡ v.drawn ++ (v.buffers g.pbo_id ∷ [])) × (v'.buffers g.pbo_id ≡ image)

  -- The calls of `draw` that the picture comes from.
  abbrev draw_calls : GlWindow → List GlCall
  draw_calls g =
      bind_buffer pixel_unpack_buffer 0
      ∷ bind_texture g.streaming_tex_id
      ∷ draw_elements
      ∷ bind_texture 0
      ∷ []

  draw-view :
      (window : ℕ) (g : GlWindow) (w : gl.World)
      → l.view (draw gl window g w).1 ≡ apply_all l.unset (l.view w) (draw_calls g)
  unfolding draw
  draw-view window g w =
      let w1 = calls gl w (draw_first g) in
      let last = draw_last window (gl.get_uniform_location w1 g.shader_id) g in
      view-calls w1 last ∙ ap (λ v. apply_all l.unset v last) (view-calls w (draw_first g))

  -- The calls before the new frame, its upload and its picture, one after the other.
  abbrev frame_view : List ℕ → GlWindow → View → View
  frame_view image g v =
      apply_all l.unset
        (apply_all l.unset (apply_all l.unset v (update_calls g))
          (copy_to_mapped image ∷ unmap_buffer ∷ []))
        (draw_calls g)

  draw_keeps :
      (window : ℕ) (g : GlWindow) (w : gl.World)
      → let g' = (draw gl window g w).0 in g' ≡ record g { tex_uniform = g'.tex_uniform }
  unfolding draw
  draw_keeps window g w = refl

  frame_view-Rendered :
      (image : List ℕ) (g : GlWindow) (v : View)
      → length image ≡ g.width * g.height * 3
      → g.width * g.height * 3 < 2 ^ 32
      → length (v.buffers g.pbo_id) ≡ g.width * g.height * 3
      → Rendered g image v (frame_view image g v)
  frame_view-Rendered image g v size fits full =
      let shown = take (g.width * g.height * 3) (v.buffers g.pbo_id) in
      let renewed = update g.pbo_id (l.unset (frame_bytes g)) v.buffers in
      let room : length (renewed g.pbo_id) ≤ length image = omega (
        arith,
        ap length (update_same g.pbo_id (l.unset (frame_bytes g)) v.buffers),
        l.length_unset (frame_bytes g),
      ) in
      (
        ap (λ f. v.drawn ++ (f ∷ []))
            (update_same g.streaming_tex_id shown v.textures
              ∙ take-length (g.width * g.height * 3) (v.buffers g.pbo_id) (omega arith)),
        update_same g.pbo_id (image ++ drop (length image) (renewed g.pbo_id)) renewed
            ∙ ap (◌++◌ image) (drop-length (length image) (renewed g.pbo_id) room)
            ∙ append-nil image,
      )

  render_frame-Rendered :
      (image : List ℕ) (g : GlWindow) (w : gl.World) (window : ℕ)
      → g.window ≡ some window
      → length image ≡ g.width * g.height * 3
      → g.width * g.height * 3 < 2 ^ 32
      → length ((l.view w).buffers g.pbo_id) ≡ g.width * g.height * 3
      → (g' : GlWindow) × (w' : gl.World) × (render_frame gl image g w ≡ some (g', w'))
        × Rendered g image (l.view w) (l.view w')
        × (g' ≡ record g { tex_uniform = g'.tex_uniform })
  unfolding render_frame upload
  render_frame-Rendered image g w window open_window size fits full =
      let w1 = calls gl w (update_calls g) in
      let w2 = (gl.map_buffer w1).1 in
      let w3 = calls gl w2 (copy_to_mapped image ∷ unmap_buffer ∷ []) in
      let r = draw gl window g w3 in
      let mapped = l.maps w1 in
      let up : upload gl image g w1 ≡ some w3 = ground arith in
      let seen : l.view r.1 ≡ frame_view image g (l.view w) =
        draw-view window g w3
        ∙ ap (λ v. apply_all l.unset v (draw_calls g))
            (view-calls w2 (copy_to_mapped image ∷ unmap_buffer ∷ [])
              ∙ ap (λ v. apply_all l.unset v (copy_to_mapped image ∷ unmap_buffer ∷ []))
                  (l.keeps w1 ∙ view-calls w (update_calls g))) in
      let (drawn, buffer) = frame_view-Rendered image g (l.view w) size fits full in
      (
        r.0,
        r.1,
        ground arith,
        (
          ap (λ (v : View). v.drawn) seen ∙ drawn,
          ap (λ (v : View). v.buffers g.pbo_id) seen ∙ buffer,
        ),
        draw_keeps window g w3,
      )

-- The frames, one after the other.
module _ (gl : Gl) where
  unfoldable pub render_frames : List (List ℕ) → GlWindow → gl.World → Option (GlWindow × gl.World)
  render_frames [] g w = some (g, w)
  render_frames (image ∷ images) g w = do
    (g1, w1) ← render_frame gl image g w
    render_frames images g1 w1

module _ {gl : Gl} (l : PictureLaws gl) where
  -- With an open window whose frames have less than 2 ^ 32 bytes, and a frame in its pixel buffer:
  -- frames of three bytes for each pixel are all rendered, no write goes behind the pixel buffer, and
  -- the pictures that are drawn are the frame that was in the buffer and then the frames but for the
  -- last one, which is in the buffer now.
  pub render_frames_delayed :
      (images : List (List ℕ)) (g : GlWindow) (w : gl.World) (window : ℕ)
      → g.window ≡ some window
      → g.width * g.height * 3 < 2 ^ 32
      → length ((l.view w).buffers g.pbo_id) ≡ g.width * g.height * 3
      → All (λ image. length image ≡ g.width * g.height * 3) images
      → (g' : GlWindow) × (w' : gl.World) × (render_frames gl images g w ≡ some (g', w'))
        × ((l.view w').drawn ++ ((l.view w').buffers g.pbo_id ∷ [])
            ≡ (l.view w).drawn ++ ((l.view w).buffers g.pbo_id ∷ images))
  unfolding render_frames
  render_frames_delayed [] g w window open_window fits full sized = (g, w, refl, refl)
  render_frames_delayed (image ∷ images) g w window open_window fits full (size, sizes) =
      let (g1, w1, same, (drawn, buffer), kept) =
        render_frame-Rendered l image g w window open_window size fits full in
      let (g2, w2, more, later) =
        render_frames_delayed images (record g { tex_uniform = g1.tex_uniform }) w1 window
          open_window fits (ap length buffer ∙ size) sizes in
      (
        g2,
        w2,
        ap (λ m. m >>= (λ s. render_frames gl images s.0 s.1)) same
            ∙ ap (λ h. render_frames gl images h w1) kept
            ∙ more,
        later
            ∙ ap (λ b. (l.view w1).drawn ++ (b ∷ images)) buffer
            ∙ ap (λ p. p ++ (image ∷ images)) drawn
            ∙ append_assoc (l.view w).drawn ((l.view w).buffers g.pbo_id ∷ []) (image ∷ images),
      )
