-- ===== src/GlWindow.antt =====
-- prototype/daemon/renderer/gl_window.{hh,cc}: the window that shows the frames, through OpenGL,
-- GLEW and GLFW.
mod Calls
pub mod Picture
pub mod Started
pub mod Objects
pub mod Closed
pub mod Mapping
pub mod Distinct
pub mod Keys
pub mod Remote
pub mod Relay
pub mod RelayRuns
pub mod Runs
pub use Calls.*
use friendviewer.Prelude.{
  ℕ, ◌+◌, ◌*◌, ◌%◌, ◌^◌, Bool, true, false, Option, none, some, List, [], ◌∷◌, ◌++◌, leb, ltb,
  length, foldl, if◌then◌else◌,
}
use friendviewer.Prelude.Faults.{◌>>=◌, ◌>>◌, guard}

-- The callbacks stand in GlWindow.Keys.
pub record GlWindow : Type 0 where
  pub width : ℕ
  pub height : ℕ
  pub window : Option ℕ
  pub shader_id : ℕ
  pub vertex_array_id : ℕ
  pub vertex_buffer_id : ℕ
  pub index_buffer_id : ℕ
  pub pbo_id : ℕ
  pub streaming_tex_id : ℕ
  pub tex_uniform : ℕ

-- `width_ * height_ * 3`, of 32-bit numbers.
abbrev pub frame_bytes : GlWindow → ℕ
frame_bytes g = (g.width * g.height * 3) % 2 ^ 32

-- The calls that set the new texture up.
abbrev pub texture_calls : GlWindow → ℕ → List GlCall
texture_calls g texture =
    active_texture_0
    ∷ bind_texture texture
    ∷ tex_parameter min_filter_linear
    ∷ tex_parameter mag_filter_linear
    ∷ tex_parameter wrap_s_clamp
    ∷ tex_parameter wrap_t_clamp
    ∷ unpack_alignment_1
    ∷ tex_image g.width g.height
    ∷ bind_texture 0
    ∷ []

-- The calls of `render_frame`: those before the new frame is written, and those behind it, before and
-- after the place of the uniform is asked for.
abbrev pub update_calls : GlWindow → List GlCall
update_calls g =
    bind_texture g.streaming_tex_id
    ∷ bind_buffer pixel_unpack_buffer g.pbo_id
    ∷ tex_sub_image g.width g.height
    ∷ bind_buffer pixel_unpack_buffer g.pbo_id
    ∷ buffer_data pixel_unpack_buffer (frame_bytes g)
    ∷ []

abbrev pub draw_first : GlWindow → List GlCall
draw_first g =
    bind_buffer pixel_unpack_buffer 0 ∷ clear ∷ use_program g.shader_id ∷ active_texture_0 ∷ []

abbrev pub draw_last : ℕ → ℕ → GlWindow → List GlCall
draw_last window location g =
    set_uniform location 0
    ∷ bind_texture g.streaming_tex_id
    ∷ bind_vertex_array g.vertex_array_id
    ∷ enable_attribute 0
    ∷ enable_attribute 1
    ∷ bind_buffer array_buffer g.vertex_buffer_id
    ∷ attribute_pointer 0 0
    ∷ attribute_pointer 1 8
    ∷ bind_buffer element_array_buffer g.index_buffer_id
    ∷ draw_elements
    ∷ bind_texture 0
    ∷ disable_attribute 1
    ∷ disable_attribute 0
    ∷ swap_buffers window
    ∷ poll_events
    ∷ []

module _ (gl : Gl) where
  abbrev pub calls : gl.World → List GlCall → gl.World
  calls w [] = w
  calls w (c ∷ cs) = calls (gl.call w c) cs

  abbrev pub info_log : ℕ → gl.World → gl.World
  info_log shader w =
      if ltb 0 (gl.info_log_length w shader) then gl.call w (get_shader_info_log shader) else w

  -- The program. No status that is asked for is looked at.
  unfoldable pub load_shader : gl.World → ℕ × gl.World
  load_shader w =
      let (vertex_id, w1) = gl.create_shader w vertex_shader in
      let (fragment_id, w2) = gl.create_shader w1 fragment_shader in
      let w3 = calls w2 (
        shader_source vertex_id vertex_shader
        ∷ compile_shader vertex_id
        ∷ get_compile_status vertex_id
        ∷ shader_source fragment_id fragment_shader
        ∷ compile_shader fragment_id
        ∷ get_compile_status fragment_id
        ∷ []) in
      let (program_id, w4) = gl.create_program (info_log fragment_id w3) in
      (
        program_id,
        calls w4 (
            attach_shader program_id vertex_id
            ∷ attach_shader program_id fragment_id
            ∷ link_program program_id
            ∷ get_link_status vertex_id
            ∷ detach_shader program_id vertex_id
            ∷ detach_shader program_id fragment_id
            ∷ delete_shader vertex_id
            ∷ delete_shader fragment_id
            ∷ []),
      )

  -- From the shaders on.
  unfoldable pub create_objects : GlWindow → gl.World → GlWindow × gl.World
  create_objects g w =
      let (shader, w1) = load_shader w in
      let (vertex_array, w2) = gl.gen_vertex_array w1 in
      let (vertex_buffer, w3) = gl.gen_buffer (calls w2 (bind_vertex_array vertex_array ∷ [])) in
      let (index_buffer, w4) =
        gl.gen_buffer
          (calls w3 (bind_buffer array_buffer vertex_buffer ∷ buffer_data array_buffer 64 ∷ [])) in
      let (texture, w5) = gl.gen_texture (
        calls w4 (
          bind_buffer element_array_buffer index_buffer
          ∷ buffer_data element_array_buffer 24
          ∷ [])) in
      let (pbo, w6) = gl.gen_buffer (calls w5 (texture_calls g texture)) in
      (
        record g {
          shader_id = shader;
          vertex_array_id = vertex_array;
          vertex_buffer_id = vertex_buffer;
          index_buffer_id = index_buffer;
          streaming_tex_id = texture;
          pbo_id = pbo;
        },
        calls w6 (
            bind_buffer pixel_unpack_buffer pbo
            ∷ buffer_data pixel_unpack_buffer (frame_bytes g)
            ∷ []),
      )

  unfoldable pub create_context : ℕ → GlWindow → gl.World → Option Bool × GlWindow × gl.World
  create_context window g w =
      let (ready, w1) =
        gl.glew_init
          (calls w (make_context_current window ∷ set_window_user_pointer window ∷ [])) in
      elim ready [
        | false ↦ (some false, g, w1)
        | true ↦
            let (g', w') = create_objects g (
              calls w1 (
                set_sticky_keys window
                ∷ set_key_callback window
                ∷ set_mouse_button_callback window
                ∷ set_cursor_pos_callback window
                ∷ [])) in
            (none, g', w')
      ]

  -- The result is `none` where the body ends without a `return`.
  unfoldable pub create_window : ℕ → ℕ → GlWindow → gl.World → Option Bool × GlWindow × gl.World
  create_window width height g w =
      let g1 = record g { width = width; height = height } in
      let (ready, w1) = gl.glfw_init w in
      elim ready [
        | false ↦ (some false, g1, w1)
        | true ↦
            let (window, w2) =
              gl.glfw_create_window
                (calls w1 (
                  window_hint samples
                  ∷ window_hint context_version_major
                  ∷ window_hint context_version_minor
                  ∷ window_hint opengl_forward_compat
                  ∷ window_hint opengl_core_profile
                  ∷ []))
                width height in
            let g2 = record g1 { window = window } in
            elim window [
              | none ↦ (some false, g2, gl.call w2 terminate)
              | some handle ↦ create_context handle g2 w2
            ]
      ]

  -- The write to the mapped buffer; `none` is a write behind it.
  unfoldable pub upload : List ℕ → GlWindow → gl.World → Option gl.World
  upload image g w =
      let (mapped, w1) = gl.map_buffer w in
      elim mapped [
        | false ↦ some w1
        | true ↦ do
          guard (leb (length image) (frame_bytes g))
          some (calls w1 (copy_to_mapped image ∷ unmap_buffer ∷ []))
      ]

  unfoldable pub draw : ℕ → GlWindow → gl.World → GlWindow × gl.World
  draw window g w =
      let w1 = calls w (draw_first g) in
      let location = gl.get_uniform_location w1 g.shader_id in
      (record g { tex_uniform = location }, calls w1 (draw_last window location g))

  unfoldable pub render_frame : List ℕ → GlWindow → gl.World → Option (GlWindow × gl.World)
  render_frame image g w = do
    window ← g.window
    w1 ← upload image g (calls w (update_calls g))
    some (draw window g w1)

  unfoldable pub close_window : GlWindow → gl.World → Option gl.World
  close_window g w = do
    window ← g.window
    some (
        calls w (
          delete_buffer g.vertex_buffer_id
          ∷ delete_buffer g.index_buffer_id
          ∷ delete_buffer g.pbo_id
          ∷ delete_program g.shader_id
          ∷ delete_texture g.streaming_tex_id
          ∷ delete_vertex_array g.vertex_array_id
          ∷ destroy_window window
          ∷ terminate
          ∷ []))
