-- ===== src/GlWindow/Calls.antt =====
-- What prototype/daemon/renderer/gl_window.cc calls of OpenGL, GLEW and GLFW.
use friendviewer.Prelude.{ℕ, Bool, Option, List}

pub data Target : Type 0 where
  array_buffer : Target
  element_array_buffer : Target
  pixel_unpack_buffer : Target

pub data Stage : Type 0 where
  vertex_shader : Stage
  fragment_shader : Stage

pub data Hint : Type 0 where
  samples : Hint
  context_version_major : Hint
  context_version_minor : Hint
  opengl_forward_compat : Hint
  opengl_core_profile : Hint

pub data TexParameter : Type 0 where
  min_filter_linear : TexParameter
  mag_filter_linear : TexParameter
  wrap_s_clamp : TexParameter
  wrap_t_clamp : TexParameter

-- A call whose result, if it has one, is not read. `shader_source` gives a shader the text of its
-- stage in this file, and `copy_to_mapped` is the `memcpy` into the mapped buffer.
pub data GlCall : Type 0 where
  shader_source : ℕ → Stage → GlCall
  compile_shader : ℕ → GlCall
  get_compile_status : ℕ → GlCall
  get_link_status : ℕ → GlCall
  get_shader_info_log : ℕ → GlCall
  attach_shader : ℕ → ℕ → GlCall
  link_program : ℕ → GlCall
  detach_shader : ℕ → ℕ → GlCall
  delete_shader : ℕ → GlCall
  terminate : GlCall
  window_hint : Hint → GlCall
  make_context_current : ℕ → GlCall
  set_window_user_pointer : ℕ → GlCall
  set_sticky_keys : ℕ → GlCall
  set_key_callback : ℕ → GlCall
  set_mouse_button_callback : ℕ → GlCall
  set_cursor_pos_callback : ℕ → GlCall
  bind_vertex_array : ℕ → GlCall
  bind_buffer : Target → ℕ → GlCall
  buffer_data : Target → ℕ → GlCall
  active_texture_0 : GlCall
  bind_texture : ℕ → GlCall
  tex_parameter : TexParameter → GlCall
  unpack_alignment_1 : GlCall
  tex_image : ℕ → ℕ → GlCall
  tex_sub_image : ℕ → ℕ → GlCall
  copy_to_mapped : List ℕ → GlCall
  unmap_buffer : GlCall
  clear : GlCall
  use_program : ℕ → GlCall
  set_uniform : ℕ → ℕ → GlCall
  enable_attribute : ℕ → GlCall
  attribute_pointer : ℕ → ℕ → GlCall
  draw_elements : GlCall
  disable_attribute : ℕ → GlCall
  swap_buffers : ℕ → GlCall
  poll_events : GlCall
  delete_buffer : ℕ → GlCall
  delete_program : ℕ → GlCall
  delete_texture : ℕ → GlCall
  delete_vertex_array : ℕ → GlCall
  destroy_window : ℕ → GlCall

-- The libraries, as a parameter: what a call does, and the calls whose result is read.
pub record Gl : Type 1 where
  pub World : Type 0
  pub call : World → GlCall → World
  pub create_shader : World → Stage → ℕ × World
  pub create_program : World → ℕ × World
  pub info_log_length : World → ℕ → ℕ
  pub glfw_init : World → Bool × World
  pub glfw_create_window : World → ℕ → ℕ → Option ℕ × World
  pub glew_init : World → Bool × World
  pub gen_vertex_array : World → ℕ × World
  pub gen_buffer : World → ℕ × World
  pub gen_texture : World → ℕ × World
  pub map_buffer : World → Bool × World
  pub get_uniform_location : World → ℕ → ℕ
