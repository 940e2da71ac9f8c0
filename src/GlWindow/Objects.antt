-- ===== src/GlWindow/Objects.antt =====
-- The objects of OpenGL and GLFW that gl_window.cc makes are the ones that it deletes.
use friendviewer.Prelude.{
  ℕ, ◌+◌, ◌-◌, ◌≡◌, refl, inl, inr, Bool, true, false, Bool-cases, Option, none, some, List, [],
  ◌∷◌, ◌==◌, ◌&&◌, ltb, arith, if◌then◌else◌,
}
use friendviewer.GlWindow.{
  array_buffer, element_array_buffer, pixel_unpack_buffer, Stage, vertex_shader, fragment_shader,
  GlCall, shader_source, compile_shader, get_compile_status, get_link_status, get_shader_info_log,
  attach_shader, link_program, detach_shader, delete_shader, bind_vertex_array, bind_buffer,
  buffer_data, delete_buffer, delete_program, delete_texture, delete_vertex_array, destroy_window,
  terminate, Gl, GlWindow, frame_bytes, calls, load_shader, create_objects, close_window, info_log,
  texture_calls,
}

pub data Kind : Type 0 where
  shaders : Kind
  programs : Kind
  vertex_arrays : Kind
  buffers : Kind
  textures : Kind
  windows : Kind

abbrev same_kind : Kind → Kind → Bool
same_kind shaders shaders = true
same_kind programs programs = true
same_kind vertex_arrays vertex_arrays = true
same_kind buffers buffers = true
same_kind textures textures = true
same_kind windows windows = true
same_kind a b = false

-- 1 for the object itself, and 0 for any other.
unfoldable pub one : Kind → ℕ → Kind → ℕ → ℕ
one kind id k i = if same_kind kind k && (id == i) then 1 else 0

-- The objects that a call deletes.
abbrev pub gone : GlCall → Kind → ℕ → ℕ
gone (delete_shader id) k i = one shaders id k i
gone (delete_program id) k i = one programs id k i
gone (delete_vertex_array id) k i = one vertex_arrays id k i
gone (delete_buffer id) k i = one buffers id k i
gone (delete_texture id) k i = one textures id k i
gone (destroy_window id) k i = one windows id k i
gone c k i = 0

abbrev pub made_window : Option ℕ → Kind → ℕ → ℕ
made_window none k i = 0
made_window (some id) k i = one windows id k i

-- How often an object is alive: a call that makes one adds it, and a call that deletes it takes it
-- away.
pub record ObjectLaws (gl : Gl) : Type 0 where
  pub alive : gl.World → Kind → ℕ → ℕ
  pub deletes :
      (w : gl.World) (c : GlCall) (k : Kind) (i : ℕ)
      → alive (gl.call w c) k i ≡ alive w k i - gone c k i
  pub creates_shader :
      (w : gl.World) (s : Stage) (k : Kind) (i : ℕ)
      → alive (gl.create_shader w s).1 k i ≡ alive w k i + one shaders (gl.create_shader w s).0 k i
  pub creates_program :
      (w : gl.World) (k : Kind) (i : ℕ)
      → alive (gl.create_program w).1 k i ≡ alive w k i + one programs (gl.create_program w).0 k i
  pub creates_window :
      (w : gl.World) (x y : ℕ) (k : Kind) (i : ℕ)
      → alive (gl.glfw_create_window w x y).1 k i
        ≡ alive w k i + made_window (gl.glfw_create_window w x y).0 k i
  pub gens_vertex_array :
      (w : gl.World) (k : Kind) (i : ℕ)
      → alive (gl.gen_vertex_array w).1 k i
        ≡ alive w k i + one vertex_arrays (gl.gen_vertex_array w).0 k i
  pub gens_buffer :
      (w : gl.World) (k : Kind) (i : ℕ)
      → alive (gl.gen_buffer w).1 k i ≡ alive w k i + one buffers (gl.gen_buffer w).0 k i
  pub gens_texture :
      (w : gl.World) (k : Kind) (i : ℕ)
      → alive (gl.gen_texture w).1 k i ≡ alive w k i + one textures (gl.gen_texture w).0 k i
  pub inits_glfw : (w : gl.World) (k : Kind) (i : ℕ) → alive (gl.glfw_init w).1 k i ≡ alive w k i
  pub inits_glew : (w : gl.World) (k : Kind) (i : ℕ) → alive (gl.glew_init w).1 k i ≡ alive w k i

-- How many times some calls delete an object.
abbrev pub all_gone : List GlCall → Kind → ℕ → ℕ
all_gone [] k i = 0
all_gone (c ∷ cs) k i = gone c k i + all_gone cs k i

module _ {gl : Gl} (l : ObjectLaws gl) (k : Kind) (i : ℕ) where
  pub alive-calls :
      (w : gl.World) (cs : List GlCall)
      → l.alive (calls gl w cs) k i ≡ l.alive w k i - all_gone cs k i
  alive-calls w [] = omega arith
  alive-calls w (c ∷ cs) = omega (arith, alive-calls (gl.call w c) cs, l.deletes w c k i)

  alive-info_log : (shader : ℕ) (w : gl.World) → l.alive (info_log gl shader w) k i ≡ l.alive w k i
  alive-info_log shader w = elim (Bool-cases (ltb 0 (gl.info_log_length w shader))) [
    | inl long ↦ ground (arith, l.deletes w (get_shader_info_log shader) k i)
    | inr empty ↦ ground arith
  ]

  load_shader-alive :
      (w : gl.World)
      → l.alive (load_shader gl w).1 k i ≡ l.alive w k i + one programs (load_shader gl w).0 k i
  unfolding load_shader
  load_shader-alive w =
      let (v, w1) = gl.create_shader w vertex_shader in
      let (f, w2) = gl.create_shader w1 fragment_shader in
      let a1 = l.creates_shader w vertex_shader k i in
      let a2 = l.creates_shader w1 fragment_shader k i in
      let first : List GlCall =
        shader_source v vertex_shader
        ∷ compile_shader v
        ∷ get_compile_status v
        ∷ shader_source f fragment_shader
        ∷ compile_shader f
        ∷ get_compile_status f
        ∷ [] in
      let w3 = calls gl w2 first in
      let a3 = alive-calls w2 first in
      let w4 = info_log gl f w3 in
      let a4 = alive-info_log f w3 in
      let (p, w5) = gl.create_program w4 in
      let a5 = l.creates_program w4 k i in
      let a6 = alive-calls w5 (
        attach_shader p v
        ∷ attach_shader p f
        ∷ link_program p
        ∷ get_link_status v
        ∷ detach_shader p v
        ∷ detach_shader p f
        ∷ delete_shader v
        ∷ delete_shader f
        ∷ []) in
      omega (arith, a1, a2, a3, a4, a5, a6)

  -- The objects of a window.
  abbrev pub ids : GlWindow → ℕ
  ids g =
      one programs g.shader_id k i
      + one vertex_arrays g.vertex_array_id k i
      + one buffers g.vertex_buffer_id k i
      + one buffers g.index_buffer_id k i
      + one buffers g.pbo_id k i
      + one textures g.streaming_tex_id k i

  pub create_objects-alive :
      (g : GlWindow) (w : gl.World)
      → l.alive (create_objects gl g w).1 k i ≡ l.alive w k i + ids (create_objects gl g w).0
  unfolding create_objects
  create_objects-alive g w =
      let (shader, w1) = load_shader gl w in
      let a1 = load_shader-alive w in
      let (vertex_array, w2) = gl.gen_vertex_array w1 in
      let a2 = l.gens_vertex_array w1 k i in
      let w3 = calls gl w2 (bind_vertex_array vertex_array ∷ []) in
      let a3 = alive-calls w2 (bind_vertex_array vertex_array ∷ []) in
      let (vertex_buffer, w4) = gl.gen_buffer w3 in
      let a4 = l.gens_buffer w3 k i in
      let c5 : List GlCall =
        bind_buffer array_buffer vertex_buffer ∷ buffer_data array_buffer 64 ∷ [] in
      let w5 = calls gl w4 c5 in
      let a5 = alive-calls w4 c5 in
      let (index_buffer, w6) = gl.gen_buffer w5 in
      let a6 = l.gens_buffer w5 k i in
      let c7 : List GlCall =
        bind_buffer element_array_buffer index_buffer ∷ buffer_data element_array_buffer 24 ∷ [] in
      let w7 = calls gl w6 c7 in
      let a7 = alive-calls w6 c7 in
      let (texture, w8) = gl.gen_texture w7 in
      let a8 = l.gens_texture w7 k i in
      let c9 = texture_calls g texture in
      let w9 = calls gl w8 c9 in
      let a9 = alive-calls w8 c9 in
      let (pbo, w10) = gl.gen_buffer w9 in
      let a10 = l.gens_buffer w9 k i in
      let a11 = alive-calls w10 (
        bind_buffer pixel_unpack_buffer pbo
        ∷ buffer_data pixel_unpack_buffer (frame_bytes g)
        ∷ []) in
      omega (arith, a1, a2, a3, a4, a5, a6, a7, a8, a9, a10, a11)

  pub close_window-alive :
      (g : GlWindow) (w : gl.World) (window : ℕ)
      → g.window ≡ some window
      → (w' : gl.World) × (close_window gl g w ≡ some w')
        × (l.alive w' k i ≡ l.alive w k i - (ids g + one windows window k i))
  unfolding close_window
  close_window-alive g w window h =
      let cs : List GlCall =
        delete_buffer g.vertex_buffer_id
        ∷ delete_buffer g.index_buffer_id
        ∷ delete_buffer g.pbo_id
        ∷ delete_program g.shader_id
        ∷ delete_texture g.streaming_tex_id
        ∷ delete_vertex_array g.vertex_array_id
        ∷ destroy_window window
        ∷ terminate
        ∷ [] in
      (calls gl w cs, ground arith, omega (arith, alive-calls w cs))

  pub create_objects-window :
      (g : GlWindow) (w : gl.World) → (create_objects gl g w).0.window ≡ g.window
  unfolding create_objects
  create_objects-window g w = refl
