-- ===== src/GlWindow/Runs.antt =====
-- The window over a small OpenGL, and GLFW's numbers for the keys.
use friendviewer.Prelude.{
  ℕ, ◌+◌, ◌-◌, ◌≡◌, ◌≢◌, refl, true, Option, none, some, List, [], ◌∷◌, ◌++◌, length, replicate,
  length-replicate, arith,
}
use friendviewer.Prelude.Words.{ℤ, pos}
use friendviewer.GlWindow.{
  Gl, GlWindow, create_window, create_context, create_objects, load_shader, close_window,
}
use friendviewer.GlWindow.Picture.{View, apply, PictureLaws, render_frames}
use friendviewer.GlWindow.Started.{create_window-render_frames}
use friendviewer.GlWindow.Objects.{
  Kind, shaders, programs, vertex_arrays, buffers, textures, windows, one, gone, ObjectLaws,
}
use friendviewer.GlWindow.Closed.{create_window-close_window}
use friendviewer.GlWindow.Mapping.{
  GlfwKey, key_apostrophe, key_comma, key_minus, key_period, key_slash, key_semicolon, key_equal,
  key_left_bracket, key_backslash, key_right_bracket, key_grave_accent, key_escape, key_enter,
  key_tab, key_backspace, key_insert, key_delete, key_right, key_left, key_down, key_up,
  key_page_up, key_page_down, key_home, key_end, key_caps_lock, key_scroll_lock, key_num_lock,
  key_print_screen, key_pause, key_kp_decimal, key_kp_divide, key_kp_multiply, key_kp_subtract,
  key_kp_add, key_kp_enter, key_kp_equal, key_left_shift, key_left_control, key_left_alt,
  key_left_super, key_right_shift, key_right_control, key_right_alt, key_right_super, key_menu,
  key_f, key_kp, get_key_mapping, find_case,
}
use friendviewer.GlWindow.Distinct.{get_key_mapping_injective}

pub record Desk : Type 0 where
  pub picture : View
  pub alive : Kind → ℕ → ℕ
  pub next : ℕ

abbrev pub grey : ℕ → List ℕ
grey n = let g : ℕ = 127 in replicate n g

abbrev pub makes : Kind → Desk → ℕ × Desk
makes kind w =
    (w.next, record w { alive = λ k i. w.alive k i + one kind w.next k i; next = w.next + 1 })

abbrev pub made_window_there : Desk → Option ℕ × Desk
made_window_there w = let (id, w1) = makes windows w in (some id, w1)

abbrev pub desk_gl : Gl
desk_gl = record {
  World = Desk;
  call =
      λ w c. record w { picture = apply grey c w.picture; alive = λ k i. w.alive k i - gone c k i };
  create_shader = λ w s. makes shaders w;
  create_program = λ w. makes programs w;
  info_log_length = λ w s. 0;
  glfw_init = λ w. (true, w);
  glfw_create_window = λ w x y. made_window_there w;
  glew_init = λ w. (true, w);
  gen_vertex_array = λ w. makes vertex_arrays w;
  gen_buffer = λ w. makes buffers w;
  gen_texture = λ w. makes textures w;
  map_buffer = λ w. (true, w);
  get_uniform_location = λ w p. 0;
}

length-grey : (n : ℕ) → length (grey n) ≡ n
length-grey n = let g : ℕ = 127 in length-replicate n g

abbrev desk_pictures : PictureLaws desk_gl
desk_pictures = record {
  view = λ w. w.picture;
  unset = grey;
  length_unset = length-grey;
  applies = λ w c. refl;
  maps = λ w. refl;
  keeps = λ w. refl;
}

abbrev desk_objects : ObjectLaws desk_gl
desk_objects = record {
  alive = λ w k i. w.alive k i;
  deletes = λ w c k i. refl;
  creates_shader = λ w s k i. refl;
  creates_program = λ w k i. refl;
  creates_window = λ w x y k i. refl;
  gens_vertex_array = λ w k i. refl;
  gens_buffer = λ w k i. refl;
  gens_texture = λ w k i. refl;
  inits_glfw = λ w k i. refl;
  inits_glew = λ w k i. refl;
}

abbrev dark : View
dark = record {
  bound_texture = 0;
  bound_unpack = 0;
  textures = λ t. [];
  buffers = λ b. grey 3;
  drawn = [];
}

abbrev desk : Desk
desk = record { picture = dark; alive = λ k i. 0; next = 1 }

abbrev pub window : GlWindow
window = record {
  width = 1;
  height = 1;
  window = some 1;
  shader_id = 4;
  vertex_array_id = 5;
  vertex_buffer_id = 6;
  index_buffer_id = 7;
  streaming_tex_id = 8;
  pbo_id = 9;
  tex_uniform = 0;
}

abbrev two_frames : List (List ℕ)
two_frames = (1 ∷ 2 ∷ 3 ∷ 4 ∷ 5 ∷ 6 ∷ []) ∷ (7 ∷ 8 ∷ 9 ∷ 10 ∷ 11 ∷ 12 ∷ []) ∷ []

made : (create_window desk_gl 2 1 window desk).0 ≡ none
unfolding create_window create_context create_objects load_shader
made = refl

create_window-render_frames_example :
    let (result, g1, w1) = create_window desk_gl 2 1 window desk in
    (g2 : GlWindow) × (w2 : Desk) × (render_frames desk_gl two_frames g1 w1 ≡ some (g2, w2))
    × (w2.picture.drawn ++ (w2.picture.buffers g1.pbo_id ∷ [])
        ≡ w1.picture.drawn ++ (grey 6 ∷ two_frames))
create_window-render_frames_example =
    create_window-render_frames desk_pictures 2 1 window desk two_frames made (omega arith)
      (refl, (refl, tt))

create_window-close_window_example :
    let (result, g', w') = create_window desk_gl 2 1 window desk in
    (w'' : Desk) × (close_window desk_gl g' w' ≡ some w'') × (w''.alive buffers 9 ≡ 0)
create_window-close_window_example =
    create_window-close_window desk_objects buffers 9 2 1 window desk made

-- The numbers of GLFW's header.
abbrev pub glfw : GlfwKey → ℤ
glfw key_apostrophe = pos 39
glfw key_comma = pos 44
glfw key_minus = pos 45
glfw key_period = pos 46
glfw key_slash = pos 47
glfw key_semicolon = pos 59
glfw key_equal = pos 61
glfw key_left_bracket = pos 91
glfw key_backslash = pos 92
glfw key_right_bracket = pos 93
glfw key_grave_accent = pos 96
glfw key_escape = pos 256
glfw key_enter = pos 257
glfw key_tab = pos 258
glfw key_backspace = pos 259
glfw key_insert = pos 260
glfw key_delete = pos 261
glfw key_right = pos 262
glfw key_left = pos 263
glfw key_down = pos 264
glfw key_up = pos 265
glfw key_page_up = pos 266
glfw key_page_down = pos 267
glfw key_home = pos 268
glfw key_end = pos 269
glfw key_caps_lock = pos 280
glfw key_scroll_lock = pos 281
glfw key_num_lock = pos 282
glfw key_print_screen = pos 283
glfw key_pause = pos 284
glfw key_kp_decimal = pos 330
glfw key_kp_divide = pos 331
glfw key_kp_multiply = pos 332
glfw key_kp_subtract = pos 333
glfw key_kp_add = pos 334
glfw key_kp_enter = pos 335
glfw key_kp_equal = pos 336
glfw key_left_shift = pos 340
glfw key_left_control = pos 341
glfw key_left_alt = pos 342
glfw key_left_super = pos 343
glfw key_right_shift = pos 344
glfw key_right_control = pos 345
glfw key_right_alt = pos 346
glfw key_right_super = pos 347
glfw key_menu = pos 348
glfw (key_f n) = pos (289 + n)
glfw (key_kp n) = pos (320 + n)

backspace_sends : get_key_mapping glfw (pos 259) ≢ pos 0
unfolding get_key_mapping find_case
backspace_sends = ground arith

get_key_mapping_injective_example : pos 259 ≡ pos 259
get_key_mapping_injective_example =
    get_key_mapping_injective glfw (pos 259) (pos 259) refl refl backspace_sends refl
