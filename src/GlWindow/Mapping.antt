-- ===== src/GlWindow/Mapping.antt =====
-- The table of gl_window.cc that maps GLFW's keys to Windows' virtual key codes.
use friendviewer.Prelude.{
  ℕ, ◌≡◌, ◌⊎◌, inl, inr, refl, ◌∙◌, Bool, true, false, Bool-cases, List, [], ◌∷◌, All, arith,
  if◌then◌else◌,
}
use friendviewer.Prelude.Words.{ℤ, pos, same_int, same_int_refl, same_int_sym}

-- The keys that GLFW names and the switch has a case for.
pub data GlfwKey : Type 0 where
  key_apostrophe key_comma key_minus key_period key_slash key_semicolon : GlfwKey
  key_equal key_left_bracket key_backslash key_right_bracket key_grave_accent key_escape : GlfwKey
  key_enter key_tab key_backspace key_insert key_delete key_right : GlfwKey
  key_left key_down key_up key_page_up key_page_down key_home : GlfwKey
  key_end key_caps_lock key_scroll_lock key_num_lock key_print_screen key_pause : GlfwKey
  key_kp_decimal key_kp_divide key_kp_multiply key_kp_subtract key_kp_add key_kp_enter : GlfwKey
  key_kp_equal key_left_shift key_left_control key_left_alt key_left_super key_right_shift : GlfwKey
  key_right_control key_right_alt key_right_super key_menu : GlfwKey
  key_f : ℕ → GlfwKey
  key_kp : ℕ → GlfwKey

-- The cases that return a number, and those that return 0.
abbrev pub switch : List (GlfwKey × ℕ)
switch =
    (key_apostrophe, 0xDE)
    ∷ (key_comma, 0xBC)
    ∷ (key_minus, 0xBD)
    ∷ (key_period, 0xBE)
    ∷ (key_slash, 0xBF)
    ∷ (key_semicolon, 0xBA)
    ∷ (key_equal, 0xBB)
    ∷ (key_left_bracket, 0xDB)
    ∷ (key_backslash, 0xE2)
    ∷ (key_right_bracket, 0xDD)
    ∷ (key_grave_accent, 0xC0)
    ∷ (key_escape, 0x1B)
    ∷ (key_enter, 0x0D)
    ∷ (key_tab, 0x09)
    ∷ (key_backspace, 0x08)
    ∷ (key_insert, 0x2D)
    ∷ (key_delete, 0x2E)
    ∷ (key_right, 0x27)
    ∷ (key_left, 0x25)
    ∷ (key_down, 0x28)
    ∷ (key_up, 0x26)
    ∷ (key_page_up, 0x21)
    ∷ (key_page_down, 0x22)
    ∷ (key_home, 0x24)
    ∷ (key_end, 0x23)
    ∷ (key_caps_lock, 0x14)
    ∷ (key_scroll_lock, 0)
    ∷ (key_num_lock, 0)
    ∷ (key_print_screen, 0)
    ∷ (key_pause, 0)
    ∷ (key_f 1, 0)
    ∷ (key_f 2, 0)
    ∷ (key_f 3, 0)
    ∷ (key_f 4, 0)
    ∷ (key_f 5, 0)
    ∷ (key_f 6, 0)
    ∷ (key_f 7, 0)
    ∷ (key_f 8, 0)
    ∷ (key_f 9, 0)
    ∷ (key_f 10, 0)
    ∷ (key_f 11, 0)
    ∷ (key_f 12, 0)
    ∷ (key_f 13, 0)
    ∷ (key_f 14, 0)
    ∷ (key_f 15, 0)
    ∷ (key_f 16, 0)
    ∷ (key_f 17, 0)
    ∷ (key_f 18, 0)
    ∷ (key_f 19, 0)
    ∷ (key_f 20, 0)
    ∷ (key_f 21, 0)
    ∷ (key_f 22, 0)
    ∷ (key_f 23, 0)
    ∷ (key_f 24, 0)
    ∷ (key_f 25, 0)
    ∷ (key_kp 0, 0)
    ∷ (key_kp 1, 0)
    ∷ (key_kp 2, 0)
    ∷ (key_kp 3, 0)
    ∷ (key_kp 4, 0)
    ∷ (key_kp 5, 0)
    ∷ (key_kp 6, 0)
    ∷ (key_kp 7, 0)
    ∷ (key_kp 8, 0)
    ∷ (key_kp 9, 0)
    ∷ (key_kp_decimal, 0)
    ∷ (key_kp_divide, 0)
    ∷ (key_kp_multiply, 0)
    ∷ (key_kp_subtract, 0)
    ∷ (key_kp_add, 0)
    ∷ (key_kp_enter, 0)
    ∷ (key_kp_equal, 0)
    ∷ (key_left_shift, 0)
    ∷ (key_left_control, 0)
    ∷ (key_left_alt, 0)
    ∷ (key_left_super, 0)
    ∷ (key_right_shift, 0)
    ∷ (key_right_control, 0)
    ∷ (key_right_alt, 0)
    ∷ (key_right_super, 0)
    ∷ (key_menu, 0)
    ∷ []

-- `code` gives the numbers of GLFW's header.
module _ (code : GlfwKey → ℤ) where
  unfoldable pub find_case : List (GlfwKey × ℕ) → ℤ → ℤ
  find_case [] glfw = glfw
  find_case ((key, value) ∷ cases) glfw =
      if same_int glfw (code key) then pos value else find_case cases glfw

  unfoldable pub get_key_mapping : ℤ → ℤ
  get_key_mapping glfw = find_case switch glfw

  -- C++ wants the labels of a switch to differ.
  abbrev pub is_label : List (GlfwKey × ℕ) → ℤ → Bool
  is_label [] glfw = false
  is_label ((key, value) ∷ cases) glfw =
      if same_int glfw (code key) then true else is_label cases glfw

  abbrev pub labels_differ : List (GlfwKey × ℕ) → Bool
  labels_differ [] = true
  labels_differ ((key, value) ∷ cases) =
      if is_label cases (code key) then false else labels_differ cases

  abbrev Finds : List (GlfwKey × ℕ) → GlfwKey × ℕ → Type 0
  Finds cases c = find_case cases (code c.0) ≡ pos c.1

  find_case_behind :
      (key : GlfwKey) (value : ℕ) (cases found : List (GlfwKey × ℕ))
      → is_label found (code key) ≡ false
      → All (Finds cases) found
      → All (Finds ((key, value) ∷ cases)) found
  unfolding find_case
  find_case_behind key value cases [] new finds = tt
  find_case_behind key value cases ((other, v) ∷ found) new (first, finds) =
      let apart : same_int (code other) (code key) ≡ false =
        same_int_sym (code other) (code key) ∙ ground arith in
      (ground arith, find_case_behind key value cases found (ground arith) finds)

  find_case_labels :
      (cases : List (GlfwKey × ℕ)) → labels_differ cases ≡ true → All (Finds cases) cases
  unfolding find_case
  find_case_labels [] differ = tt
  find_case_labels ((key, value) ∷ cases) differ = (
    ground (arith, same_int_refl (code key)),
    find_case_behind key value cases cases (ground arith) (find_case_labels cases (ground arith)),
  )

  find_case_default :
      (cases : List (GlfwKey × ℕ)) (glfw : ℤ)
      → (is_label cases glfw ≡ true) ⊎ (find_case cases glfw ≡ glfw)
  unfolding find_case
  find_case_default [] glfw = inr refl
  find_case_default ((key, value) ∷ cases) glfw = elim (Bool-cases (same_int glfw (code key))) [
    | inl here ↦ inl (ground arith)
    | inr not_here ↦ elim (find_case_default cases glfw) [
      | inl later ↦ inl (ground arith)
      | inr same ↦ inr (ground arith)
    ]
  ]

  -- When GLFW's numbers for the cases differ, each key of the switch is mapped to the number of its
  -- own case, and a number that is none of theirs stays as it is.
  pub get_key_mapping-switch :
      (glfw : ℤ)
      → labels_differ switch ≡ true
      → All (λ c. get_key_mapping (code c.0) ≡ pos c.1) switch
        × ((is_label switch glfw ≡ true) ⊎ (get_key_mapping glfw ≡ glfw))
  unfolding get_key_mapping
  get_key_mapping-switch glfw differ =
      (find_case_labels switch differ, find_case_default switch glfw)
