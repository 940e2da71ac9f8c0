-- ===== src/InputControl.antt =====
-- prototype/daemon/input/input_control.cc: what the host does with a client's input. The calls of
-- the system are events, in order; its constants, the size of the monitor and `float` are parameters.
pub mod Clamp
pub mod Runs
use friendviewer.Prelude.{
  ℕ, ◌+◌, ◌-◌, ◌%◌, ◌^◌, Bool, true, false, ◌&&◌, List, [], ◌∷◌, ◌==◌, leb, if◌then◌else◌,
}
use friendviewer.Prelude.Words.{ℤ, pos, negsuc}

-- `scale x n` is `static_cast<int>(x * n)`, and `bit_or` is `|` on a DWORD.
pub record Desktop : Type 1 where
  pub Float : Type 0
  pub float_zero : Float
  pub float_one : Float
  pub float_lt : Float → Float → Bool
  pub scale : Float → ℕ → ℤ
  pub bit_or : ℕ → ℕ → ℕ
  pub width : ℕ
  pub height : ℕ
  pub vk_lbutton : ℕ
  pub vk_rbutton : ℕ
  pub vk_mbutton : ℕ
  pub vk_xbutton2 : ℕ
  pub left_down : ℕ
  pub right_down : ℕ
  pub middle_down : ℕ

pub data InputEvent : Type 0 where
  sets_cursor : ℤ → ℤ → InputEvent
  sends_mouse : ℕ → InputEvent
  sends_key : ℕ → InputEvent
  sleeps : ℕ → InputEvent

abbrev pub fake_release_wait_time : ℕ
fake_release_wait_time = 16

-- Comparisons of an `int` with a constant, and the cast to a WORD.
abbrev pub is_key : ℕ → ℤ → Bool
is_key key (pos n) = n == key
is_key key (negsuc n) = false

abbrev pub at_least : ℕ → ℤ → Bool
at_least key (pos n) = leb key n
at_least key (negsuc n) = false

abbrev pub at_most : ℕ → ℤ → Bool
at_most key (pos n) = leb n key
at_most key (negsuc n) = true

abbrev pub to_word : ℤ → ℕ
to_word (pos n) = n % 2 ^ 16
to_word (negsuc n) = 2 ^ 16 - 1 - n % 2 ^ 16

module _ (w : Desktop) where
  open w use {
    Float, float_zero, float_one, float_lt, scale, bit_or, width, height, vk_lbutton, vk_rbutton,
    vk_mbutton, vk_xbutton2, left_down, right_down, middle_down,
  }

  -- `std::max(0.f, std::min(1.f, x))`.
  unfoldable pub clamp : Float → Float
  clamp x =
      let least = if float_lt x float_one then x else float_one in
      if float_lt float_zero least then least else float_zero

  unfoldable pub set_cursor_location : Float → Float → List InputEvent
  unfolding clamp
  set_cursor_location x y = sets_cursor (scale (clamp x) width) (scale (clamp y) height) ∷ []

  -- `flags` is what the structure holds before, which the function does not set. `down` is not read.
  unfoldable pub send_mouse_input : ℕ → ℤ → Bool → InputEvent
  send_mouse_input flags virtual_key down =
      if is_key vk_lbutton virtual_key
      then sends_mouse (bit_or flags left_down)
      else if is_key vk_rbutton virtual_key
      then sends_mouse (bit_or flags right_down)
      else if is_key vk_mbutton virtual_key
      then sends_mouse (bit_or flags middle_down)
      else sends_mouse flags

  -- The future is dropped at once, and its destructor waits for the task.
  unfoldable pub send_virtual_input : ℕ → ℕ → ℤ → List InputEvent
  send_virtual_input flags1 flags2 virtual_key =
      if at_least vk_lbutton virtual_key && at_most vk_xbutton2 virtual_key
      then send_mouse_input flags1 virtual_key true
        ∷ sleeps fake_release_wait_time
        ∷ send_mouse_input flags2 virtual_key false
        ∷ []
      else sends_key (to_word virtual_key) ∷ []
