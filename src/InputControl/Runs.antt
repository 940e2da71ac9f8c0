-- ===== src/InputControl/Runs.antt =====
-- A monitor whose coordinates are hundredths, or not a number.
use friendviewer.Prelude.{ℕ, ◌≡◌, ◌*◌, ◌/◌, refl, [], ◌∷◌, ltb, Option, none, some, Bool, false}
use friendviewer.Prelude.Words.{ℤ, pos, negsuc}
use friendviewer.InputControl.{Desktop, sets_cursor, set_cursor_location}
use friendviewer.InputControl.Clamp.{IsUnit, Follows, set_cursor_location-IsUnit}

abbrev below : Option ℕ → Option ℕ → Bool
below (some x) (some y) = ltb x y
below none y = false
below (some x) none = false

abbrev pixel : Option ℕ → ℕ → ℤ
pixel (some x) n = pos (x * n / 100)
pixel none n = negsuc 0

abbrev hundredths : Desktop
hundredths = record {
  Float = Option ℕ;
  float_zero = some 0;
  float_one = some 100;
  float_lt = below;
  scale = pixel;
  bit_or = λ a b. b;
  width = 1920;
  height = 1080;
  vk_lbutton = 1;
  vk_rbutton = 2;
  vk_mbutton = 4;
  vk_xbutton2 = 6;
  left_down = 2;
  right_down = 8;
  middle_down = 32;
}

set_cursor_location-IsUnit_example :
    (u v : Option ℕ) × (set_cursor_location hundredths none (some 50)
      ≡ sets_cursor (pixel u 1920) (pixel v 1080) ∷ [])
    × IsUnit hundredths u
    × IsUnit hundredths v
    × Follows hundredths none u
    × Follows hundredths (some 50) v
set_cursor_location-IsUnit_example = set_cursor_location-IsUnit hundredths none (some 50) refl
