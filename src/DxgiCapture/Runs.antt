-- ===== src/DxgiCapture/Runs.antt =====
-- The capture over a small Windows: one output, a screen of two by one pixels.
use friendviewer.Prelude.{ℕ, ◌+◌, ◌-◌, ◌≡◌, ◌⊎◌, refl, Bool, true, some, List, [], ◌∷◌, arith}
use friendviewer.DxgiCapture.{
  Dxgi, DxgiCapture, OutputAnswer, not_found, found, get_frame, fit_data,
}
use friendviewer.DxgiCapture.Owned.{LiveLaws}
use friendviewer.DxgiCapture.Frame.{Ready, MapsAll}
use friendviewer.DxgiCapture.Host.{get_frame-bottom_up}
use friendviewer.H264Encoder.{bottom_up}
use friendviewer.H264Encoder.Rows.{upward}

pub record Screen : Type 0 where
  pub alive : ℕ
  pub memory : List ℕ

abbrev pub more : ℕ → Screen → Screen
more n w = record w { alive = w.alive + n }

-- A Windows that answers so about its outputs.
abbrev pub windows : OutputAnswer → ℕ → Dxgi
windows answer counted = record {
  World = Screen;
  co_initialize = λ w. w;
  create_factory = λ w. (some 1, more 1 w);
  enum_adapters = λ w f i. (some 2, more 1 w);
  create_device = λ w a. (some (3, 4), more 2 w);
  enum_outputs = λ w a i. (answer, more counted w);
  query_output1 = λ w o. (some 6, more 1 w);
  duplicate_output = λ w o d. (some 7, more 1 w);
  create_texture = λ w d a b. (some 8, more 1 w);
  release_frame = λ w d. w;
  acquire_next_frame = λ w d t. (some 9, more 1 w);
  query_texture = λ w r. (some 10, more 1 w);
  copy_resource = λ w c a b. w;
  map_texture = λ w c a. (some (1 ∷ 2 ∷ 3 ∷ 4 ∷ 5 ∷ 6 ∷ 7 ∷ 8 ∷ 0 ∷ []), w);
  unmap_texture = λ w c a. w;
  release = λ w p. record w { alive = w.alive - 1 };
}

abbrev seen : Dxgi
seen = windows (found 5) 1

abbrev blind : Dxgi
blind = windows not_found 0

abbrev seen-LiveLaws : LiveLaws seen
seen-LiveLaws = record {
  live = λ w. w.alive;
  initializes = λ w. refl;
  creates_factory = λ w. refl;
  enums_adapters = λ w f i. refl;
  creates_device = λ w a. refl;
  enums_outputs = λ w a i. refl;
  queries_output1 = λ w o. refl;
  duplicates = λ w o d. refl;
  creates_texture = λ w d a b. refl;
  acquires = λ w d t. refl;
  queries_texture = λ w r. refl;
  releases_frame = λ w d. refl;
  copies = λ w c a b. refl;
  maps = λ w c a. refl;
  unmaps = λ w c a. refl;
  releases = λ w p h. omega (arith, h);
}

abbrev desk : Screen
desk = record { alive = 2; memory = [] }

abbrev capture : DxgiCapture
capture = record {
  device = some 3;
  device_context = some 4;
  adapter = some 2;
  factory = some 1;
  output1 = some 6;
  output = some 5;
  duplicator = some 7;
  texture = some 8;
  width = 2;
  height = 1;
  capture_timeout = 30;
}

abbrev capture-Ready : Ready capture
capture-Ready = record {
  duplicating = 7;
  context = 4;
  own = 8;
  has_duplicator = refl;
  has_context = refl;
  has_texture = refl;
  some_bytes = omega arith;
}

seen-MapsAll : MapsAll seen capture
seen-MapsAll w context own memory h = ground arith

get_frame-bottom_up_example :
    (ok : Bool) × (out' : List ℕ) × (w' : Screen) × (rows : List (List ℕ)) × (get_frame seen capture
        (5 ∷ [])
        desk
      ≡ some (ok, out', w'))
    × (bottom_up out' 2 1 ≡ some rows)
    × (upward rows ≡ out')
    × ((ok ≡ true) ⊎ (out' ≡ fit_data capture (5 ∷ [])))
    × (w'.alive ≡ 2)
get_frame-bottom_up_example =
    get_frame-bottom_up seen-LiveLaws capture (5 ∷ []) desk capture-Ready seen-MapsAll (omega arith)
