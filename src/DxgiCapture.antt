-- ===== src/DxgiCapture.antt =====
-- prototype/daemon/capture/dxgi_capture.{hh,cc}: the screen as bytes, through DXGI and Direct3D. An
-- object is a number, and a null pointer is `none`.
pub mod Outputs
pub mod Owned
pub mod Frame
pub mod Host
pub mod Runs
use friendviewer.Prelude.{
  ℕ, zero, suc, ◌+◌, ◌*◌, ◌%◌, ◌^◌, Bool, true, false, Option, none, some, List, [], ◌∷◌, ◌==◌, ltb,
  leb, length, take, resize, if◌then◌else◌,
}
use friendviewer.Prelude.Faults.{◌>>=◌, ◌>>◌, guard}

-- What `EnumOutputs` says: `not_found` is DXGI_ERROR_NOT_FOUND, and `failed` is any other failure.
pub data OutputAnswer : Type 0 where
  not_found : OutputAnswer
  failed : OutputAnswer
  found : ℕ → OutputAnswer

-- The functions of Windows that the capture calls, as a parameter. `none` is a failed call.
pub record Dxgi : Type 1 where
  pub World : Type 0
  pub co_initialize : World → World
  pub create_factory : World → Option ℕ × World
  pub enum_adapters : World → ℕ → ℕ → Option ℕ × World
  pub create_device : World → ℕ → Option (ℕ × ℕ) × World
  pub enum_outputs : World → ℕ → ℕ → OutputAnswer × World
  pub query_output1 : World → ℕ → Option ℕ × World
  pub duplicate_output : World → ℕ → ℕ → Option ℕ × World
  pub create_texture : World → ℕ → ℕ → ℕ → Option ℕ × World
  pub release_frame : World → ℕ → World
  pub acquire_next_frame : World → ℕ → ℕ → Option ℕ × World
  pub query_texture : World → ℕ → Option ℕ × World
  pub copy_resource : World → ℕ → ℕ → ℕ → World
  pub map_texture : World → ℕ → ℕ → Option (List ℕ) × World
  pub unmap_texture : World → ℕ → ℕ → World
  pub release : World → ℕ → World

pub record DxgiCapture : Type 0 where
  pub device : Option ℕ
  pub device_context : Option ℕ
  pub adapter : Option ℕ
  pub factory : Option ℕ
  pub output1 : Option ℕ
  pub output : Option ℕ
  pub duplicator : Option ℕ
  pub texture : Option ℕ
  pub width : ℕ
  pub height : ℕ
  pub capture_timeout : ℕ

-- The constructor, which leaves `capture_timeout_` unset.
abbrev pub initial : DxgiCapture
initial = record {
  device = none;
  device_context = none;
  adapter = none;
  factory = none;
  output1 = none;
  output = none;
  duplicator = none;
  texture = none;
  width = 0;
  height = 0;
  capture_timeout = 0;
}

-- `width_ * height_ * bytes_per_pixel_`, of 32-bit numbers.
abbrev pub frame_size : DxgiCapture → ℕ
frame_size c = (c.width * c.height * 4) % 2 ^ 32

-- The test and the `resize` of `data_out`.
unfoldable pub fit_data : DxgiCapture → List ℕ → List ℕ
fit_data c data_out =
    if length data_out == frame_size c then data_out else resize (frame_size c) 0 data_out

module _ (x : Dxgi) where
  abbrev pub com_deleter : Option ℕ → x.World → x.World
  com_deleter none w = w
  com_deleter (some p) w = x.release w p

  abbrev Answer : Type 0
  Answer = Bool × DxgiCapture × x.World

  -- The rest of `init`, one step for each object that it gets.
  unfoldable pub init_texture : ℕ → DxgiCapture → x.World → Answer
  init_texture device c w =
      let (texture, w1) = x.create_texture w device c.width c.height in
      elim texture [
        | none ↦ (false, c, w1)
        | some t ↦ (true, record c { texture = some t }, com_deleter c.texture w1)
      ]

  unfoldable pub init_duplicator : ℕ → ℕ → DxgiCapture → x.World → Answer
  init_duplicator device output1 c w =
      let (duplicator, w1) = x.duplicate_output w output1 device in
      elim duplicator [
        | none ↦ (false, c, w1)
        | some d ↦
            init_texture device (record c { duplicator = some d }) (com_deleter c.duplicator w1)
      ]

  unfoldable pub init_output1 : ℕ → ℕ → DxgiCapture → x.World → Answer
  init_output1 device output c w =
      let (output1, w1) = x.query_output1 w output in
      elim output1 [
        | none ↦ (false, c, w1)
        | some o ↦
            init_duplicator device o (record c { output1 = some o }) (com_deleter c.output1 w1)
      ]

  -- The loop over the outputs, from number `i` on, on fuel. `i` is an `int`: `none` where it
  -- overflows.
  unfoldable pub enum_outputs : ℕ → ℕ → ℕ → x.World → Option (OutputAnswer × x.World)
  enum_outputs zero adapter i w = none
  enum_outputs (suc fuel) adapter i w =
      let (answer, w1) = x.enum_outputs w adapter i in
      let rest = enum_outputs fuel adapter (i + 1) w1 in
      elim answer [
        | not_found ↦ if ltb (i + 1) (2 ^ 31) then rest else none
        | failed ↦ some (failed, w1)
        | found o ↦ some (found o, w1)
      ]

  -- What was found: after another failure the pointer was never set, and there is no answer.
  unfoldable pub init_found : ℕ → OutputAnswer → DxgiCapture → x.World → Option Answer
  init_found device not_found c w = none
  init_found device failed c w = none
  init_found device (found o) c w =
      some (init_output1 device o (record c { output = some o }) (com_deleter c.output w))

  unfoldable pub init_device : ℕ → ℕ → DxgiCapture → x.World → Option Answer
  init_device fuel adapter c w =
      let (made, w1) = x.create_device w adapter in
      elim made [
        | none ↦ some (false, c, w1)
        | some (device, context) ↦ do
          (answer, w2) ←
              enum_outputs fuel adapter 0 (com_deleter c.device_context (com_deleter c.device w1))
          init_found device answer
              (record c { device = some device; device_context = some context }) w2
      ]

  unfoldable pub init_adapter : ℕ → ℕ → DxgiCapture → x.World → Option Answer
  init_adapter fuel factory c w =
      let (adapter, w1) = x.enum_adapters w factory 0 in
      elim adapter [
        | none ↦ some (false, c, w1)
        | some a ↦ init_device fuel a (record c { adapter = some a }) (com_deleter c.adapter w1)
      ]

  unfoldable pub init : ℕ → ℕ → ℕ → ℕ → DxgiCapture → x.World → Option Answer
  init fuel width height capture_timeout c w =
      let c1 = record c { capture_timeout = capture_timeout; width = width; height = height } in
      let (factory, w1) = x.create_factory (x.co_initialize w) in
      elim factory [
        | none ↦ some (false, c1, w1)
        | some f ↦ init_adapter fuel f (record c1 { factory = some f }) (com_deleter c.factory w1)
      ]

  -- From `Map` on: the bytes of the texture are read as one block. `none` is a read
  -- behind it, or an empty vector, which has no first byte.
  unfoldable pub copy_out : ℕ → ℕ → List ℕ → x.World → Option (Bool × List ℕ × x.World)
  copy_out context own data_out w =
      let (mapped, w1) = x.map_texture w context own in
      elim mapped [
        | none ↦ some (false, data_out, w1)
        | some memory ↦ do
          guard (ltb 0 (length data_out))
          guard (leb (length data_out) (length memory))
          some (true, take (length data_out) memory, x.unmap_texture w1 context own)
      ]

  -- From `QueryInterface` on. The texture is released where `get_frame` ends.
  unfoldable pub copy_frame : ℕ → DxgiCapture → List ℕ → x.World → Option (Bool × List ℕ × x.World)
  copy_frame resource c data_out w =
      let (texture, w1) = x.query_texture w resource in
      elim texture [
        | none ↦ some (false, data_out, w1)
        | some t ↦ do
          context ← c.device_context
          own ← c.texture
          (ok, bytes, w2) ← copy_out context own data_out (x.copy_resource w1 context own t)
          some (ok, bytes, x.release w2 t)
      ]

  unfoldable pub get_frame : DxgiCapture → List ℕ → x.World → Option (Bool × List ℕ × x.World)
  get_frame c data_out w = do
    duplicator ← c.duplicator
    let (acquired, w1) =
        x.acquire_next_frame (x.release_frame w duplicator) duplicator c.capture_timeout
    elim acquired [
      | none ↦ some (false, fit_data c data_out, w1)
      | some resource ↦ do
        (ok, bytes, w2) ← copy_frame resource c (fit_data c data_out) w1
        some (ok, bytes, x.release w2 resource)
    ]
