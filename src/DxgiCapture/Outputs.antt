-- ===== src/DxgiCapture/Outputs.antt =====
-- The loop of `init` over the outputs of the adapter.
use friendviewer.Prelude.{ℕ, suc, ◌+◌, ◌≡◌, ap, ◌∙◌, some, arith}
use friendviewer.DxgiCapture.{
  Dxgi, DxgiCapture, found, com_deleter, enum_outputs, init_found, init_output1, init_device,
}

module _ (x : Dxgi) where
  -- When output 0 is there, the loop ends in its first round, and `init` goes on with that output.
  pub init_device_first :
      (fuel adapter : ℕ) (c : DxgiCapture) (w : x.World) (device context output : ℕ)
      → (x.create_device w adapter).0 ≡ some (device, context)
      → let w1 =
          com_deleter x c.device_context (com_deleter x c.device (x.create_device w adapter).1) in
        (x.enum_outputs w1 adapter 0).0 ≡ found output
        → init_device x (fuel + 1) adapter c w
          ≡ some (
              init_output1 x device output
                (record c {
                  device = some device;
                  device_context = some context;
                  output = some output;
                })
                (com_deleter x c.output (x.enum_outputs w1 adapter 0).1))
  unfolding init_device enum_outputs init_found
  init_device_first fuel adapter c w device context output h k =
      let more : fuel + 1 ≡ suc fuel = omega arith in
      ap (λ n. init_device x n adapter c w) more ∙ ground arith
