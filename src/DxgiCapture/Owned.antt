-- ===== src/DxgiCapture/Owned.antt =====
-- The smart pointers of dxgi_capture.cc own the objects of Windows: none is leaked, and none is
-- released twice.
use friendviewer.Prelude.{
  ℕ, zero, suc, ◌+◌, ◌≤◌, ◌<◌, ◌≡◌, ◌⊎◌, refl, inl, inr, Bool, Option, none, some, Option-cases,
  arith,
}
use friendviewer.DxgiCapture.{
  Dxgi, DxgiCapture, OutputAnswer, not_found, failed, found, com_deleter, init_texture,
  init_duplicator, init_output1, enum_outputs, init_found, init_device, init_adapter, init,
}

abbrev pub held : Option ℕ → ℕ
held none = 0
held (some p) = 1

abbrev pub held_output : OutputAnswer → ℕ
held_output not_found = 0
held_output failed = 0
held_output (found o) = 1

abbrev pub held_device : Option (ℕ × ℕ) → ℕ
held_device none = 0
held_device (some p) = 2

-- How many objects the capture holds.
abbrev pub owned : DxgiCapture → ℕ
owned c =
    held c.device
    + held c.device_context
    + held c.adapter
    + held c.factory
    + held c.output1
    + held c.output
    + held c.duplicator
    + held c.texture

-- A call that gives an object counts it, a release ends one, and nothing else counts.
pub record LiveLaws (x : Dxgi) : Type 0 where
  pub live : x.World → ℕ
  pub initializes : (w : x.World) → live (x.co_initialize w) ≡ live w
  pub creates_factory :
      (w : x.World) → live (x.create_factory w).1 ≡ live w + held (x.create_factory w).0
  pub enums_adapters :
      (w : x.World) (f i : ℕ)
      → live (x.enum_adapters w f i).1 ≡ live w + held (x.enum_adapters w f i).0
  pub creates_device :
      (w : x.World) (a : ℕ)
      → live (x.create_device w a).1 ≡ live w + held_device (x.create_device w a).0
  pub enums_outputs :
      (w : x.World) (a i : ℕ)
      → live (x.enum_outputs w a i).1 ≡ live w + held_output (x.enum_outputs w a i).0
  pub queries_output1 :
      (w : x.World) (o : ℕ) → live (x.query_output1 w o).1 ≡ live w + held (x.query_output1 w o).0
  pub duplicates :
      (w : x.World) (o d : ℕ)
      → live (x.duplicate_output w o d).1 ≡ live w + held (x.duplicate_output w o d).0
  pub creates_texture :
      (w : x.World) (d a b : ℕ)
      → live (x.create_texture w d a b).1 ≡ live w + held (x.create_texture w d a b).0
  pub acquires :
      (w : x.World) (d t : ℕ)
      → live (x.acquire_next_frame w d t).1 ≡ live w + held (x.acquire_next_frame w d t).0
  pub queries_texture :
      (w : x.World) (r : ℕ) → live (x.query_texture w r).1 ≡ live w + held (x.query_texture w r).0
  pub releases_frame : (w : x.World) (d : ℕ) → live (x.release_frame w d) ≡ live w
  pub copies : (w : x.World) (c a b : ℕ) → live (x.copy_resource w c a b) ≡ live w
  pub maps : (w : x.World) (c a : ℕ) → live (x.map_texture w c a).1 ≡ live w
  pub unmaps : (w : x.World) (c a : ℕ) → live (x.unmap_texture w c a) ≡ live w
  pub releases : (w : x.World) (p : ℕ) → 0 < live w → live (x.release w p) + 1 ≡ live w

output_answer_cases :
    (a : OutputAnswer) → (a ≡ not_found) ⊎ ((a ≡ failed) ⊎ ((o : ℕ) × (a ≡ found o)))
output_answer_cases not_found = inl refl
output_answer_cases failed = inr (inl refl)
output_answer_cases (found o) = inr (inr (o, refl))

module _ {x : Dxgi} (l : LiveLaws x) where
  live-com_deleter :
      (p : Option ℕ) (w : x.World)
      → held p ≤ l.live w
      → l.live (com_deleter x p w) + held p ≡ l.live w
  live-com_deleter none w h = omega arith
  live-com_deleter (some p) w h = l.releases w p h

  abbrev Keeps : ℕ → Bool × DxgiCapture × x.World → Type 0
  Keeps others r = l.live r.2 ≡ others + owned r.1

  init_texture-owned :
      (others device : ℕ) (c : DxgiCapture) (w : x.World)
      → l.live w ≡ others + owned c
      → Keeps others (init_texture x device c w)
  unfolding init_texture
  init_texture-owned others device c w h =
      let a1 = l.creates_texture w device c.width c.height in
      let w1 = (x.create_texture w device c.width c.height).1 in
      let a2 = live-com_deleter c.texture w1 (omega arith) in
      elim (Option-cases (x.create_texture w device c.width c.height).0) [
        | inl fails ↦ ground arith
        | inr (t, made) ↦ ground arith
      ]

  init_duplicator-owned :
      (others device output1 : ℕ) (c : DxgiCapture) (w : x.World)
      → l.live w ≡ others + owned c
      → Keeps others (init_duplicator x device output1 c w)
  unfolding init_duplicator
  init_duplicator-owned others device output1 c w h =
      let a1 = l.duplicates w output1 device in
      let w1 = (x.duplicate_output w output1 device).1 in
      let a2 = live-com_deleter c.duplicator w1 (omega arith) in
      elim (Option-cases (x.duplicate_output w output1 device).0) [
        | inl fails ↦ ground arith
        | inr (d, made) ↦
            let next =
              init_texture-owned others device (record c { duplicator = some d })
                (com_deleter x c.duplicator w1) (ground arith) in
            ground arith
      ]

  init_output1-owned :
      (others device output : ℕ) (c : DxgiCapture) (w : x.World)
      → l.live w ≡ others + owned c
      → Keeps others (init_output1 x device output c w)
  unfolding init_output1
  init_output1-owned others device output c w h =
      let a1 = l.queries_output1 w output in
      let w1 = (x.query_output1 w output).1 in
      let a2 = live-com_deleter c.output1 w1 (omega arith) in
      elim (Option-cases (x.query_output1 w output).0) [
        | inl fails ↦ ground arith
        | inr (o, made) ↦
            let next =
              init_duplicator-owned others device o (record c { output1 = some o })
                (com_deleter x c.output1 w1) (ground arith) in
            ground arith
      ]

  enum_outputs-live :
      (fuel adapter i : ℕ) (w w' : x.World) (answer : OutputAnswer)
      → enum_outputs x fuel adapter i w ≡ some (answer, w')
      → l.live w' ≡ l.live w + held_output answer
  unfolding enum_outputs
  enum_outputs-live zero adapter i w w' answer h = absurd (ground arith)
  enum_outputs-live (suc n) adapter i w w' answer h =
      let a = l.enums_outputs w adapter i in
      let w1 = (x.enum_outputs w adapter i).1 in
      elim (output_answer_cases (x.enum_outputs w adapter i).0) [
        | inl missing ↦
            let rest = enum_outputs-live n adapter (i + 1) w1 w' answer (ground arith) in
            ground arith
        | inr there ↦ ground arith
      ]

  init_found-owned :
      (others device : ℕ) (answer : OutputAnswer) (c : DxgiCapture) (w : x.World)
      (r : Bool × DxgiCapture × x.World)
      → l.live w ≡ others + owned c + held_output answer
      → init_found x device answer c w ≡ some r
      → Keeps others r
  unfolding init_found
  init_found-owned others device not_found c w r h s = absurd (ground arith)
  init_found-owned others device failed c w r h s = absurd (ground arith)
  init_found-owned others device (found o) c w r h s =
      let a = live-com_deleter c.output w (omega arith) in
      let next =
        init_output1-owned others device o (record c { output = some o }) (com_deleter x c.output w)
          (omega arith) in
      ground arith

  init_device-owned :
      (others fuel adapter : ℕ) (c : DxgiCapture) (w : x.World) (r : Bool × DxgiCapture × x.World)
      → l.live w ≡ others + owned c
      → init_device x fuel adapter c w ≡ some r
      → Keeps others r
  unfolding init_device
  init_device-owned others fuel adapter c w r h s =
      let a1 = l.creates_device w adapter in
      let w1 = (x.create_device w adapter).1 in
      let w2 = com_deleter x c.device w1 in
      let a2 = live-com_deleter c.device w1 (omega arith) in
      let w3 = com_deleter x c.device_context w2 in
      let a3 = live-com_deleter c.device_context w2 (omega arith) in
      elim (Option-cases (x.create_device w adapter).0) [
        | inl fails ↦ ground arith
        | inr ((device, context), made) ↦ elim (Option-cases (enum_outputs x fuel adapter 0 w3)) [
          | inl hangs ↦ absurd (ground arith)
          | inr ((answer, w4), ends) ↦
              let a4 = enum_outputs-live fuel adapter 0 w3 w4 answer ends in
              init_found-owned others device answer
                (record c { device = some device; device_context = some context }) w4 r
                (ground arith) (ground arith)
        ]
      ]

  init_adapter-owned :
      (others fuel factory : ℕ) (c : DxgiCapture) (w : x.World) (r : Bool × DxgiCapture × x.World)
      → l.live w ≡ others + owned c
      → init_adapter x fuel factory c w ≡ some r
      → Keeps others r
  unfolding init_adapter
  init_adapter-owned others fuel factory c w r h s =
      let a1 = l.enums_adapters w factory 0 in
      let w1 = (x.enum_adapters w factory 0).1 in
      let a2 = live-com_deleter c.adapter w1 (omega arith) in
      elim (Option-cases (x.enum_adapters w factory 0).0) [
        | inl fails ↦ ground arith
        | inr (a, made) ↦
            init_device-owned others fuel a (record c { adapter = some a })
              (com_deleter x c.adapter w1) r (ground arith) (ground arith)
      ]

  -- When the live objects of Windows are those of others and those of the capture, then so they are
  -- after `init`, on every path, with the objects that the capture holds then.
  pub init-owned :
      (others fuel width height capture_timeout : ℕ) (c c' : DxgiCapture) (w w' : x.World)
      (ok : Bool)
      → l.live w ≡ others + owned c
      → init x fuel width height capture_timeout c w ≡ some (ok, c', w')
      → l.live w' ≡ others + owned c'
  unfolding init
  init-owned others fuel width height capture_timeout c c' w w' ok h s =
      let a0 = l.initializes w in
      let w0 = x.co_initialize w in
      let a1 = l.creates_factory w0 in
      let w1 = (x.create_factory w0).1 in
      let a2 = live-com_deleter c.factory w1 (omega arith) in
      let c1 = record c { capture_timeout = capture_timeout; width = width; height = height } in
      elim (Option-cases (x.create_factory w0).0) [
        | inl fails ↦ ground arith
        | inr (f, made) ↦
            init_adapter-owned others fuel f (record c1 { factory = some f })
              (com_deleter x c.factory w1) (ok, c', w') (ground arith) (ground arith)
      ]
