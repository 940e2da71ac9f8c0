-- ===== src/DxgiCapture/Frame.antt =====
-- `get_frame` of dxgi_capture.cc on every path, and its frame in the hands of the encoder.
use friendviewer.Prelude.{
  ℕ, ◌≤◌, ◌<◌, ◌≡◌, ◌⊎◌, refl, ◌∙◌, inl, inr, Bool, true, false, Bool-cases, some, Option-cases,
  List, length, length-take, length-resize, take, ◌==◌, ==_iff, arith,
}
use friendviewer.DxgiCapture.{
  Dxgi, DxgiCapture, frame_size, fit_data, copy_out, copy_frame, get_frame,
}
use friendviewer.DxgiCapture.Owned.{LiveLaws}

length-fit_data : (c : DxgiCapture) (out : List ℕ) → length (fit_data c out) ≡ frame_size c
unfolding fit_data
length-fit_data c out = elim (Bool-cases (length out == frame_size c)) [
  | inl same ↦ ground (arith, ==_iff (length out) (frame_size c))
  | inr differs ↦ ground (arith, length-resize (frame_size c) 0 out)
]

-- A capture that can give frames: what `get_frame` uses is there, and a frame has a byte.
pub record Ready (c : DxgiCapture) : Type 0 where
  pub duplicating : ℕ
  pub context : ℕ
  pub own : ℕ
  pub has_duplicator : c.duplicator ≡ some duplicating
  pub has_context : c.device_context ≡ some context
  pub has_texture : c.texture ≡ some own
  pub some_bytes : 0 < frame_size c

-- The memory that a texture is mapped to has at least the bytes that are read from it.
abbrev pub MapsAll : (x : Dxgi) → DxgiCapture → Type 0
MapsAll x c =
    (w : x.World) (context own : ℕ) (memory : List ℕ)
    → (x.map_texture w context own).0 ≡ some memory
    → frame_size c ≤ length memory

module _ {x : Dxgi} (l : LiveLaws x) where
  -- The flag and the bytes for a call that ended: what was there, or what was mapped.
  abbrev pub Given : DxgiCapture → Bool → List ℕ → List ℕ → Type 0
  Given c ok out out' = (length out' ≡ frame_size c) × ((ok ≡ true) ⊎ (out' ≡ fit_data c out))

  copy_out_outcome :
      (context own : ℕ) (c : DxgiCapture) (out : List ℕ) (w : x.World)
      → MapsAll x c
      → 0 < frame_size c
      → length out ≡ frame_size c
      → (ok : Bool) × (out' : List ℕ) × (w' : x.World) × (copy_out x context own out w
          ≡ some (ok, out', w'))
        × (length out' ≡ frame_size c)
        × ((ok ≡ true) ⊎ (out' ≡ out))
        × (l.live w' ≡ l.live w)
  unfolding copy_out
  copy_out_outcome context own c out w maps low size =
      let a1 = l.maps w context own in
      let w1 = (x.map_texture w context own).1 in
      let a2 = l.unmaps w1 context own in
      elim (Option-cases (x.map_texture w context own).0) [
        | inl fails ↦ (false, out, w1, ground arith, size, inr refl, a1)
        | inr (memory, mapped) ↦
            let long = maps w context own memory mapped in
            (
              true,
              take (length out) memory,
              x.unmap_texture w1 context own,
              ground arith,
              ground (arith, length-take (length out) memory),
              inl refl,
              a2 ∙ a1,
            )
      ]

  copy_frame_outcome :
      (resource : ℕ) (c : DxgiCapture) (out : List ℕ) (w : x.World)
      → Ready c
      → MapsAll x c
      → length out ≡ frame_size c
      → (ok : Bool) × (out' : List ℕ) × (w' : x.World) × (copy_frame x resource c out w
          ≡ some (ok, out', w'))
        × (length out' ≡ frame_size c)
        × ((ok ≡ true) ⊎ (out' ≡ out))
        × (l.live w' ≡ l.live w)
  unfolding copy_frame
  copy_frame_outcome resource c out w r maps size =
      let a1 = l.queries_texture w resource in
      let w1 = (x.query_texture w resource).1 in
      elim (Option-cases (x.query_texture w resource).0) [
        | inl fails ↦ (false, out, w1, ground arith, size, inr refl, ground arith)
        | inr (t, got) ↦
            let w2 = x.copy_resource w1 r.context r.own t in
            let a2 = l.copies w1 r.context r.own t in
            let (ok, out', w3, same, sized, kept, a3) =
              copy_out_outcome r.context r.own c out w2 maps r.some_bytes size in
            let a4 = l.releases w3 t (ground arith) in
            (ok, out', x.release w3 t, ground arith, sized, kept, ground arith)
      ]

  -- With a ready capture, `get_frame` always returns, with four bytes for each pixel; where it
  -- returns false the vector is as it was, cut or filled up to that size; and it keeps no object of
  -- Windows, on any path.
  pub get_frame_outcome :
      (c : DxgiCapture) (out : List ℕ) (w : x.World)
      → Ready c
      → MapsAll x c
      → (ok : Bool) × (out' : List ℕ) × (w' : x.World) × (get_frame x c out w ≡ some (ok, out', w'))
        × Given c ok out out'
        × (l.live w' ≡ l.live w)
  unfolding get_frame
  get_frame_outcome c out w r maps =
      let w0 = x.release_frame w r.duplicating in
      let a0 = l.releases_frame w r.duplicating in
      let a1 = l.acquires w0 r.duplicating c.capture_timeout in
      let w1 = (x.acquire_next_frame w0 r.duplicating c.capture_timeout).1 in
      let size = length-fit_data c out in
      elim (Option-cases (x.acquire_next_frame w0 r.duplicating c.capture_timeout).0) [
        | inl fails ↦ (false, fit_data c out, w1, ground arith, (size, inr refl), ground arith)
        | inr (resource, got) ↦
            let (ok, out', w2, same, sized, kept, a2) =
              copy_frame_outcome resource c (fit_data c out) w1 r maps size in
            let a3 = l.releases w2 resource (ground arith) in
            (ok, out', x.release w2 resource, ground arith, (sized, kept), ground arith)
      ]
