-- ===== src/DxgiCapture/Host.antt =====
-- The capture and the encoder in a round of `handle_encode`, which goes on when `get_frame` fails.
use friendviewer.Prelude.{ℕ, ◌*◌, ◌^◌, ◌<◌, ◌≡◌, ◌⊎◌, ◌∙◌, Bool, true, some, List, arith}
use friendviewer.DxgiCapture.{Dxgi, DxgiCapture, fit_data, get_frame}
use friendviewer.DxgiCapture.Owned.{LiveLaws}
use friendviewer.DxgiCapture.Frame.{Ready, MapsAll, get_frame_outcome}
use friendviewer.H264Encoder.{bottom_up}
use friendviewer.H264Encoder.Rows.{upward, bottom_up_whole}

module _ {x : Dxgi} (l : LiveLaws x) where
  -- With a ready capture whose frame has less than 2 ^ 31 bytes, textures that are mapped to at
  -- least as many, calls of Windows that count their objects, and any vector from before:
  -- `get_frame` returns, and keeps no object of Windows; where it returns false the vector is as it
  -- was, cut or filled up to four bytes for each pixel; and either way an encoder of the same size
  -- reads no byte behind the vector, and reads all of it.
  pub get_frame-bottom_up :
      (c : DxgiCapture) (out : List ℕ) (w : x.World)
      → Ready c
      → MapsAll x c
      → c.width * c.height * 4 < 2 ^ 31
      → (ok : Bool) × (out' : List ℕ) × (w' : x.World) × (rows : List (List ℕ)) × (get_frame x c out
            w
          ≡ some (ok, out', w'))
        × (bottom_up out' c.width c.height ≡ some rows)
        × (upward rows ≡ out')
        × ((ok ≡ true) ⊎ (out' ≡ fit_data c out))
        × (l.live w' ≡ l.live w)
  get_frame-bottom_up c out w r maps fits =
      let (ok, out', w', same, (size, kept), live) = get_frame_outcome l c out w r maps in
      let (rows, read, whole) =
        bottom_up_whole out' c.width c.height (size ∙ omega arith)
          (let low = r.some_bytes in omega (arith, low)) fits in
      (ok, out', w', rows, same, read, whole, kept, live)
