-- ===== src/Libav.antt =====
-- The functions of libav that prototype/daemon/decoder calls, as a parameter, and the smart pointers
-- that hold its objects. An object is a number, and a null pointer is `none`.
pub mod Owned
pub mod Bench
use friendviewer.Prelude.{ℕ, Bool, true, false, Option, none, some, List, ◌==◌}
use friendviewer.Prelude.Words.{ℤ, pos, negsuc}

-- The fields of a codec context that `init` writes, without those that are the same constant in each
-- call (the codec and the format of the pixels). `tuned` stands for the option `zerolatency`.
pub record ContextFields : Type 0 where
  pub width : ℕ
  pub height : ℕ
  pub bit_rate : ℕ
  pub time_base : ℕ × ℕ
  pub framerate : ℕ × ℕ
  pub gop_size : Option ℕ
  pub max_b_frames : Option ℕ
  pub tuned : Bool

-- A status is the `int` that libav returns. `scale_in` fills a frame from rows of pixels, and
-- `scale_out` gives the bytes that a frame is written out as, at a height and a stride.
pub record Libav : Type 1 where
  pub World : Type 0
  pub alloc_context : World → Option ℕ × World
  pub alloc_scaler : World → ℕ → ℕ → Option ℕ × World
  pub alloc_frame : World → Option ℕ × World
  pub alloc_packet : World → Option ℕ × World
  pub free_context : World → ℕ → World
  pub free_scaler : World → ℕ → World
  pub free_frame : World → ℕ → World
  pub free_packet : World → ℕ → World
  pub set_context : World → ℕ → ContextFields → World
  pub set_frame : World → ℕ → ℕ → ℕ → World
  pub set_pts : World → ℕ → ℕ → World
  pub set_packet : World → ℕ → List ℕ → World
  pub open_codec : World → ℕ → ℤ × World
  pub scale_in : World → ℕ → List (List ℕ) → ℕ → World
  pub scale_out : World → ℕ → ℕ → ℕ → ℕ → List ℕ
  pub send_frame : World → ℕ → ℕ → ℤ × World
  pub receive_packet : World → ℕ → ℕ → ℤ × World
  pub packet_size : World → ℕ → ℕ
  pub packet_memory : World → ℕ → List ℕ
  pub send_packet : World → ℕ → ℕ → ℤ × World
  pub receive_frame : World → ℕ → ℕ → ℤ × World
  pub averror_eagain : ℤ
  pub averror_eof : ℤ

-- The deleters: a null pointer is left alone. An assignment frees what the pointer held, after the
-- new object was made.
module _ (av : Libav) where
  abbrev pub delete_context : Option ℕ → av.World → av.World
  delete_context none w = w
  delete_context (some h) w = av.free_context w h

  abbrev pub delete_scaler : Option ℕ → av.World → av.World
  delete_scaler none w = w
  delete_scaler (some h) w = av.free_scaler w h

  abbrev pub delete_frame : Option ℕ → av.World → av.World
  delete_frame none w = w
  delete_frame (some h) w = av.free_frame w h

  abbrev pub delete_packet : Option ℕ → av.World → av.World
  delete_packet none w = w
  delete_packet (some h) w = av.free_packet w h

-- `if (status)` and `ret < 0`.
abbrev pub is_ok : ℤ → Bool
is_ok (pos n) = n == 0
is_ok (negsuc n) = false

abbrev pub is_error : ℤ → Bool
is_error (pos n) = false
is_error (negsuc n) = true
