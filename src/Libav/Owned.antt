-- ===== src/Libav/Owned.antt =====
-- How many objects of libav are alive.
use friendviewer.Prelude.{ℕ, ◌+◌, ◌≤◌, ◌<◌, ◌≡◌, Option, none, some, List, arith}
use friendviewer.Libav.{
  Libav, ContextFields, delete_context, delete_scaler, delete_frame, delete_packet,
}

abbrev pub held : Option ℕ → ℕ
held none = 0
held (some h) = 1

-- An allocation that succeeds makes one object, a free ends one, and nothing else counts.
pub record LiveLaws (av : Libav) : Type 0 where
  pub live : av.World → ℕ
  pub allocs_context :
      (w : av.World) → live (av.alloc_context w).1 ≡ live w + held (av.alloc_context w).0
  pub allocs_scaler :
      (w : av.World) (x y : ℕ)
      → live (av.alloc_scaler w x y).1 ≡ live w + held (av.alloc_scaler w x y).0
  pub allocs_frame : (w : av.World) → live (av.alloc_frame w).1 ≡ live w + held (av.alloc_frame w).0
  pub allocs_packet :
      (w : av.World) → live (av.alloc_packet w).1 ≡ live w + held (av.alloc_packet w).0
  pub frees_context : (w : av.World) (h : ℕ) → 0 < live w → live (av.free_context w h) + 1 ≡ live w
  pub frees_scaler : (w : av.World) (h : ℕ) → 0 < live w → live (av.free_scaler w h) + 1 ≡ live w
  pub frees_frame : (w : av.World) (h : ℕ) → 0 < live w → live (av.free_frame w h) + 1 ≡ live w
  pub frees_packet : (w : av.World) (h : ℕ) → 0 < live w → live (av.free_packet w h) + 1 ≡ live w
  pub sets_context :
      (w : av.World) (h : ℕ) (f : ContextFields) → live (av.set_context w h f) ≡ live w
  pub sets_frame : (w : av.World) (h x y : ℕ) → live (av.set_frame w h x y) ≡ live w
  pub sets_pts : (w : av.World) (h n : ℕ) → live (av.set_pts w h n) ≡ live w
  pub sets_packet : (w : av.World) (h : ℕ) (b : List ℕ) → live (av.set_packet w h b) ≡ live w
  pub opens : (w : av.World) (h : ℕ) → live (av.open_codec w h).1 ≡ live w
  pub scales :
      (w : av.World) (s : ℕ) (rows : List (List ℕ)) (f : ℕ) → live (av.scale_in w s rows f) ≡ live w
  pub sends_frame : (w : av.World) (c f : ℕ) → live (av.send_frame w c f).1 ≡ live w
  pub receives_packet : (w : av.World) (c p : ℕ) → live (av.receive_packet w c p).1 ≡ live w
  pub sends_packet : (w : av.World) (c p : ℕ) → live (av.send_packet w c p).1 ≡ live w
  pub receives_frame : (w : av.World) (c f : ℕ) → live (av.receive_frame w c f).1 ≡ live w

module _ {av : Libav} (l : LiveLaws av) where
  pub live-delete_context :
      (p : Option ℕ) (w : av.World)
      → held p ≤ l.live w
      → l.live (delete_context av p w) + held p ≡ l.live w
  live-delete_context none w h = omega arith
  live-delete_context (some x) w h = l.frees_context w x h

  pub live-delete_scaler :
      (p : Option ℕ) (w : av.World)
      → held p ≤ l.live w
      → l.live (delete_scaler av p w) + held p ≡ l.live w
  live-delete_scaler none w h = omega arith
  live-delete_scaler (some x) w h = l.frees_scaler w x h

  pub live-delete_frame :
      (p : Option ℕ) (w : av.World)
      → held p ≤ l.live w
      → l.live (delete_frame av p w) + held p ≡ l.live w
  live-delete_frame none w h = omega arith
  live-delete_frame (some x) w h = l.frees_frame w x h

  pub live-delete_packet :
      (p : Option ℕ) (w : av.World)
      → held p ≤ l.live w
      → l.live (delete_packet av p w) + held p ≡ l.live w
  live-delete_packet none w h = omega arith
  live-delete_packet (some x) w h = l.frees_packet w x h
