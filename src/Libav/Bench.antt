-- ===== src/Libav/Bench.antt =====
-- A small libav for the examples: it gives the packets of a list, and takes any packet that is not
-- empty for one frame of grey pixels.
use friendviewer.Prelude.{
  ℕ, ◌+◌, ◌-◌, ◌*◌, ◌≡◌, refl, some, List, [], ◌∷◌, length, replicate, arith,
}
use friendviewer.Prelude.Words.{ℤ, pos, negsuc}
use friendviewer.Libav.{Libav}
use friendviewer.Libav.Owned.{LiveLaws}

pub record Bench : Type 0 where
  pub alive : ℕ
  pub packets : List (List ℕ)
  pub packet : List ℕ

abbrev pub next_packet : Bench → List (List ℕ) → ℤ × Bench
next_packet w [] = (negsuc 10, w)
next_packet w (p ∷ ps) = (pos 0, record w { packets = ps; packet = p })

abbrev pub sent_packet : Bench → List ℕ → ℤ × Bench
sent_packet w [] = (negsuc 540, w)
sent_packet w (b ∷ bs) = (pos 0, w)

abbrev pub bench : Libav
bench = record {
  World = Bench;
  alloc_context = λ w. (some w.alive, record w { alive = w.alive + 1 });
  alloc_scaler = λ w x y. (some w.alive, record w { alive = w.alive + 1 });
  alloc_frame = λ w. (some w.alive, record w { alive = w.alive + 1 });
  alloc_packet = λ w. (some w.alive, record w { alive = w.alive + 1 });
  free_context = λ w h. record w { alive = w.alive - 1 };
  free_scaler = λ w h. record w { alive = w.alive - 1 };
  free_frame = λ w h. record w { alive = w.alive - 1 };
  free_packet = λ w h. record w { alive = w.alive - 1 };
  set_context = λ w h f. w;
  set_frame = λ w h x y. w;
  set_pts = λ w h n. w;
  set_packet = λ w h b. record w { packet = b };
  open_codec = λ w h. (pos 0, w);
  scale_in = λ w s rows f. w;
  scale_out = λ w s f height stride. replicate (height * stride) 127;
  send_frame = λ w c f. (pos 0, w);
  receive_packet = λ w c p. next_packet w w.packets;
  packet_size = λ w p. length w.packet;
  packet_memory = λ w p. w.packet;
  send_packet = λ w c p. sent_packet w w.packet;
  receive_frame = λ w c f. (pos 0, w);
  averror_eagain = negsuc 10;
  averror_eof = negsuc 540;
}

pub next_packet-alive : (w : Bench) (ps : List (List ℕ)) → (next_packet w ps).1.alive ≡ w.alive
next_packet-alive w [] = refl
next_packet-alive w (p ∷ ps) = refl

pub sent_packet-alive : (w : Bench) (p : List ℕ) → (sent_packet w p).1.alive ≡ w.alive
sent_packet-alive w [] = refl
sent_packet-alive w (b ∷ bs) = refl

abbrev pub bench_live : LiveLaws bench
bench_live = record {
  live = λ w. w.alive;
  allocs_context = λ w. refl;
  allocs_scaler = λ w x y. refl;
  allocs_frame = λ w. refl;
  allocs_packet = λ w. refl;
  frees_context = λ w h p. omega (arith, p);
  frees_scaler = λ w h p. omega (arith, p);
  frees_frame = λ w h p. omega (arith, p);
  frees_packet = λ w h p. omega (arith, p);
  sets_context = λ w h f. refl;
  sets_frame = λ w h x y. refl;
  sets_pts = λ w h n. refl;
  sets_packet = λ w h b. refl;
  opens = λ w h. refl;
  scales = λ w s rows f. refl;
  sends_frame = λ w c f. refl;
  receives_packet = λ w c p. next_packet-alive w w.packets;
  sends_packet = λ w c p. sent_packet-alive w w.packet;
  receives_frame = λ w c f. refl;
}

-- Two packets; the first begins with two units of parameter sets.
abbrev pub quiet : Bench
quiet = record {
  alive = 3;
  packets =
      (0 ∷ 0 ∷ 0 ∷ 1 ∷ 103 ∷ 0 ∷ 0 ∷ 0 ∷ 1 ∷ 104 ∷ 0 ∷ 0 ∷ 1 ∷ 101 ∷ 9 ∷ [])
      ∷ (0 ∷ 0 ∷ 0 ∷ 1 ∷ 65 ∷ 8 ∷ [])
      ∷ [];
  packet = [];
}
