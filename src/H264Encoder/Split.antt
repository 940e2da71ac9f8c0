-- ===== src/H264Encoder/Split.antt =====
-- Where the encoder's bytes go: the first two units to `pps_sps_`, all else to the packets.
use friendviewer.Prelude.{
  ℕ, zero, suc, ◌+◌, ◌≤◌, ◌≡◌, ◌⊎◌, inl, inr, refl, sym, ◌∙◌, ap, false, Bool-cases, some,
  Option-cases, List, [], ◌∷◌, ◌++◌, ◌==◌, ==_iff, leb, take, drop, append-nil, take-append-drop,
  arith,
}
use friendviewer.Prelude.Words.{ℤ, pos}
use friendviewer.Prelude.Faults.{>>=-eq-some}
use friendviewer.Libav.{Libav, is_ok}
use friendviewer.H264Encoder.{
  H264Encoder, seek_nalu, take_packet, receive, send_and_receive, encode_frame, bottom_up,
}

take-take : (k n : ℕ) (l : List ℕ) → k ≤ n → take k (take n l) ≡ take k l
take-take zero n l h = refl
take-take (suc k) zero l h = absurd (omega arith)
take-take (suc k) (suc n) [] h = refl
take-take (suc k) (suc n) (x ∷ l) h = ap (◌∷◌ x) (take-take k n l (omega arith))

module _ (av : Libav) where
  -- The packet's bytes, and how they are divided.
  pub record Divides (bytes out out' : List ℕ) (e e' : H264Encoder) : Type 0 where
    pub head : List ℕ
    pub tail : List ℕ
    pub whole : head ++ tail ≡ bytes
    pub to_pps_sps : e'.pps_sps ≡ e.pps_sps ++ head
    pub to_packet : out' ≡ out ++ tail
    pub counted : e'.pts ≡ e.pts + 1
    pub later_whole : (e.pts ≡ 0) ⊎ (head ≡ [])

  pub take_packet-Divides :
      (size : ℕ) (memory : List ℕ) (e e' : H264Encoder) (out out' : List ℕ)
      → take_packet av size memory e out ≡ some (e', out')
      → Divides (take size memory) out out' e e'
  unfolding take_packet
  take_packet-Divides size memory e e' out out' h = elim (Bool-cases (e.pts == 0)) [
    | inr later ↦ record {
      head = [];
      tail = take size memory;
      whole = refl;
      to_pps_sps = ground (arith, append-nil e.pps_sps);
      to_packet = ground arith;
      counted = ground arith;
      later_whole = inr refl;
    }
    | inl first ↦ elim (Option-cases (seek_nalu memory 2)) [
      | inl lost ↦ absurd (ground arith)
      | inr (k, found) ↦ elim (Bool-cases (leb k size)) [
        | inr beyond ↦ absurd (ground arith)
        | inl within ↦ record {
          head = take k memory;
          tail = drop k (take size memory);
          whole =
              ap (λ l. l ++ drop k (take size memory))
                (sym (take-take k size memory (ground arith)))
              ∙ take-append-drop k (take size memory);
          to_pps_sps = ground arith;
          to_packet = ground arith;
          counted = ground arith;
          later_whole = inl ((==_iff _ _).0 first);
        }
      ]
    ]
  ]

  -- What a call of `encode_frame` that ends has done.
  abbrev pub Failed : ℤ → H264Encoder → H264Encoder → List ℕ → List ℕ → Type 0
  Failed status e e' out out' = (is_ok status ≡ false) × (e' ≡ e) × (out' ≡ out)

  abbrev pub Received : ℤ → H264Encoder → H264Encoder → List ℕ → List ℕ → av.World → Type 0
  Received status e e' out out' w' =
      (packet : ℕ) × (status ≡ pos 0)
      × (e.packet_buffer ≡ some packet)
      × (take_packet av (av.packet_size w' packet) (av.packet_memory w' packet) e out
          ≡ some (e', out'))

  receive_cases :
      (context packet : ℕ) (e e' : H264Encoder) (out out' : List ℕ) (w w' : av.World) (status : ℤ)
      → e.packet_buffer ≡ some packet
      → receive av context packet e out w ≡ some (status, e', out', w')
      → Failed status e e' out out' ⊎ Received status e e' out out' w'
  unfolding receive
  receive_cases context packet e e' out out' w w' status p h =
      let w1 = (av.receive_packet w context packet).1 in
      elim (Bool-cases (is_ok (av.receive_packet w context packet).0)) [
        | inr fails ↦ inl (ground arith, ground arith, ground arith)
        | inl done ↦
            elim (Option-cases
              (take_packet av (av.packet_size w1 packet) (av.packet_memory w1 packet) e out)) [
                | inl lost ↦ absurd (ground arith)
                | inr ((e1, out1), taken) ↦ inr (packet, ground arith, p, ground arith)
              ]
      ]

  send_and_receive_cases :
      (context frame : ℕ) (e e' : H264Encoder) (out out' : List ℕ) (w w' : av.World) (status : ℤ)
      → send_and_receive av context frame e out w ≡ some (status, e', out', w')
      → Failed status e e' out out' ⊎ Received status e e' out out' w'
  unfolding send_and_receive
  send_and_receive_cases context frame e e' out out' w w' status h =
      elim (Bool-cases (is_ok (av.send_frame w context frame).0)) [
        | inr fails ↦ inl (ground arith, ground arith, ground arith)
        | inl done ↦ elim (Option-cases e.packet_buffer) [
          | inl null ↦ absurd (ground arith)
          | inr (packet, p) ↦
              receive_cases context packet e e' out out' (av.send_frame w context frame).1 w' status
                p (ground arith)
        ]
      ]

  pub encode_frame_cases :
      (frame_in : List ℕ) (e e' : H264Encoder) (out out' : List ℕ) (w w' : av.World) (status : ℤ)
      → encode_frame av frame_in e out w ≡ some (status, e', out', w')
      → Failed status e e' out out' ⊎ Received status e e' out out' w'
  unfolding encode_frame
  encode_frame_cases frame_in e e' out out' w w' status h =
      let (scaler, _, h1) = >>=-eq-some e.sws_context _ h in
      let (frame, _, h2) = >>=-eq-some e.frame_buffer _ h1 in
      let (context, _, h3) = >>=-eq-some e.encoder_context _ h2 in
      let (rows, _, h4) = >>=-eq-some (bottom_up frame_in e.params.width e.params.height) _ h3 in
      send_and_receive_cases context frame e e' out out' _ w' status h4
