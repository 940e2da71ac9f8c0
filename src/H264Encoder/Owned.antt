-- ===== src/H264Encoder/Owned.antt =====
-- The smart pointers of h264_encoder.cc own libav's objects: none is leaked, and none is freed twice.
use friendviewer.Prelude.{
  inl, inr, ◌==◌, leb, ℕ, ◌+◌, ◌≡◌, refl, ◌∙◌, ap, Bool, Bool-cases, Option, none, some,
  Option-cases, List, [], ◌∷◌, arith,
}
use friendviewer.Prelude.Words.{ℤ}
use friendviewer.Prelude.Faults.{>>=-eq-some}
use friendviewer.Libav.{Libav, delete_context, delete_scaler, delete_frame, is_ok}
use friendviewer.Libav.Owned.{
  held, LiveLaws, live-delete_context, live-delete_scaler, live-delete_frame, live-delete_packet,
}
use friendviewer.H264Encoder.{
  H264Encoder, H264Params, seek_nalu, fields_of, init_buffers, init_context, init, receive,
  take_packet, send_and_receive, encode_frame, bottom_up, shutdown,
}
use friendviewer.H264Encoder.Host.{encode_rounds, encode_rounds_cons}
use friendviewer.Daemon.Threads.{Encoded}

-- How many objects the encoder holds.
abbrev pub owned : H264Encoder → ℕ
owned e = held e.encoder_context + held e.sws_context + held e.frame_buffer + held e.packet_buffer

module _ {av : Libav} (l : LiveLaws av) where
  init_buffers-owned :
      (others : ℕ) (e e' : H264Encoder) (w w' : av.World) (ok : Bool)
      → l.live w ≡ others + owned e
      → init_buffers av e w ≡ some (ok, e', w')
      → l.live w' ≡ others + owned e'
  unfolding init_buffers
  init_buffers-owned others e e' w w' ok h s =
      let w1 = (av.alloc_scaler w e.params.width e.params.height).1 in
      let a1 = l.allocs_scaler w e.params.width e.params.height in
      let w2 = delete_scaler av e.sws_context w1 in
      let a2 = live-delete_scaler l e.sws_context w1 (omega arith) in
      let w3 = (av.alloc_frame w2).1 in
      let a3 = l.allocs_frame w2 in
      let w4 = delete_frame av e.frame_buffer w3 in
      let a4 = live-delete_frame l e.frame_buffer w3 (omega arith) in
      let (f, got, s2) = >>=-eq-some (av.alloc_frame w2).0 _ s in
      let w5 = av.set_frame w4 f e.params.width e.params.height in
      let a5 = l.sets_frame w4 f e.params.width e.params.height in
      let w6 = (av.alloc_packet w5).1 in
      let a6 = l.allocs_packet w5 in
      let a7 = live-delete_packet l e.packet_buffer w6 (omega arith) in ground arith

  init_context-owned :
      (others : ℕ) (context : Option ℕ) (e e' : H264Encoder) (w w' : av.World) (ok : Bool)
      → l.live w ≡ others + owned e
      → init_context av context e w ≡ some (ok, e', w')
      → l.live w' ≡ others + owned e'
  unfolding init_context
  init_context-owned others none e e' w w' ok h s = ground arith
  init_context-owned others (some c) e e' w w' ok h s =
      let w0 = av.set_context w c (fields_of e.params) in
      let w1 = (av.open_codec w0 c).1 in
      let a0 = l.sets_context w c (fields_of e.params) in
      let a1 = l.opens w0 c in
      elim (Bool-cases (is_ok (av.open_codec w0 c).0)) [
        | inr fails ↦ ground arith
        | inl opened ↦ init_buffers-owned others e e' w1 w' ok (a1 ∙ a0 ∙ h) (ground arith)
      ]

  -- When libav's live objects are those of others and those of the encoder, then so they are after
  -- `init`, with the objects that the encoder holds then, whatever `init` returns.
  pub init-owned :
      (others : ℕ) (params : H264Params) (e e' : H264Encoder) (w w' : av.World) (ok : Bool)
      → l.live w ≡ others + owned e
      → init av params e w ≡ some (ok, e', w')
      → l.live w' ≡ others + owned e'
  unfolding init
  init-owned others params e e' w w' ok h s =
      let w1 = (av.alloc_context w).1 in
      let a1 = l.allocs_context w in
      let a2 = live-delete_context l e.encoder_context w1 (omega arith) in
      init_context-owned others (av.alloc_context w).0
        (record e { params = params; encoder_context = (av.alloc_context w).0 }) e'
        (delete_context av e.encoder_context w1) w' ok (omega arith) s

  take_packet-owned :
      (size : ℕ) (memory : List ℕ) (e e' : H264Encoder) (out out' : List ℕ)
      → take_packet av size memory e out ≡ some (e', out')
      → owned e' ≡ owned e
  unfolding take_packet
  take_packet-owned size memory e e' out out' h = elim (Bool-cases (e.pts == 0)) [
    | inr later ↦ ground arith
    | inl first ↦ elim (Option-cases (seek_nalu memory 2)) [
      | inl lost ↦ absurd (ground arith)
      | inr (k, found) ↦ elim (Bool-cases (leb k size)) [
        | inr beyond ↦ absurd (ground arith)
        | inl within ↦ ground arith
      ]
    ]
  ]

  receive-owned :
      (context packet : ℕ) (e e' : H264Encoder) (out out' : List ℕ) (w w' : av.World) (status : ℤ)
      → receive av context packet e out w ≡ some (status, e', out', w')
      → (l.live w' ≡ l.live w) × (owned e' ≡ owned e)
  unfolding receive
  receive-owned context packet e e' out out' w w' status h =
      let w1 = (av.receive_packet w context packet).1 in
      let a1 = l.receives_packet w context packet in
      elim (Bool-cases (is_ok (av.receive_packet w context packet).0)) [
        | inr fails ↦ ground arith
        | inl done ↦
            elim (Option-cases
              (take_packet av (av.packet_size w1 packet) (av.packet_memory w1 packet) e out)) [
                | inl lost ↦ absurd (ground arith)
                | inr ((e1, out1), taken) ↦
                    let same =
                      take_packet-owned (av.packet_size w1 packet) (av.packet_memory w1 packet) e e1
                        out out1 taken in
                    let last : e' ≡ e1 = ground arith in (ground arith, ap owned last ∙ same)
              ]
      ]

  send_and_receive-owned :
      (context frame : ℕ) (e e' : H264Encoder) (out out' : List ℕ) (w w' : av.World) (status : ℤ)
      → send_and_receive av context frame e out w ≡ some (status, e', out', w')
      → (l.live w' ≡ l.live w) × (owned e' ≡ owned e)
  unfolding send_and_receive
  send_and_receive-owned context frame e e' out out' w w' status h =
      let a1 = l.sends_frame w context frame in
      elim (Bool-cases (is_ok (av.send_frame w context frame).0)) [
        | inr fails ↦ ground arith
        | inl done ↦ elim (Option-cases e.packet_buffer) [
          | inl null ↦ absurd (ground arith)
          | inr (packet, p) ↦
              let (live, same) =
                receive-owned context packet e e' out out' (av.send_frame w context frame).1 w'
                  status (ground arith) in
              (live ∙ a1, same)
        ]
      ]

  -- `encode_frame` makes and frees no object of libav, on every path, and the encoder holds as many
  -- objects as before.
  pub encode_frame-owned :
      (frame_in : List ℕ) (e e' : H264Encoder) (out out' : List ℕ) (w w' : av.World) (status : ℤ)
      → encode_frame av frame_in e out w ≡ some (status, e', out', w')
      → (l.live w' ≡ l.live w) × (owned e' ≡ owned e)
  unfolding encode_frame
  encode_frame-owned frame_in e e' out out' w w' status h =
      let (scaler, _, h1) = >>=-eq-some e.sws_context _ h in
      let (frame, _, h2) = >>=-eq-some e.frame_buffer _ h1 in
      let (context, _, h3) = >>=-eq-some e.encoder_context _ h2 in
      let (rows, _, h4) = >>=-eq-some (bottom_up frame_in e.params.width e.params.height) _ h3 in
      let w1 = av.scale_in w scaler rows frame in
      let (live, same) =
        send_and_receive-owned context frame e e' out out' (av.set_pts w1 frame e.pts) w' status
          h4 in
      (live ∙ l.sets_pts w1 frame e.pts ∙ l.scales w scaler rows frame, same)

  encode_rounds-owned :
      (others : ℕ) (frames : List (List ℕ)) (e e' : H264Encoder) (w w' : av.World)
      (encs : List Encoded) (packets : List (List ℕ))
      → l.live w ≡ others + owned e
      → encode_rounds av frames e w ≡ some (encs, packets, e', w')
      → l.live w' ≡ others + owned e'
  encode_rounds-owned others [] e e' w w' encs packets h r = unfold encode_rounds in ground arith
  encode_rounds-owned others (f ∷ fs) e e' w w' encs packets h r =
      let (status, e1, out, w1, more, later, a, b, _, _) =
        encode_rounds_cons av f fs e e' w w' encs packets r in
      let (live, same) = encode_frame-owned f e e1 [] out w w1 status a in
      encode_rounds-owned others fs e1 e' w1 w' more later (omega arith) b

  -- `shutdown` frees all that the encoder holds and nothing of others.
  pub shutdown-owned :
      (others : ℕ) (e : H264Encoder) (w : av.World)
      → l.live w ≡ others + owned e
      → (l.live (shutdown av e w).1 ≡ others) × (owned (shutdown av e w).0 ≡ 0)
  unfolding shutdown
  shutdown-owned others e w h =
      let w1 = delete_context av e.encoder_context w in
      let a1 = live-delete_context l e.encoder_context w (omega arith) in
      let w2 = delete_scaler av e.sws_context w1 in
      let a2 = live-delete_scaler l e.sws_context w1 (omega arith) in
      let w3 = delete_frame av e.frame_buffer w2 in
      let a3 = live-delete_frame l e.frame_buffer w2 (omega arith) in
      let a4 = live-delete_packet l e.packet_buffer w3 (omega arith) in (omega arith, refl)

  -- Where only libav's allocations and frees change how many objects are alive, and these are those
  -- of others and of the encoder: from `init` to any number of rounds and `shutdown`, nothing of
  -- libav's is left but what others hold.
  pub shutdown-encode_rounds-init :
      (others : ℕ) (params : H264Params) (frames : List (List ℕ)) (e e1 e2 : H264Encoder)
      (w w1 w2 : av.World) (ok : Bool) (encs : List Encoded) (packets : List (List ℕ))
      → l.live w ≡ others + owned e
      → init av params e w ≡ some (ok, e1, w1)
      → encode_rounds av frames e1 w1 ≡ some (encs, packets, e2, w2)
      → l.live (shutdown av e2 w2).1 ≡ others
  shutdown-encode_rounds-init others params frames e e1 e2 w w1 w2 ok encs packets h i r =
      (shutdown-owned others e2 w2 (
        encode_rounds-owned others frames e1 e2 w1 w2 encs packets
          (init-owned others params e e1 w w1 ok h i) r)).0
