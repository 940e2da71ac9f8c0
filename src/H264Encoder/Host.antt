-- ===== src/H264Encoder/Host.antt =====
-- The encoder in the loop of `handle_encode`: what VIDEO_PARAMS and the DATA packets carry is what
-- the encoder gave. A string that was moved away is taken to be empty.
use mathlib.Core.List.{flatten}
use friendviewer.Prelude.{
  ℕ, ◌+◌, ◌≡◌, ◌≢◌, ◌⊎◌, inl, inr, refl, sym, ◌∙◌, ap, true, false, Option, none, some, List, [],
  ◌∷◌, ◌++◌, take, append_assoc, append-nil, arith, map,
}
use friendviewer.Prelude.Words.{ℤ, pos}
use friendviewer.Prelude.Faults.{◌>>=◌, >>=-eq-some}
use friendviewer.Libav.{Libav, is_ok}
use friendviewer.H264Encoder.{H264Encoder, encode_frame, get_pps_sps}
use friendviewer.H264Encoder.Split.{take_packet-Divides, encode_frame_cases}
use friendviewer.Daemon.Threads.{Encoded}

module _ (av : Libav) where
  abbrev pub packet_of : Option ℕ → av.World → List ℕ
  packet_of none w = []
  packet_of (some packet) w = take (av.packet_size w packet) (av.packet_memory w packet)

  -- What libav gave in a call of `encode_frame` that has ended.
  abbrev pub received : ℤ → H264Encoder → av.World → List ℕ
  received status e w = elim (is_ok status) [ true ↦ packet_of e.packet_buffer w | false ↦ [] ]

  -- The rounds of the loop, for the frames of the screen: what each round gives to the packets, and
  -- what libav gave. The status is dropped.
  unfoldable pub encode_rounds :
      List (List ℕ)
      → H264Encoder
      → av.World
      → Option (List Encoded × List (List ℕ) × H264Encoder × av.World)
  encode_rounds [] e w = some ([], [], e, w)
  encode_rounds (frame ∷ frames) e w = do
    (status, e1, packet_out, w1) ← encode_frame av frame e [] w
    (encs, packets, e2, w2) ← encode_rounds frames e1 w1
    some (
      record { packet_out = packet_out; pps_sps = (get_pps_sps e1 []).1 } ∷ encs,
      received status e w1 ∷ packets,
      e2,
      w2,
    )

  received_packet :
      (status : ℤ) (e : H264Encoder) (w : av.World) (packet : ℕ)
      → status ≡ pos 0
      → e.packet_buffer ≡ some packet
      → received status e w ≡ take (av.packet_size w packet) (av.packet_memory w packet)
  received_packet status e w packet ok held = ground arith

  -- One round.
  pub record Divided (bytes out : List ℕ) (e e' : H264Encoder) : Type 0 where
    pub head : List ℕ
    pub whole : head ++ out ≡ bytes
    pub to_pps_sps : e'.pps_sps ≡ e.pps_sps ++ head
    pub later_whole : (e.pts ≡ 0) ⊎ (head ≡ [])
    pub counted : ((head ≡ []) × (e'.pts ≡ e.pts)) ⊎ (e'.pts ≡ e.pts + 1)

  pub encode_frame-Divided :
      (frame : List ℕ) (e e' : H264Encoder) (out : List ℕ) (w w' : av.World) (status : ℤ)
      → encode_frame av frame e [] w ≡ some (status, e', out, w')
      → Divided (received status e w') out e e'
  encode_frame-Divided frame e e' out w w' status h =
      elim (encode_frame_cases av frame e e' [] out w w' status h) [
        | inl (fails, same, nothing) ↦ record {
          head = [];
          whole = ground arith;
          to_pps_sps = ap (λ (x : H264Encoder). x.pps_sps) same ∙ sym (append-nil e.pps_sps);
          later_whole = inr refl;
          counted = inl (refl, ap (λ (x : H264Encoder). x.pts) same);
        }
        | inr (packet, ok, held, taken) ↦
            let d = take_packet-Divides av _ _ e e' [] out taken in
            record {
              head = d.head;
              whole =
                  ap (◌++◌ d.head) d.to_packet
                  ∙ d.whole
                  ∙ sym (received_packet status e w' packet ok held);
              to_pps_sps = d.to_pps_sps;
              later_whole = d.later_whole;
              counted = inr d.counted;
            }
      ]

  pub encode_rounds_cons :
      (frame : List ℕ) (frames : List (List ℕ)) (e e' : H264Encoder) (w w' : av.World)
      (encs : List Encoded) (packets : List (List ℕ))
      → encode_rounds (frame ∷ frames) e w ≡ some (encs, packets, e', w')
      → (status : ℤ) × (e1 : H264Encoder) × (out : List ℕ) × (w1 : av.World) × (more : List Encoded)
        × (later : List (List ℕ)) × (encode_frame av frame e [] w ≡ some (status, e1, out, w1))
        × (encode_rounds frames e1 w1 ≡ some (more, later, e', w'))
        × (encs ≡ record { packet_out = out; pps_sps = (get_pps_sps e1 []).1 } ∷ more)
        × (packets ≡ received status e w1 ∷ later)
  unfolding encode_rounds
  encode_rounds_cons frame frames e e' w w' encs packets h =
      let ((status, e1, out, w1), a, h1) = >>=-eq-some (encode_frame av frame e [] w) _ h in
      let ((more, later, e2, w2), b, h2) = >>=-eq-some (encode_rounds frames e1 w1) _ h1 in
      (status, e1, out, w1, more, later, a, ground arith, ground arith, ground arith)

  Divided-later :
      (bytes out : List ℕ) (e e' : H264Encoder)
      → Divided bytes out e e'
      → e.pts ≢ 0
      → (out ≡ bytes) × (e'.pts ≢ 0)
  Divided-later bytes out e e' r n = elim r.later_whole [
    | inl first ↦ absurd (n first)
    | inr none_split ↦ (
      ap (λ h. h ++ out) (sym none_split) ∙ r.whole,
      elim r.counted [
        | inl (_, same) ↦ λ z. n (sym same ∙ z)
        | inr next ↦ λ z. omega (arith, next, z)
      ],
    )
  ]

  abbrev packets_out : List Encoded → List (List ℕ)
  packets_out encs = map (λ (c : Encoded). c.packet_out) encs

  -- Once a packet was counted, packets are passed on whole.
  pub encode_rounds_later :
      (frames : List (List ℕ)) (e e' : H264Encoder) (w w' : av.World) (encs : List Encoded)
      (packets : List (List ℕ))
      → encode_rounds frames e w ≡ some (encs, packets, e', w')
      → e.pts ≢ 0
      → packets_out encs ≡ packets
  encode_rounds_later [] e e' w w' encs packets h n = unfold encode_rounds in ground arith
  encode_rounds_later (f ∷ fs) e e' w w' encs packets h n =
      let (status, e1, out, w1, more, later, a, b, c, d) =
        encode_rounds_cons f fs e e' w w' encs packets h in
      let (same, counted) =
        Divided-later (received status e w1) out e e1
          (encode_frame-Divided f e e1 out w w1 status a) n in
      let rest = encode_rounds_later fs e1 e' w1 w' more later b counted in
      ap packets_out c ∙ ap (◌∷◌ out) rest ∙ ap (λ o. o ∷ later) same ∙ sym d

  pub get_pps_sps_new : (e : H264Encoder) → (get_pps_sps e []).1 ≡ e.pps_sps
  unfolding get_pps_sps
  get_pps_sps_new e = ground arith

  -- From an encoder that has counted no packet, when the first round gave parameter sets: the sets
  -- of the first round, which VIDEO_PARAMS carries, and behind them what the rounds give to the DATA
  -- packets, are together the bytes that libav gave, none lost and none twice.
  pub encode_rounds_whole :
      (frame : List ℕ) (frames : List (List ℕ)) (e e' : H264Encoder) (w w' : av.World)
      (enc : Encoded) (encs : List Encoded) (packets : List (List ℕ))
      → e.pts ≡ 0
      → e.pps_sps ≡ []
      → encode_rounds (frame ∷ frames) e w ≡ some (enc ∷ encs, packets, e', w')
      → enc.pps_sps ≢ []
      → enc.pps_sps ++ flatten (map (λ (c : Encoded). c.packet_out) (enc ∷ encs)) ≡ flatten packets
  unfolding flatten
  encode_rounds_whole frame frames e e' w w' enc encs packets zero_pts no_sets h sets =
      let (status, e1, out, w1, more, later, a, b, c, d) =
        encode_rounds_cons frame frames e e' w w' (enc ∷ encs) packets h in
      let r = encode_frame-Divided frame e e1 out w w1 status a in
      let e2 : enc ≡ record { packet_out = out; pps_sps = (get_pps_sps e1 []).1 } = cc in
      let e3 : encs ≡ more = cc in
      let got : enc.pps_sps ≡ r.head =
        ap (λ (x : Encoded). x.pps_sps) e2
        ∙ get_pps_sps_new e1
        ∙ r.to_pps_sps
        ∙ ap (λ l. l ++ r.head) no_sets in
      let counted : e1.pts ≢ 0 = elim r.counted [
        | inl (empty, _) ↦ absurd (sets (got ∙ empty))
        | inr next ↦ λ z. omega (arith, next, z)
      ] in
      let rest = encode_rounds_later frames e1 e' w1 w' more later b counted in
      let first : enc.pps_sps ++ enc.packet_out ≡ received status e w1 =
        ap (λ l. l ++ enc.packet_out) got
        ∙ ap (λ (x : Encoded). r.head ++ x.packet_out) e2
        ∙ r.whole in
      sym (append_assoc enc.pps_sps enc.packet_out (flatten (packets_out encs)))
      ∙ ap (λ l. l ++ flatten (packets_out encs)) first
      ∙ ap (λ l. received status e w1 ++ flatten l) (ap packets_out e3 ∙ rest)
      ∙ sym (ap flatten d)
