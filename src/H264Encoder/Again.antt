-- ===== src/H264Encoder/Again.antt =====
-- Sessions on an encoder of h264_encoder.cc that is initialised again.
use friendviewer.Prelude.{
  ℕ, ◌≡◌, ◌≢◌, inl, inr, sym, ◌∙◌, ap, Bool, Option, none, some, Bool-cases, List, [], ◌∷◌, ◌++◌,
  append-nil, arith, map,
}
use friendviewer.Prelude.Words.{ℤ}
use friendviewer.Libav.{Libav, is_ok}
use friendviewer.H264Encoder.{
  H264Encoder, H264Params, encode_frame, get_pps_sps, init, init_context, init_buffers, fields_of,
}
use friendviewer.Daemon.Threads.{Encoded}
use friendviewer.H264Encoder.Host.{
  encode_rounds, encode_rounds_cons, encode_frame-Divided, get_pps_sps_new, encode_rounds_later,
}

module _ (av : Libav) where
  -- A second session on an encoder that was not shut down. `init` keeps the count and the sets.
  init_buffers_keeps :
      (e e' : H264Encoder) (w w' : av.World) (ok : Bool)
      → init_buffers av e w ≡ some (ok, e', w')
      → (e'.pts ≡ e.pts) × (e'.pps_sps ≡ e.pps_sps)
  unfolding init_buffers
  init_buffers_keeps e e' w w' ok h = ground arith

  init_context_keeps :
      (context : Option ℕ) (e e' : H264Encoder) (w w' : av.World) (ok : Bool)
      → init_context av context e w ≡ some (ok, e', w')
      → (e'.pts ≡ e.pts) × (e'.pps_sps ≡ e.pps_sps)
  unfolding init_context
  init_context_keeps none e e' w w' ok h = ground arith
  init_context_keeps (some c) e e' w w' ok h =
      let w1 = (av.open_codec (av.set_context w c (fields_of e.params)) c).1 in
      elim (Bool-cases (is_ok (av.open_codec (av.set_context w c (fields_of e.params)) c).0)) [
        | inr fails ↦ ground arith
        | inl opened ↦ init_buffers_keeps e e' w1 w' ok (ground arith)
      ]

  init_keeps :
      (params : H264Params) (e e' : H264Encoder) (w w' : av.World) (ok : Bool)
      → init av params e w ≡ some (ok, e', w')
      → (e'.pts ≡ e.pts) × (e'.pps_sps ≡ e.pps_sps)
  unfolding init
  init_keeps params e e' w w' ok h = init_context_keeps (av.alloc_context w).0 _ e' _ w' ok h

  pps_sps_later :
      (frame : List ℕ) (e e' : H264Encoder) (out : List ℕ) (w w' : av.World) (status : ℤ)
      → encode_frame av frame e [] w ≡ some (status, e', out, w')
      → e.pts ≢ 0
      → e'.pps_sps ≡ e.pps_sps
  pps_sps_later frame e e' out w w' status h n =
      let r = encode_frame-Divided av frame e e' out w w' status h in
      elim r.later_whole [
        | inl first ↦ absurd (n first)
        | inr none_split ↦ r.to_pps_sps ∙ ap (◌++◌ e.pps_sps) none_split ∙ append-nil e.pps_sps
      ]

  -- When an encoder that has counted packets is initialised again without `shutdown`, the next
  -- session's first round gives VIDEO_PARAMS the parameter sets of the old session, and all rounds
  -- pass libav's packets on whole, their own parameter sets included.
  pub init_second_session :
      (params : H264Params) (e e1 e' : H264Encoder) (w w1 w' : av.World) (ok : Bool)
      (frame : List ℕ) (frames : List (List ℕ)) (enc : Encoded) (encs : List Encoded)
      (packets : List (List ℕ))
      → e.pts ≢ 0
      → init av params e w ≡ some (ok, e1, w1)
      → encode_rounds av (frame ∷ frames) e1 w1 ≡ some (enc ∷ encs, packets, e', w')
      → (enc.pps_sps ≡ e.pps_sps) × (map (λ (c : Encoded). c.packet_out) (enc ∷ encs) ≡ packets)
  init_second_session params e e1 e' w w1 w' ok frame frames enc encs packets n i h =
      let (pts, sets) = init_keeps params e e1 w w1 ok i in
      let counted : e1.pts ≢ 0 = λ z. n (sym pts ∙ z) in
      let (status, e2, out, w2, more, later, a, b, c, d) =
        encode_rounds_cons av frame frames e1 e' w1 w' (enc ∷ encs) packets h in
      let first : enc ≡ record { packet_out = out; pps_sps = (get_pps_sps e2 []).1 } = cc in
      (
        ap (λ (x : Encoded). x.pps_sps) first
            ∙ get_pps_sps_new av e2
            ∙ pps_sps_later frame e1 e2 out w1 w2 status a counted
            ∙ sets,
        encode_rounds_later av (frame ∷ frames) e1 e' w1 w' (enc ∷ encs) packets h counted,
      )
