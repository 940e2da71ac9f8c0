-- ===== src/Daemon/Hosting.antt =====
-- prototype/daemon/daemon_backend_controller.cc: the thread of `handle_encode` and the loop of
-- `run_frame` of a host, in any order. The send buffer is all that they share.
use friendviewer.Prelude.{
  ℕ, ◌+◌, ◌<◌, ◌≡◌, refl, sym, ◌∙◌, ap, Bool, true, false, Option, none, some, List, [], ◌∷◌, ◌++◌,
  All, arith, append-nil, append_assoc, if◌then◌else◌,
}
use mathlib.Core.Path.{subst}
use friendviewer.Packet.{FvPacketType}
use friendviewer.MessageManager.Wire.{frames, frames-append}
use friendviewer.ChunkBuffer
use friendviewer.ChunkBuffer.{ChunkBuffer, enqueue_chunk}
use friendviewer.ClientSocket.{Winsock}
use friendviewer.ClientSocket.Send.{SendLaws}
use friendviewer.ClientSocket.SendEnds.{Progress, Unbroken}
use friendviewer.NetworkManager.Stream.{All-split}
use friendviewer.Daemon.Messages.{VideoParams, Inner}
use friendviewer.Daemon.{Daemon, Outside}
use friendviewer.Daemon.Control.{enqueue_msg}
use friendviewer.Daemon.Frame.{System, flush_all}
use friendviewer.Daemon.Threads.{Encoding, Encoded, params_of, data_of, send_params, encode_round}
use friendviewer.Daemon.Stream.{sent_packet}
use friendviewer.Daemon.Flush.{Fits, Fits-later, flush_all-ends}

-- A round of the encoding thread, with what the encoder gives, or the sending part of a frame.
pub data HostStep : Type 0 where
  encodes : Encoded → HostStep
  sends : HostStep

-- What the encoder gives in some steps.
abbrev pub encoded_in : List HostStep → List Encoded
encoded_in [] = []
encoded_in (encodes e ∷ steps) = e ∷ encoded_in steps
encoded_in (sends ∷ steps) = encoded_in steps

module _ (o : Outside) (ws : Winsock) where
  open o use {Float}

  abbrev pub Host : Type 0
  Host = Encoding × System Float ws.World

  unfoldable pub host_step : ℕ → HostStep → Host → Option Host
  host_step fuel (encodes e) h =
      let (v, d) = encode_round o e (h.0, h.1.daemon) in
      if h.1.daemon.encoder_running then some (v, record (h.1) { daemon = d }) else some h
  host_step fuel sends h = elim (flush_all o ws fuel h.1.net_mgr h.1.daemon h.1.world) [
    | none ↦ none
    | some s ↦ some (h.0, s)
  ]

  unfoldable pub host_steps : ℕ → List HostStep → Host → Option Host
  host_steps fuel [] h = some h
  host_steps fuel (step ∷ steps) h = elim (host_step fuel step h) [
    | none ↦ none
    | some h' ↦ host_steps fuel steps h'
  ]

module _ (o : Outside) where
  open o use {Float}

  -- The packets of a round: the parameters if they were not sent yet, and the frame.
  abbrev pub packets_new : Bool → ℕ → VideoParams → Encoded → List (List ℕ)
  packets_new true pts params e =
      sent_packet o FvPacketType.data_packet (Inner.data_packet (data_of o pts e)) ∷ []
  packets_new false pts params e =
      sent_packet o FvPacketType.video_params (Inner.video_params params)
      ∷ sent_packet o FvPacketType.data_packet (Inner.data_packet (data_of o pts e))
      ∷ []

  -- The packets of some rounds.
  unfoldable pub packets_from : Bool → ℕ → (Encoded → VideoParams) → List Encoded → List (List ℕ)
  packets_from sent pts params [] = []
  packets_from sent pts params (e ∷ es) =
      packets_new sent pts (params e) e ++ packets_from true (pts + 1) params es

  encode_round-packets :
      (sent : Bool) (pts : ℕ) (e : Encoded) (d : Daemon Float)
      → encode_round o e (record { sent_param = sent; pts = pts }, d) ≡ (
        record { sent_param = true; pts = pts + 1 },
        record d {
          send_buffer = record {
            queue = d.send_buffer.queue ++ packets_new sent pts (params_of o d e) e;
          };
        },
      )
  unfolding encode_round send_params enqueue_msg enqueue_chunk
  encode_round-packets true pts e d = refl
  encode_round-packets false pts e d =
      ap
        (λ q. (
          record { sent_param = true; pts = pts + 1 },
          record d { send_buffer = record { queue = q } },
        ))
        (append_assoc d.send_buffer.queue _ _)

module _ (o : Outside) (ws : Winsock) where
  open o use {Float}

  host_step-encodes :
      (fuel : ℕ) (e : Encoded) (sent : Bool) (pts : ℕ) (s : System Float ws.World)
      → s.daemon.encoder_running ≡ true
      → host_step o ws fuel (encodes e) (record { sent_param = sent; pts = pts }, s)
        ≡ some (
          record { sent_param = true; pts = pts + 1 },
          record s {
            daemon = record (s.daemon) {
              send_buffer = record {
                queue =
                    s.daemon.send_buffer.queue ++ packets_new o sent pts (params_of o s.daemon e) e;
              };
            };
          },
        )
  unfolding host_step
  host_step-encodes fuel e sent pts s on =
      let v : Encoding = record { sent_param = sent; pts = pts } in
      let round = encode_round o e (v, s.daemon) in
      ap (λ b. if b then some (round.0, record s { daemon = round.1 }) else some (v, s)) on
      ∙ ap (λ x. some (x.0, record s { daemon = x.1 })) (encode_round-packets o sent pts e s.daemon)

module _ (o : Outside) {ws : Winsock} (l : SendLaws ws) (p : Progress ws) (u : Unbroken ws) where
  open o use {Float}

  -- Everything was sent: what waited, and then the packets of the rounds.
  abbrev pub AllSent : ℕ → List HostStep → Bool → ℕ → System Float ws.World → Type 0
  AllSent fuel steps sent pts s =
      (v : Encoding) × (d : Daemon Float) × (w : ws.World) × (host_steps o ws fuel
          (steps ++ (sends ∷ [])) (record { sent_param = sent; pts = pts }, s)
        ≡ some (v, record { daemon = d; net_mgr = s.net_mgr; world = w }))
      × (d.send_buffer.queue ≡ [])
      × (l.sent w s.net_mgr.socket.socket
          ≡ l.sent s.world s.net_mgr.socket.socket
            ++ frames (
                s.daemon.send_buffer.queue
                ++ packets_from o sent pts (params_of o s.daemon) (encoded_in steps)))

  pub host_steps-AllSent :
      (steps : List HostStep) (fuel : ℕ) (sent : Bool) (pts : ℕ) (s : System Float ws.World)
      → s.daemon.encoder_running ≡ true
      → p.busy s.world + 4 < fuel
      → All (Fits o l p u fuel s.world) (
          s.daemon.send_buffer.queue
          ++ packets_from o sent pts (params_of o s.daemon) (encoded_in steps))
      → AllSent fuel steps sent pts s
  unfolding host_steps host_step packets_from
  host_steps-AllSent [] fuel sent pts s on h fits =
      let all : s.daemon.send_buffer.queue ++ [] ≡ s.daemon.send_buffer.queue = append-nil _ in
      let (w1, e, grown, le) =
        flush_all-ends o l p u fuel s.net_mgr s.daemon s.world h
          (subst (All (Fits o l p u fuel s.world)) all fits) in
      (
        record { sent_param = sent; pts = pts },
        record (s.daemon) { send_buffer = ChunkBuffer.empty },
        w1,
        rw (e, host_steps) refl,
        refl,
        grown ∙ ap (λ q. l.sent s.world s.net_mgr.socket.socket ++ frames q) (sym all),
      )
  host_steps-AllSent (encodes e ∷ steps) fuel sent pts s on h fits =
      let queue = s.daemon.send_buffer.queue in
      let new = packets_new o sent pts (params_of o s.daemon e) e in
      let d1 : Daemon Float = record (s.daemon) { send_buffer = record { queue = queue ++ new } } in
      let s1 : System Float ws.World = record s { daemon = d1 } in
      let all =
        append_assoc queue new
          (packets_from o true (pts + 1) (params_of o s.daemon) (encoded_in steps)) in
      let (v, d, w, e1, empty, grown) =
        host_steps-AllSent steps fuel true (pts + 1) s1 on h
          (subst (All (Fits o l p u fuel s.world)) (sym all) fits) in
      (
        v,
        d,
        w,
        rw (host_step-encodes o ws fuel e sent pts s on, host_steps) e1,
        empty,
        grown ∙ ap (λ q. l.sent s.world s.net_mgr.socket.socket ++ frames q) all,
      )
  host_steps-AllSent (sends ∷ steps) fuel sent pts s on h fits =
      let queue = s.daemon.send_buffer.queue in
      let later = packets_from o sent pts (params_of o s.daemon) (encoded_in steps) in
      let (fits1, fits2) = All-split (Fits o l p u fuel s.world) queue later fits in
      let (w1, e, sent1, le) = flush_all-ends o l p u fuel s.net_mgr s.daemon s.world h fits1 in
      let s1 : System Float ws.World = record {
        daemon = record (s.daemon) { send_buffer = ChunkBuffer.empty };
        net_mgr = s.net_mgr;
        world = w1;
      } in
      let (v, d, w, e1, empty, grown) =
        host_steps-AllSent steps fuel sent pts s1 on (omega (arith, le, h))
          (Fits-later o l p u fuel s.world w1 later le fits2) in
      (
        v,
        d,
        w,
        rw (e, host_steps) e1,
        empty,
        grown
            ∙ ap (λ b. b ++ frames later) sent1
            ∙ append_assoc (l.sent s.world s.net_mgr.socket.socket) (frames queue) (frames later)
            ∙ ap (λ b. l.sent s.world s.net_mgr.socket.socket ++ b)
                (sym (frames-append queue later)),
      )
