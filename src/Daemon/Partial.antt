-- ===== src/Daemon/Partial.antt =====
-- prototype/daemon/daemon_backend_controller.cc, `run_frame`: a daemon in the middle of a stream of
-- packets, of which the rest has not come yet.
use mathlib.Core.List.{flatten, foldl-append}
use mathlib.Core.Path.{subst}
use friendviewer.Prelude.{
  ℕ, ◌≡◌, ◌≢◌, refl, sym, ◌∙◌, ap, some, List, [], ◌++◌, foldl, map, All, length,
}
use friendviewer.Packet.{FvPacket, CodecLaws}
use friendviewer.MessageManager.{MessageManager}
use friendviewer.MessageManager.Feed.{IsValid, feed, feeds-IsValid}
use friendviewer.MessageManager.Unfinished.{feeds-part}
use friendviewer.MessageManager.Wire.{frame, frames}
use friendviewer.MessageManager.RoundTrip.{IsShort, IsIdle, IsIdle-IsValid, feeds-frames}
use friendviewer.ClientSocket.{Winsock}
use friendviewer.NetworkManager.Stream.{Receives}
use friendviewer.Daemon.{Outside}
use friendviewer.Daemon.Control.{Moment}
use friendviewer.Daemon.Frame.{System}
use friendviewer.Daemon.Frames.{run_frames}
use friendviewer.Daemon.Turn.{IsListening, IsTimely, arrived}
use friendviewer.Daemon.Arrival.{run_frames-arrived, parse-serialize_all}

-- Whole frames and then a part of one: the messages of the whole ones are queued.
queued-front :
    (m : MessageManager) (messages : List (List ℕ)) (message part rest : List ℕ)
    → IsIdle m
    → m.message_buffers ≡ []
    → All IsShort messages
    → IsShort message
    → part ++ rest ≡ frame message
    → rest ≢ []
    → (foldl feed m (frames messages ++ part)).message_buffers ≡ messages
queued-front m messages message part rest idle taken short next cut more =
    let (idle', grown) = feeds-frames messages m idle short in
    ap (λ (n : MessageManager). n.message_buffers) (foldl-append feed m (frames messages) part)
    ∙ feeds-part (foldl feed m (frames messages)) message part rest idle' next cut more
    ∙ grown
    ∙ ap (λ q. q ++ messages) taken

module _ (o : Outside) (ws : Winsock) (c : CodecLaws o.packets) where
  open o use {Float, packets}

  -- With packets that are read back as they were written, each below 2 ^ 31 bytes as it is written,
  -- and a connected daemon with the handlers of `init`, nothing to send, an idle parser and no message
  -- waiting: turns of the loop, each less than seven seconds after the last heartbeat, while the
  -- receives return the frames of some packets and a part, none or more but without the last byte, of the
  -- frame of the next one, cut anywhere. They end, and have done for the whole packets what they do when these are
  -- all that comes; of the next one nothing was handed on, and
  -- the parser is in a state from which it goes on.
  pub run_frames-front :
      (ts : List Moment) (fuel ticks : ℕ) (s : System Float ws.World) (pieces : List (List ℕ))
      (part rest : List ℕ) (ps : List FvPacket) (next : FvPacket) (w' : ws.World)
      → IsListening o ws s
      → IsIdle s.net_mgr.decode_mgr
      → All (IsTimely o ws ticks s.daemon) ts
      → All IsShort (map packets.serialize ps)
      → IsShort (packets.serialize next)
      → flatten pieces ≡ frames (map packets.serialize ps) ++ part
      → part ++ rest ≡ frame (packets.serialize next)
      → rest ≢ []
      → Receives ws fuel s.net_mgr.socket (length ts) pieces s.world w'
      → (m : MessageManager) × IsValid m
        × (run_frames o ws fuel ticks ts s ≡ some (arrived o ws s m ps w'))
  run_frames-front ts fuel ticks s pieces part rest ps next w' l idle timely short fits cut within
        more received =
      let start = s.net_mgr.decode_mgr in
      let v = IsIdle-IsValid start idle in
      let m = foldl feed start (flatten pieces) in
      let queued : m.message_buffers ≡ map packets.serialize ps =
        ap (λ b. (foldl feed start b).message_buffers) cut
        ∙ queued-front start (map packets.serialize ps) (packets.serialize next) part rest idle
            l.taken short fits within more in
      (
        m,
        feeds-IsValid start (flatten pieces) v,
        run_frames-arrived o ws ts fuel ticks s pieces s.world w' l refl timely v
              (subst (All IsShort) (sym queued) short) received
            ∙ ap (λ q. some (arrived o ws s m (map packets.parse q) w')) queued
            ∙ ap (λ qs. some (arrived o ws s m qs w')) (parse-serialize_all o ws c ps),
      )
