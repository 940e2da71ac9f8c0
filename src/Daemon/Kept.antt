-- ===== src/Daemon/Kept.antt =====
-- What the handlers keep, a turn of the daemon's loop keeps.
use mathlib.Core.Path.{subst}
use friendviewer.Prelude.{
  ℕ, suc, ◌≡◌, sym, ◌∙◌, ap, inl, inr, true, false, Option, none, some, Option-cases, List, [],
  arith, length, if◌then◌else◌,
}
use friendviewer.ChunkBuffer.{ChunkBuffer}
use friendviewer.ClientSocket.{Winsock}
use friendviewer.NetworkManager.{NetworkManager, Polled, poll_network}
use friendviewer.NetworkManager.Shared.{poll_network-P}
use friendviewer.Daemon.{Daemon, Outside, check_heartbeat}
use friendviewer.Daemon.Control.{Handler, Moment, handle}
use friendviewer.Daemon.Frame.{
  System, run_handler, flush, flush_all, polled_daemon, frame_connected, frame_connect, run_frame,
}

module _ (o : Outside) (ws : Winsock) where
  open o use {Float}

  -- A property that the handlers keep, and that says nothing of the send buffer.
  pub record Kept (R : Daemon Float → Type 0) : Type 0 where
    pub handled :
        (t : Moment) (h : Handler) (bytes : List ℕ) (d d' : Daemon Float)
        → handle o t h bytes d ≡ some d'
        → R d
        → R d'
    pub flushed :
        (d : Daemon Float) (b : ChunkBuffer (List ℕ)) → R d → R (record d { send_buffer = b })

module _ (o : Outside) {ws : Winsock} {R : Daemon o.Float → Type 0} (kept : Kept o ws R) where
  open o use {Float}

  abbrev Alive : Option (Daemon Float) → Type 0
  Alive none = Unit
  Alive (some d) = R d

  run_handler-Alive :
      (t : Moment) (h : Handler) (d : Option (Daemon Float)) (bytes : List ℕ)
      → Alive d
      → Alive (run_handler o ws t h d bytes)
  unfolding run_handler
  run_handler-Alive t h none bytes a = tt
  run_handler-Alive t h (some d) bytes a = elim (Option-cases (handle o t h bytes d)) [
    | inl e ↦ subst Alive (sym e) tt
    | inr (d', e) ↦ subst Alive (sym e) (kept.handled t h bytes d d' e a)
  ]

  flush_all-kept :
      (fuel : ℕ) (nm : NetworkManager Handler) (d : Daemon Float) (w : ws.World)
      (s : System Float ws.World)
      → flush_all o ws fuel nm d w ≡ some s
      → R d
      → R s.daemon × (s.net_mgr ≡ nm)
  unfolding flush_all
  flush_all-kept fuel nm d w s e r =
      elim (Option-cases
        (flush o ws (suc (length d.send_buffer.queue)) fuel nm d.send_buffer [] w)) [
          | inl a ↦ absurd (ground arith)
          | inr ((b, w'), a) ↦
              let e1 : record d { send_buffer = b } ≡ s.daemon = ground arith in
              (subst R e1 (kept.flushed d b r), ground arith)
        ]

  polled_daemon-kept :
      (fuel : ℕ) (p : Polled Handler (Option (Daemon Float)) ws.World) (d : Option (Daemon Float))
      (s : System Float ws.World)
      → polled_daemon o ws fuel p d ≡ some s
      → Alive d
      → R s.daemon × (s.net_mgr ≡ p.manager)
  polled_daemon-kept fuel p none s e a = absurd (ground arith)
  polled_daemon-kept fuel p (some d) s e a = flush_all-kept fuel p.manager d p.world s e a

  pub run_frame-connected :
      (fuel ticks : ℕ) (t : Moment) (s s' : System Float ws.World)
      → s.net_mgr.connected ≡ true
      → run_frame o ws fuel ticks t s ≡ some s'
      → R (check_heartbeat ticks t.now s.daemon)
      → R s'.daemon × (s'.net_mgr.connected ≡ true)
  unfolding run_frame frame_connected
  run_frame-connected fuel ticks t s s' on e r =
      let e1 : frame_connected o ws fuel ticks t s ≡ some s' =
        sym (
          ap
            (λ b.
              if b
              then frame_connected o ws fuel ticks t s
              else if s.daemon.connect_signal
              then some (frame_connect o ws t s)
              else some s)
            on)
        ∙ e in
      elim (Option-cases (
        poll_network ws (run_handler o ws t) o.packets fuel false s.net_mgr
          (some (check_heartbeat ticks t.now s.daemon)) s.world)) [
            | inl a ↦ absurd (ground arith)
            | inr (p, a) ↦
                let (alive, same) =
                  poll_network-P ws (run_handler o ws t) o.packets Alive
                    (λ h d bytes. run_handler-Alive t h d bytes) fuel false s.net_mgr
                    (some (check_heartbeat ticks t.now s.daemon)) s.world p a r in
                let (k, e2) = polled_daemon-kept fuel p p.shared s' (ground arith) alive in
                (k, ap (λ (nm : NetworkManager Handler). nm.connected) e2 ∙ same ∙ on)
          ]
