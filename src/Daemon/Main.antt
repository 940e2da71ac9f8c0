-- ===== src/Daemon/Main.antt =====
-- prototype/daemon/daemon_main.cc, and what it calls of daemon_backend_controller.cc before its loop:
-- the constructor and `init`.
use friendviewer.Prelude.{
  ℕ, ◌-◌, ◌/◌, ◌<◌, ◌≡◌, refl, ◌∙◌, ap, Bool, true, false, Option, some, List, [], ◌∷◌, arith,
}
use friendviewer.Prelude.Faults.{◌>>=◌, >>=-eq-some}
use friendviewer.Packet.{FvPacketType}
use friendviewer.Daemon.Session.{handlers_of, subscribe_all-handlers}
use friendviewer.ChunkBuffer
use friendviewer.ClientSocket.{Winsock}
use friendviewer.NetworkManager.{NetworkManager}
use friendviewer.DxgiCapture
use friendviewer.DxgiCapture.{Dxgi, DxgiCapture}
use friendviewer.GlWindow.Keys.{Callbacks, register_callbacks, daemon_callbacks}
use friendviewer.Daemon.{Daemon, Outside}
use friendviewer.Daemon.Control.{
  Handler, Moment, subscribe_all, key_pressed, button_pressed, cursor_moved,
}
use friendviewer.Daemon.Frame.{System, run_frame}
use friendviewer.Daemon.Frames.{run_frame_late}

-- The constructor. The fields that it and the class leave unset come from `unset`.
abbrev pub construct : {Float : Type 0} → Daemon Float → Daemon Float
construct unset = record unset {
  running = true;
  decode_buffer = ChunkBuffer.empty;
  send_buffer = ChunkBuffer.empty;
  encoded_buffer = ChunkBuffer.empty;
  connect_address = [];
  connect_signal = false;
  username = [];
  remote_users = [];
  got_pps_sps = true;
  effects = [];
}

module _ (o : Outside) (x : Dxgi) where
  open o use {Float}

  -- The daemon with the components that `init` sets up.
  pub record Parts : Type 0 where
    pub daemon : Daemon Float
    pub net_mgr : NetworkManager Handler
    pub callbacks : Callbacks (Daemon Float) o.Double
    pub screen_cap : DxgiCapture
    pub screen : x.World

  -- What the capture's `init` returns is not looked at.
  unfoldable pub init : ℕ → ℕ → ℕ → Parts → Option (Bool × Parts)
  init fuel scr_w scr_h p = do
    (ok, screen_cap, screen) ← DxgiCapture.init x fuel scr_w scr_h 30 p.screen_cap p.screen
    some (
      true,
      record {
        daemon = record (p.daemon) { width = scr_w; height = scr_h };
        net_mgr = subscribe_all p.net_mgr;
        callbacks =
            register_callbacks (key_pressed o) (button_pressed o) (cursor_moved o) p.callbacks;
        screen_cap = screen_cap;
        screen = screen;
      },
    )

  -- When `init` returns, it returns true, whatever the capture's `init` returned; from no handlers
  -- each packet type has its own one, and the window has the three callbacks of the daemon.
  pub init-handlers_of :
      (fuel scr_w scr_h : ℕ) (p p' : Parts) (ok : Bool) (t : FvPacketType)
      → ((u : FvPacketType) → p.net_mgr.handlers u ≡ [])
      → init fuel scr_w scr_h p ≡ some (ok, p')
      → (ok ≡ true)
        × (p'.net_mgr.handlers t ≡ handlers_of t)
        × (p'.callbacks ≡ daemon_callbacks o)
        × (p'.daemon.width ≡ scr_w)
        × (p'.daemon.height ≡ scr_h)
  unfolding init register_callbacks
  init-handlers_of fuel scr_w scr_h p p' ok t bare h =
      let ((set, cap, screen), _, h1) =
        >>=-eq-some (DxgiCapture.init x fuel scr_w scr_h 30 p.screen_cap p.screen) _ h in
      (
        ground arith,
        ap (λ (n : NetworkManager Handler). n.handlers t)
              (let e : p'.net_mgr ≡ subscribe_all p.net_mgr = ground arith in e)
            ∙ subscribe_all-handlers p.net_mgr t bare,
        ground arith,
        ground arith,
        ground arith,
      )

module _ (o : Outside) (ws : Winsock) where
  open o use {Float}

  -- The loop of `main`, for the times at which its turns begin.
  unfoldable pub main_loop :
      ℕ → ℕ → List Moment → System Float ws.World → Option (System Float ws.World)
  main_loop fuel ticks [] s = some s
  main_loop fuel ticks (t ∷ ts) s = elim s.daemon.running [
    | false ↦ some s
    | true ↦ do s1 ← run_frame o ws fuel ticks t s; main_loop fuel ticks ts s1
  ]

  main_loop-stopped :
      (fuel ticks : ℕ) (ts : List Moment) (s : System Float ws.World)
      → s.daemon.running ≡ false
      → main_loop fuel ticks ts s ≡ some s
  unfolding main_loop
  main_loop-stopped fuel ticks [] s h = refl
  main_loop-stopped fuel ticks (t ∷ ts) s h = ground arith

  -- On a connected daemon that runs, more than six whole seconds after the last heartbeat: when the
  -- next turn of the loop ends, whatever packets it had, the loop of `main` takes no further turn and
  -- leaves the daemon stopped, as that turn left it.
  pub main_loop_late :
      (fuel ticks : ℕ) (t : Moment) (ts : List Moment) (s s' : System Float ws.World)
      → s.daemon.running ≡ true
      → s.net_mgr.connected ≡ true
      → 6 < (t.now - s.daemon.last_heartbeat_time) / ticks
      → run_frame o ws fuel ticks t s ≡ some s'
      → (main_loop fuel ticks (t ∷ ts) s ≡ some s') × (s'.daemon.running ≡ false)
  unfolding main_loop
  main_loop_late fuel ticks t ts s s' on connected late e =
      let off = run_frame_late o ws fuel ticks t s s' connected late e in
      let ends = main_loop-stopped fuel ticks ts s' off in (ground arith, off)
