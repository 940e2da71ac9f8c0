-- ===== src/GlWindow/Relay.antt =====
-- The input of a session, end to end: the client's window, its connection, the frames of the host and
-- the tasks that these start.
use mathlib.Core.List.{flatten, filter_map, Perm}
use mathlib.Core.List.Perm
use mathlib.Core.Path.{subst}
use friendviewer.Prelude.{
  ℕ, ◌+◌, ◌<◌, ◌≡◌, refl, sym, ◌∙◌, ap, inl, inr, Option, Option-cases, some, List, [], ◌∷◌, ◌++◌,
  foldl, map, All, length, append_assoc, append-nil,
}
use friendviewer.Prelude.Words.{ℤ}
use friendviewer.Packet.{CodecLaws}
use friendviewer.MessageManager.Wire.{frames}
use friendviewer.MessageManager.RoundTrip.{IsShort, IsIdle}
use friendviewer.ClientSocket.{Winsock}
use friendviewer.ClientSocket.Send.{SendLaws}
use friendviewer.ClientSocket.SendEnds.{Progress, Unbroken}
use friendviewer.NetworkManager.{NetworkManager, Task}
use friendviewer.NetworkManager.Stream.{Receives}
use friendviewer.Daemon.{Daemon, Outside}
use friendviewer.Daemon.Control.{Handler, Moment, handle, handle_input}
use friendviewer.Daemon.Frame.{System, run_handler, flush_all}
use friendviewer.Daemon.Frames.{run_frames}
use friendviewer.Daemon.Flush.{flush_all-frames}
use friendviewer.Daemon.Receiving.{data_of_packets, tasks_of_packets}
use friendviewer.Daemon.Turn.{IsListening, IsTimely}
use friendviewer.Daemon.Arrival.{run_frames-packets}
use friendviewer.GlWindow.{GlWindow}
use friendviewer.GlWindow.Mapping.{GlfwKey}
use friendviewer.GlWindow.Remote.{
  WindowEvent, InputLaws, window_event, input_of, packet_of, task_of, action_of, IsEncodable,
  window_events-queue, acted, acts_of, handle_input-event,
}

module _ (o : Outside) (ws : Winsock) where
  open o use {Float}

  -- Tasks that run one after the other.
  abbrev pub run_tasks : Moment → List (Task Handler) → Daemon Float → Option (Daemon Float)
  run_tasks t tasks d =
      foldl
        (λ (x : Option (Daemon Float)) (task : Task Handler).
          run_handler o ws t task.callback x task.inner)
        (some d) tasks

module _ (code : GlfwKey → ℤ) (o : Outside) (divide : o.Double → ℕ → o.Double) (g : GlWindow)
    (ws : Winsock) where
  open o use {Float, Double, packets, inner}

  filter_map-cons :
      (e : WindowEvent Double) (es : List (WindowEvent Double))
      → filter_map (action_of code o divide g) (e ∷ es)
        ≡ acts_of code o divide g (action_of code o divide g e)
          ++ filter_map (action_of code o divide g) es
  unfolding filter_map
  filter_map-cons e es = elim (Option-cases (action_of code o divide g e)) [
    | inl a ↦ rw a refl
    | inr (x, a) ↦ rw a refl
  ]

  run_tasks-events :
      (l : InputLaws o) (t : Moment) (events : List (WindowEvent Double)) (d : Daemon Float)
      → All (IsEncodable code o divide g) events
      → run_tasks o ws t (map (task_of code o divide g) events) d
        ≡ some (acted code o divide g d (filter_map (action_of code o divide g) events))
  unfolding run_handler handle filter_map
  run_tasks-events l t [] d h =
      ap (λ x. some (record d { effects = x })) (sym (append-nil d.effects))
  run_tasks-events l t (e ∷ es) d h =
      let tasks = map (task_of code o divide g) es in
      let acts = acts_of code o divide g (action_of code o divide g e) in
      ap
        (λ i.
          foldl
            (λ (x : Option (Daemon Float)) (task : Task Handler).
              run_handler o ws t task.callback x task.inner)
            (some (handle_input o i d)) tasks)
        (l.parse_control_input-serialize (input_of code o divide g e) h.0.0 h.0.1)
      ∙ ap (λ x. run_tasks o ws t tasks x) (handle_input-event code o divide g l e d)
      ∙ run_tasks-events l t es (acted code o divide g d acts) h.1
      ∙ ap (λ x. some (record d { effects = x }))
          (append_assoc d.effects acts _ ∙ ap (◌++◌ d.effects) (sym (filter_map-cons e es)))

  data_of_packets-events :
      (events : List (WindowEvent Double))
      → data_of_packets o (map (packet_of code o divide g) events) ≡ []
  unfolding data_of_packets
  data_of_packets-events [] = refl
  data_of_packets-events (e ∷ es) = data_of_packets-events es

  tasks_of_packets-events :
      (events : List (WindowEvent Double))
      → tasks_of_packets o (map (packet_of code o divide g) events)
        ≡ map (task_of code o divide g) events
  unfolding tasks_of_packets
  tasks_of_packets-events [] = refl
  tasks_of_packets-events (e ∷ es) =
      ap (◌∷◌ (task_of code o divide g e)) (tasks_of_packets-events es)

module _ (code : GlfwKey → ℤ) (o : Outside) (divide : o.Double → ℕ → o.Double) (g : GlWindow)
    {ws : Winsock} where
  open o use {Float, Double, packets, inner}

  -- With packets, and inputs whose numbers are those of an `int32`, that are read back as they
  -- were written, -1 not above 0, and `send` taking a front of what it is given, or nothing, and
  -- saying so. The window of a client with nothing else to send has some events, with such inputs
  -- and packets below 2 ^ 31 bytes, and the client sends them on a connection that stays up to a
  -- peer that reads, with fuel for the longest packet. A host that is connected and has the
  -- handlers of `init`, nothing to send, an idle parser and no message waiting takes turns of its
  -- loop, each less than seven seconds after its last heartbeat, and its receives return the
  -- frames of these packets, cut anywhere. Then the client's loop ends and has put just these
  -- bytes on its connection; the host's turns end and start one task for each event, in order,
  -- with no call of the input component made yet. In whatever order these tasks run, one after the
  -- other, none fails, and `handle_input` makes these calls of the input component, in the order of
  -- the tasks: for the event of a mapped key above 0 one `send_virtual_input` with it, and for that
  -- of a button one with its number and one more, a press and a release alike; for a place whose
  -- coordinates, divided by the window's size and cast to `float`, are both above 0 one
  -- `set_cursor_location` with them; and none for any other event. What the input component then
  -- does with the desktop is not stated here.
  pub input_relay :
      (c : CodecLaws packets) (i : InputLaws o) (l : SendLaws ws) (p : Progress ws)
      (u : Unbroken ws) (events order : List (WindowEvent Double)) (d : Daemon Float)
      (nm : NetworkManager Handler) (w : ws.World) (fuel : ℕ) (ts : List Moment) (ticks : ℕ)
      (s : System Float ws.World) (pieces : List (List ℕ)) (w' : ws.World) (t : Moment)
      → d.send_buffer.queue ≡ []
      → All IsShort (map packets.serialize (map (packet_of code o divide g) events))
      → p.busy w + 4 < fuel
      → All
          (λ chunk. p.busy w + length chunk < fuel)
          (map packets.serialize (map (packet_of code o divide g) events))
      → IsListening o ws s
      → IsIdle s.net_mgr.decode_mgr
      → All (IsTimely o ws ticks s.daemon) ts
      → flatten pieces ≡ frames (map packets.serialize (map (packet_of code o divide g) events))
      → Receives ws fuel s.net_mgr.socket (length ts) pieces s.world w'
      → Perm order events
      → All (IsEncodable code o divide g) order
      → (client : System Float ws.World) × (host : System Float ws.World) × (after : Daemon Float)
        × (flush_all o ws fuel nm (foldl (λ x e. window_event code o divide g e x) d events) w
            ≡ some client)
        × (l.sent client.world nm.socket.socket ≡ l.sent w nm.socket.socket ++ flatten pieces)
        × (run_frames o ws fuel ticks ts s ≡ some host)
        × (host.net_mgr.nonblocking_tasks
            ≡ s.net_mgr.nonblocking_tasks ++ map (task_of code o divide g) events)
        × (host.daemon.effects ≡ s.daemon.effects)
        × (run_tasks o ws t (map (task_of code o divide g) order) host.daemon ≡ some after)
        × (after.effects ≡ s.daemon.effects ++ filter_map (action_of code o divide g) order)
        × Perm
            (filter_map (action_of code o divide g) order)
            (filter_map (action_of code o divide g) events)
  input_relay c i l p u events order d nm w fuel ts ticks s pieces w' t none_waits short f fs
        listens idle timely cut received shuffled encodable =
      let sends = map packets.serialize (map (packet_of code o divide g) events) in
      let same = window_events-queue code o divide g events d ∙ ap (λ q. q ++ sends) none_waits in
      let (w1, flushes, grown) =
        flush_all-frames o l p u fuel nm (foldl (λ x e. window_event code o divide g e x) d events)
          w f (subst (All (λ chunk. p.busy w + length chunk < fuel)) (sym same) fs)
          (subst (All IsShort) (sym same) short) in
      let (m, idle', runs) =
        run_frames-packets o ws c ts fuel ticks s pieces (map (packet_of code o divide g) events) w'
          listens idle timely short cut received in
      let sent = l.sent w nm.socket.socket in
      (
        _,
        _,
        _,
        flushes,
        grown ∙ ap (λ q. sent ++ frames q) same ∙ ap (◌++◌ sent) (sym cut),
        runs,
        ap (◌++◌ s.net_mgr.nonblocking_tasks) (tasks_of_packets-events code o divide g ws events),
        refl,
        run_tasks-events code o divide g ws i t order _ encodable,
        refl,
        Perm.filter_map (action_of code o divide g) shuffled,
      )
