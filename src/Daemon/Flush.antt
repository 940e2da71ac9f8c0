-- ===== src/Daemon/Flush.antt =====
-- The loop of `run_frame` that sends what the handlers have enqueued.
use friendviewer.Prelude.{
  ℕ, suc, ◌+◌, ◌^◌, ◌≤◌, ◌<◌, ◌≡◌, refl, sym, ◌∙◌, ap, some, List, [], ◌∷◌, ◌++◌, arith, length,
  All, append-nil, append_assoc,
}
use friendviewer.MessageManager.Wire.{frame, frames}
use friendviewer.MessageManager.RoundTrip.{IsShort}
use friendviewer.ChunkBuffer
use friendviewer.ChunkBuffer.{ChunkBuffer, dequeue_chunk}
use friendviewer.ClientSocket.{Winsock}
use friendviewer.ClientSocket.Send.{SendLaws, send_data-frame}
use friendviewer.ClientSocket.SendEnds.{Progress, Unbroken, send_data-Ends, send_data_succeeds}
use friendviewer.NetworkManager.{NetworkManager, send_message}
use friendviewer.Daemon.{Daemon, Outside}
use friendviewer.Daemon.Control.{Handler}
use friendviewer.Daemon.Frame.{flush, flush_all}

module _ (o : Outside) {ws : Winsock} (l : SendLaws ws) (p : Progress ws) (u : Unbroken ws) where
  open o use {Float}

  -- A message is sent whole.
  send_message_sent :
      (fuel : ℕ) (nm : NetworkManager Handler) (chunk : List ℕ) (w : ws.World)
      → p.busy w + 4 < fuel
      → p.busy w + length chunk < fuel
      → length chunk < 2 ^ 31
      → (w' : ws.World) × (send_message ws fuel nm chunk w ≡ some w')
        × (l.sent w' nm.socket.socket ≡ l.sent w nm.socket.socket ++ frame chunk)
        × (p.busy w' ≤ p.busy w)
  unfolding send_message
  send_message_sent fuel nm chunk w h k short =
      let (r, w', e, le) = send_data-Ends p fuel nm.socket chunk w h k short in
      let t = send_data_succeeds u fuel nm.socket chunk w w' r short e in
      (
        w',
        rw (e, send_message),
        send_data-frame l fuel nm.socket chunk w w' short (e ∙ ap (λ b. some (b, w')) t),
        le,
      )

  abbrev pub Fits : ℕ → ws.World → List ℕ → Type 0
  Fits fuel w chunk = (p.busy w + length chunk < fuel) × (length chunk < 2 ^ 31)

  pub Fits-later :
      (fuel : ℕ) (w w' : ws.World) (chunks : List (List ℕ))
      → p.busy w' ≤ p.busy w
      → All (Fits fuel w) chunks
      → All (Fits fuel w') chunks
  Fits-later fuel w w' [] le h = h
  Fits-later fuel w w' (c ∷ cs) le h =
      ((omega (arith, h.0.0), h.0.1), Fits-later fuel w w' cs le h.1)

  pub Fits-All :
      (fuel : ℕ) (w : ws.World) (chunks : List (List ℕ))
      → All (λ chunk. p.busy w + length chunk < fuel) chunks
      → All IsShort chunks
      → All (Fits fuel w) chunks
  Fits-All fuel w [] h k = tt
  Fits-All fuel w (c ∷ cs) h k = ((h.0, k.0), Fits-All fuel w cs h.1 k.1)

  flush-frames :
      (queue : List (List ℕ)) (fuel : ℕ) (nm : NetworkManager Handler) (b : ChunkBuffer (List ℕ))
      (chunk : List ℕ) (w : ws.World)
      → b.queue ≡ queue
      → p.busy w + 4 < fuel
      → All (Fits fuel w) queue
      → (w' : ws.World) × (flush o ws (suc (length queue)) fuel nm b chunk w
          ≡ some (ChunkBuffer.empty, w'))
        × (l.sent w' nm.socket.socket ≡ l.sent w nm.socket.socket ++ frames queue)
        × (p.busy w' ≤ p.busy w)
  unfolding flush dequeue_chunk frames
  flush-frames [] fuel nm b chunk w e h k = (w, ground arith, sym (append-nil _), omega arith)
  flush-frames (c ∷ cs) fuel nm b chunk w e h k =
      let (w1, sends, grown, le) = send_message_sent fuel nm c w h k.0.0 k.0.1 in
      let (w2, ends, rest, le') =
        flush-frames cs fuel nm (record { queue = cs }) c w1 refl (omega arith)
          (Fits-later fuel w w1 cs le k.1) in
      (
        w2,
        ground arith,
        rest ∙ ap (λ x. x ++ frames cs) grown ∙ append_assoc _ (frame c) (frames cs),
        omega (arith, le, le'),
      )

  -- The same of the whole send buffer.
  pub flush_all-ends :
      (fuel : ℕ) (nm : NetworkManager Handler) (d : Daemon Float) (w : ws.World)
      → p.busy w + 4 < fuel
      → All (Fits fuel w) d.send_buffer.queue
      → (w' : ws.World) × (flush_all o ws fuel nm d w
          ≡ some (record {
            daemon = record d { send_buffer = ChunkBuffer.empty };
            net_mgr = nm;
            world = w';
          }))
        × (l.sent w' nm.socket.socket ≡ l.sent w nm.socket.socket ++ frames d.send_buffer.queue)
        × (p.busy w' ≤ p.busy w)
  unfolding flush_all
  flush_all-ends fuel nm d w h k =
      let (w', e, grown, le) =
        flush-frames d.send_buffer.queue fuel nm d.send_buffer [] w refl h k in
      (w', rw (e, flush_all), grown, le)

  -- Where `send` takes a front of what it is given, or nothing, and says so, on a connection that
  -- stays up to a peer that reads, with fuel for the longest packet and every packet below 2 ^ 31
  -- bytes: the loop of `run_frame` ends, has put every packet of the send buffer on the connection,
  -- each in its frame and in the order of their enqueuing, and leaves the buffer empty and the rest
  -- of the daemon as it was.
  pub flush_all-frames :
      (fuel : ℕ) (nm : NetworkManager Handler) (d : Daemon Float) (w : ws.World)
      → p.busy w + 4 < fuel
      → All (λ chunk. p.busy w + length chunk < fuel) d.send_buffer.queue
      → All IsShort d.send_buffer.queue
      → (w' : ws.World) × (flush_all o ws fuel nm d w
          ≡ some (record {
            daemon = record d { send_buffer = ChunkBuffer.empty };
            net_mgr = nm;
            world = w';
          }))
        × (l.sent w' nm.socket.socket ≡ l.sent w nm.socket.socket ++ frames d.send_buffer.queue)
  flush_all-frames fuel nm d w h k short =
      let (w', e, grown, le) =
        flush_all-ends fuel nm d w h (Fits-All fuel w d.send_buffer.queue k short) in
      (w', e, grown)
