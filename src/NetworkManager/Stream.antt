-- ===== src/NetworkManager/Stream.antt =====
-- Polls on the pieces of a stream: prototype/daemon/networking/network_manager.cc, `poll_network`
-- as `run_frame` calls it, once a frame and without waiting for tasks.
use mathlib.Core.List.{foldl-append, flatten}
use mathlib.Core.Path.{subst}
use friendviewer.Prelude.{
  ℕ, zero, suc, ◌≡◌, refl, sym, ◌∙◌, ap, Bool, true, false, Option, none, some, List, [], ◌∷◌, ◌++◌,
  foldl, map, All, append-nil, ◌≢◌,
}
use friendviewer.Packet.{FvPacket, PacketCodec, CodecLaws}
use friendviewer.MessageManager.{MessageManager}
use friendviewer.MessageManager.Feed.{IsValid, feed, parse_blob-feed, feeds-IsValid}
use friendviewer.MessageManager.Batches.{behind, feeds-behind}
use friendviewer.MessageManager.Wire.{frames}
use friendviewer.MessageManager.RoundTrip.{IsShort, IsIdle, IsIdle-IsValid, feeds-frames}
use friendviewer.ClientSocket.{Winsock, ClientSocket, ReceiveStatus, success, receive_data}
use friendviewer.NetworkManager.{
  NetworkManager, Handlers, Dispatch, Polled, call_handlers, handle_message, unpolled,
  poll_received, poll_network,
}
use friendviewer.NetworkManager.Poll.{
  dispatched, polled, poll_blob-polled, poll_network-connected, poll_received-nothing,
}
use friendviewer.NetworkManager.Delivery.{delivered, handle_message-delivered}

-- Receives on a socket, one after the other: how many, what the successful ones returned, and how
-- they change the world.
pub data Receives (ws : Winsock) (fuel : ℕ) (c : ClientSocket)
    : ℕ → List (List ℕ) → ws.World → ws.World → Type 0 where
  done : {w : ws.World} → Receives ws fuel c zero [] w w
  piece :
      {n : ℕ} {w w2 : ws.World} (pieces : List (List ℕ)) (w1 : ws.World) (blob : List ℕ)
      → receive_data ws fuel c w ≡ some (success, blob, w1)
      → Receives ws fuel c n pieces w1 w2
      → Receives ws fuel c (suc n) (blob ∷ pieces) w w2
  nothing :
      {n : ℕ} {pieces : List (List ℕ)} {w w2 : ws.World} (w1 : ws.World) (status : ReceiveStatus)
      (out : List ℕ)
      → receive_data ws fuel c w ≡ some (status, out, w1)
      → status ≢ success
      → Receives ws fuel c n pieces w1 w2
      → Receives ws fuel c (suc n) pieces w w2

module _ {ℓ κ} {Cb : Type ℓ} {S : Type κ} (ws : Winsock) (call : Cb → S → List ℕ → S)
    (codec : PacketCodec) where
  -- A number of polls that do not wait.
  unfoldable pub polls : ℕ → ℕ → NetworkManager Cb → S → ws.World → Option (Polled Cb S ws.World)
  polls zero fuel nm shared w = some (unpolled ws call codec nm shared w)
  polls (suc n) fuel nm shared w = elim (poll_network ws call codec fuel false nm shared w) [
    | none ↦ none
    | some p ↦ polls n fuel p.manager p.shared p.world
  ]

module _ {ℓ κ} {Cb : Type ℓ} {S : Type κ} (call : Cb → S → List ℕ → S) (codec : PacketCodec) where
  call_handlers-tasks :
      (handlers : List (Bool × Cb)) (packet : FvPacket) (d : Dispatch Cb S)
      → (call_handlers call codec false packet handlers d).tasks ≡ d.tasks
  unfolding call_handlers
  call_handlers-tasks [] packet d = refl
  call_handlers-tasks ((true, cb) ∷ rest) packet d =
      call_handlers-tasks rest (codec.moved_from packet) _
  call_handlers-tasks ((false, cb) ∷ rest) packet d = call_handlers-tasks rest packet _

  handle_message-tasks :
      (messages : List (List ℕ)) (handlers : Handlers Cb) (d : Dispatch Cb S)
      → (foldl (handle_message call codec false handlers) d messages).tasks ≡ d.tasks
  unfolding handle_message
  handle_message-tasks [] handlers d = refl
  handle_message-tasks (x ∷ xs) handlers d =
      handle_message-tasks xs handlers (handle_message call codec false handlers d x)
      ∙ call_handlers-tasks (handlers (codec.parse x).type) (codec.parse x) d

pub All-split {ℓ κ} :
    {A : Type ℓ} (P : A → Type κ) (xs ys : List A) → All P (xs ++ ys) → All P xs × All P ys
All-split P [] ys h = (tt, h)
All-split P (x ∷ xs) ys h = let (k, l) = All-split P xs ys h.1 in ((h.0, k), l)

-- What the parser has queued from a stream, by where the stream is cut: the messages of the front,
-- and then those of the rest, parsed from an empty queue.
pub feeds-cut :
    (m : MessageManager) (front rest : List ℕ)
    → foldl feed m (front ++ rest)
      ≡ behind
          (foldl feed m front).message_buffers
          (foldl feed (record (foldl feed m front) { message_buffers = [] }) rest)
feeds-cut m front rest =
    let m1 = foldl feed m front in
    foldl-append feed m front rest
    ∙ ap (λ q. foldl feed (record m1 { message_buffers = q }) rest)
        (sym (append-nil m1.message_buffers))
    ∙ feeds-behind rest m1.message_buffers (record m1 { message_buffers = [] })

module _ {ℓ κ} {Cb : Type ℓ} {S : Type κ} (ws : Winsock) (call : Cb → S → List ℕ → S)
    (codec : PacketCodec) where
  -- What polls leave of a stream that was received.
  abbrev pub streamed : NetworkManager Cb → S → List ℕ → ws.World → Polled Cb S ws.World
  streamed nm shared stream w =
      let m = foldl feed nm.decode_mgr stream in
      polled ws call codec nm m (dispatched ws call codec false nm shared m.message_buffers) w

  pub poll_network-piece :
      (fuel : ℕ) (nm : NetworkManager Cb) (shared : S) (w w1 : ws.World) (blob : List ℕ)
      → nm.connected ≡ true
      → IsValid nm.decode_mgr
      → All IsShort (foldl feed nm.decode_mgr blob).message_buffers
      → receive_data ws fuel nm.socket w ≡ some (success, blob, w1)
      → poll_network ws call codec fuel false nm shared w ≡ some (streamed nm shared blob w1)
  unfolding poll_received
  poll_network-piece fuel nm shared w w1 blob on v short got =
      poll_network-connected ws call codec fuel false nm shared w w1 success blob on got
      ∙ poll_blob-polled ws call codec false nm shared blob w1 (foldl feed nm.decode_mgr blob)
          (parse_blob-feed nm.decode_mgr blob v) short

  -- A stream that is received behind another.
  streamed-append :
      (nm : NetworkManager Cb) (shared : S) (front rest : List ℕ) (w1 w : ws.World)
      → streamed (streamed nm shared front w1).manager (streamed nm shared front w1).shared rest w
        ≡ streamed nm shared (front ++ rest) w
  streamed-append nm shared front rest w1 w =
      let m1 = foldl feed nm.decode_mgr front in
      let m2 = foldl feed (record m1 { message_buffers = [] }) rest in
      let handle = handle_message call codec false nm.handlers in
      let d1 = dispatched ws call codec false nm shared m1.message_buffers in
      ap
        (λ t.
          polled ws call codec nm m2
            (foldl handle
              (record { shared = d1.shared; tasks = t; nonblocking_tasks = d1.nonblocking_tasks })
              m2.message_buffers)
            w)
        (sym (handle_message-tasks call codec m1.message_buffers nm.handlers _))
      ∙ ap (λ d. polled ws call codec nm m2 d w)
          (sym (foldl-append handle _ m1.message_buffers m2.message_buffers))
      ∙ ap
          (λ (m : MessageManager).
            polled ws call codec nm m (dispatched ws call codec false nm shared m.message_buffers)
              w)
          (sym (feeds-cut nm.decode_mgr front rest))

  polls-streamed :
      (n fuel : ℕ) (nm : NetworkManager Cb) (shared : S) (pieces : List (List ℕ)) (w w' : ws.World)
      → nm.connected ≡ true
      → IsValid nm.decode_mgr
      → nm.decode_mgr.message_buffers ≡ []
      → All IsShort (foldl feed nm.decode_mgr (flatten pieces)).message_buffers
      → Receives ws fuel nm.socket n pieces w w'
      → polls ws call codec n fuel nm shared w ≡ some (streamed nm shared (flatten pieces) w')
  unfolding polls flatten
  polls-streamed zero fuel nm shared pieces w w' on v empty short done =
      ap
        (λ q. some (
          unpolled ws call codec
            (record nm { decode_mgr = record (nm.decode_mgr) { message_buffers = q } }) shared w))
        empty
      ∙ sym (
          ap
            (λ q. some (
              polled ws call codec nm nm.decode_mgr (dispatched ws call codec false nm shared q) w))
            empty)
  polls-streamed (suc n) fuel nm shared pieces w w' on v empty short
        (piece blobs w1 blob got rest) =
      let m1 = foldl feed nm.decode_mgr blob in
      let (short1, short2) = All-split IsShort m1.message_buffers _ (
        subst (λ (m : MessageManager). All IsShort m.message_buffers)
          (feeds-cut nm.decode_mgr blob (flatten blobs)) short) in
      let p = streamed nm shared blob w1 in
      let v1 = feeds-IsValid nm.decode_mgr blob v in
      rw (poll_network-piece fuel nm shared w w1 blob on v short1 got, polls)
        (polls-streamed n fuel p.manager p.shared blobs w1 w' on
            (record { open_part = v1.open_part; in_range = v1.in_range }) refl short2 rest
          ∙ ap some (streamed-append nm shared blob (flatten blobs) w1 w'))
  polls-streamed (suc n) fuel nm shared pieces w w' on v empty short
        (nothing w1 status out got bad rest) =
      rw
        (
          poll_network-connected ws call codec fuel false nm shared w w1 status out on got
              ∙ poll_received-nothing ws call codec false nm shared status out w1 bad,
          polls,
        )
        (polls-streamed n fuel nm shared pieces w1 w' on v empty short rest)

module _ {ℓ κ} {Cb : Type ℓ} {S : Type κ} (ws : Winsock) (call : Cb → S → List ℕ → S)
    {codec : PacketCodec} (c : CodecLaws codec) where
  -- With packets that are read back as they were written, each below 2 ^ 31 bytes as it is written:
  -- polls that do not wait, on a connected manager whose parser is idle with no message waiting,
  -- while the successful receives on its socket return the packets' frames, cut anywhere, among
  -- others that return nothing. They end, have called the handlers of each packet's type on the
  -- packet, packet by packet in the order sent, and leave the parser idle with an empty queue.
  pub polls-packets :
      (n fuel : ℕ) (nm : NetworkManager Cb) (shared : S) (pieces : List (List ℕ))
      (packets : List FvPacket) (w w' : ws.World)
      → nm.connected ≡ true
      → IsIdle nm.decode_mgr
      → nm.decode_mgr.message_buffers ≡ []
      → All IsShort (map codec.serialize packets)
      → flatten pieces ≡ frames (map codec.serialize packets)
      → Receives ws fuel nm.socket n pieces w w'
      → (m : MessageManager) × IsIdle m
        × (polls ws call codec n fuel nm shared w
            ≡ some (
                polled ws call codec nm m
                  (delivered call c false nm.handlers
                    (record {
                      shared = shared;
                      tasks = [];
                      nonblocking_tasks = nm.nonblocking_tasks;
                    })
                    packets)
                  w'))
  polls-packets n fuel nm shared pieces packets w w' on idle empty short cut received =
      let messages = map codec.serialize packets in
      let (idle', grown) = feeds-frames messages nm.decode_mgr idle short in
      let m = foldl feed nm.decode_mgr (frames messages) in
      let queued : m.message_buffers ≡ messages = grown ∙ ap (λ q. q ++ messages) empty in
      let parsed = subst (All IsShort) (sym queued) short in
      (
        m,
        idle',
        polls-streamed ws call codec n fuel nm shared pieces w w' on
              (IsIdle-IsValid nm.decode_mgr idle) empty
              (subst (λ s. All IsShort (foldl feed nm.decode_mgr s).message_buffers) (sym cut)
                parsed)
              received
            ∙ ap (λ s. some (streamed ws call codec nm shared s w')) cut
            ∙ ap
                (λ q.
                  some (polled ws call codec nm m (dispatched ws call codec false nm shared q) w'))
                queued
            ∙ ap (λ d. some (polled ws call codec nm m d w'))
                (handle_message-delivered call c packets false nm.handlers _),
      )
