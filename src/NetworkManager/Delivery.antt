-- ===== src/NetworkManager/Delivery.antt =====
-- Which handler gets which bytes of the packets that are received.
use friendviewer.Prelude.{
  ℕ, ◌≡◌, refl, sym, ◌∙◌, ap, Bool, true, false, some, List, [], ◌∷◌, ◌++◌, foldl, map, All,
  append-nil, append_assoc,
}
use friendviewer.Packet.{FvPacket, PacketCodec, CodecLaws}
use friendviewer.MessageManager.{MessageManager}
use friendviewer.MessageManager.Wire.{frames}
use friendviewer.MessageManager.RoundTrip.{IsShort, IsIdle}
use friendviewer.ClientSocket.{Winsock, success, receive_data}
use friendviewer.NetworkManager.{
  NetworkManager, Handlers, Task, Dispatch, call_handlers, handle_message, poll_network,
}
use friendviewer.NetworkManager.Poll.{polled, poll_network-frames}

module _ {ℓ κ} {Cb : Type ℓ} {S : Type κ} (call : Cb → S → List ℕ → S) {codec : PacketCodec}
    (c : CodecLaws codec) where
  -- Each packet goes to the handlers of its type, one packet after the other.
  abbrev pub delivered : Bool → Handlers Cb → Dispatch Cb S → List FvPacket → Dispatch Cb S
  delivered block handlers =
      foldl
        (λ (d : Dispatch Cb S) (p : FvPacket). call_handlers call codec block p (handlers p.type) d)

  pub handle_message-delivered :
      (packets : List FvPacket) (block : Bool) (handlers : Handlers Cb) (d : Dispatch Cb S)
      → foldl (handle_message call codec block handlers) d (map codec.serialize packets)
        ≡ delivered block handlers d packets
  unfolding handle_message
  handle_message-delivered [] block handlers d = refl
  handle_message-delivered (p ∷ ps) block handlers d =
      handle_message-delivered ps block handlers
        (handle_message call codec block handlers d (codec.serialize p))
      ∙ ap
          (λ (q : FvPacket).
            delivered block handlers (call_handlers call codec block q (handlers q.type) d) ps)
          (c.parse-serialize p)

  -- With packets that are read back as they were written: a poll on a connected manager whose parser is idle with no message waiting, when the socket
  -- receives the frames of some packets, each below 2 ^ 31 bytes as it is written: it ends, has
  -- called the handlers of each packet's type on the packet, packet by packet in the order sent,
  -- and leaves the parser idle with an empty queue.
  pub poll_network-packets :
      (ws : Winsock) (fuel : ℕ) (block : Bool) (nm : NetworkManager Cb) (shared : S)
      (w w' : ws.World) (packets : List FvPacket)
      → nm.connected ≡ true
      → IsIdle nm.decode_mgr
      → nm.decode_mgr.message_buffers ≡ []
      → All IsShort (map codec.serialize packets)
      → receive_data ws fuel nm.socket w ≡ some (success, frames (map codec.serialize packets), w')
      → (m : MessageManager) × IsIdle m
        × (poll_network ws call codec fuel block nm shared w
            ≡ some (
                polled ws call codec nm m
                  (delivered block nm.handlers
                    (record {
                      shared = shared;
                      tasks = [];
                      nonblocking_tasks = nm.nonblocking_tasks;
                    })
                    packets)
                  w'))
  poll_network-packets ws fuel block nm shared w w' packets on idle empty short got =
      let (m, i, e) =
        poll_network-frames ws call codec fuel block nm shared w w' (map codec.serialize packets) on
          idle empty short got in
      (
        m,
        i,
        e
            ∙ ap (λ d. some (polled ws call codec nm m d w'))
                (handle_message-delivered packets block nm.handlers _),
      )

module _ {ℓ κ} {Cb : Type ℓ} {S : Type κ} (call : Cb → S → List ℕ → S) (codec : PacketCodec) where
  -- The tasks that a list of task handlers starts for a packet.
  abbrev pub tasks_of : List ℕ → List Cb → List (Task Cb)
  tasks_of inner cbs = map (λ cb. record { callback = cb; inner = inner }) cbs

  moved_handlers :
      (others : List Cb) (packet : FvPacket) (d : Dispatch Cb S)
      → ((p : FvPacket) → (codec.moved_from p).inner_packet ≡ [])
      → packet.inner_packet ≡ []
      → (call_handlers call codec false packet (map (λ cb. (true, cb)) others) d).nonblocking_tasks
        ≡ d.nonblocking_tasks ++ tasks_of [] others
  unfolding call_handlers
  moved_handlers [] packet d h e = sym (append-nil _)
  moved_handlers (cb ∷ others) packet d h e =
      let spawned : Task Cb = record { callback = cb; inner = packet.inner_packet } in
      moved_handlers others (codec.moved_from packet)
        (record d { nonblocking_tasks = d.nonblocking_tasks ++ (spawned ∷ []) }) h (h packet)
      ∙ append_assoc d.nonblocking_tasks (spawned ∷ []) (tasks_of [] others)
      ∙ ap (λ i. d.nonblocking_tasks ++ (record { callback = cb; inner = i } ∷ tasks_of [] others))
          e

  -- Where several task handlers subscribe to a packet type, and a packet that was moved away has no
  -- bytes: in a poll that does not wait, only the first of the list gets the
  -- bytes of the packet; it moves them away, and each of the others gets none.
  pub call_handlers_moved :
      (first : Cb) (others : List Cb) (packet : FvPacket) (d : Dispatch Cb S)
      → ((p : FvPacket) → (codec.moved_from p).inner_packet ≡ [])
      → (call_handlers call codec false packet
          (map (λ cb. (true, cb)) (first ∷ others))
          d).nonblocking_tasks
        ≡ d.nonblocking_tasks ++ (tasks_of packet.inner_packet (first ∷ []) ++ tasks_of [] others)
  unfolding call_handlers
  call_handlers_moved first others packet d h =
      let spawned : Task Cb = record { callback = first; inner = packet.inner_packet } in
      moved_handlers others (codec.moved_from packet)
        (record d { nonblocking_tasks = d.nonblocking_tasks ++ (spawned ∷ []) }) h (h packet)
      ∙ append_assoc d.nonblocking_tasks (spawned ∷ []) (tasks_of [] others)
