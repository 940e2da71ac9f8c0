-- ===== src/Daemon/Naming.antt =====
-- How the daemon gets its name accepted: NEW_USER at the handshake, and again with a longer name at
-- each NAME_TAKEN.
use friendviewer.Prelude.{
  ℕ, zero, suc, ◌≡◌, refl, sym, ◌∙◌, List, [], ◌∷◌, ◌++◌, append-nil, append_assoc, map, replicate,
}
use friendviewer.Packet.{FvPacketType}
use friendviewer.ChunkBuffer.{enqueue_chunk}
use friendviewer.Daemon.Messages.{ServerMessageType, Inner}
use friendviewer.Daemon.{Daemon, Outside, server_magic}
use friendviewer.Daemon.Control.{enqueue_msg, handle_handshake, handle_servmsg}

module _ (o : Outside) where
  open o use {Float, packets, inner}

  -- A NEW_USER packet, as it is sent.
  abbrev pub new_user_packet : List ℕ → List ℕ
  new_user_packet name = packets.serialize (record {
    type = FvPacketType.new_user;
    inner_packet = inner.serialize (Inner.new_user name);
  })

  -- The server's answers to the handshake and to the names: its magic number, and NAME_TAKEN some
  -- times.
  pub taken : ℕ → Daemon Float → Daemon Float
  taken zero d = d
  taken (suc n) d = taken n (handle_servmsg o ServerMessageType.name_taken d)

  -- The names that are tried after this one.
  pub retries : ℕ → List ℕ → List (List ℕ)
  retries zero name = []
  retries (suc n) name = (name ++ (b'1' ∷ [])) ∷ retries n (name ++ (b'1' ∷ []))

  taken-retries :
      (n : ℕ) (d : Daemon Float)
      → ((taken n d).username ≡ d.username ++ replicate n b'1')
        × ((taken n d).send_buffer.queue
            ≡ d.send_buffer.queue ++ map new_user_packet (retries n d.username))
        × ((taken n d).running ≡ d.running)
  unfolding taken retries handle_servmsg enqueue_msg enqueue_chunk
  taken-retries zero d = (sym (append-nil _), sym (append-nil _), refl)
  taken-retries (suc n) d =
      let d' = handle_servmsg o ServerMessageType.name_taken d in
      let (name, queue, runs) = taken-retries n d' in
      (
        name ∙ append_assoc d.username (b'1' ∷ []) (replicate n b'1'),
        queue ∙ append_assoc d.send_buffer.queue _ _,
        runs,
      )

  -- A server that shows its magic number and then says NAME_TAKEN n times: the daemon runs on as
  -- before, its name has n times the digit 1 behind it, and it has enqueued NEW_USER with the first
  -- name and then with one more 1 each time.
  pub handshake-retries :
      (n : ℕ) (d : Daemon Float)
      → ((taken n (handle_handshake o server_magic d)).username ≡ d.username ++ replicate n b'1')
        × ((taken n (handle_handshake o server_magic d)).send_buffer.queue
            ≡ d.send_buffer.queue ++ map new_user_packet (d.username ∷ retries n d.username))
        × ((taken n (handle_handshake o server_magic d)).running ≡ d.running)
  unfolding handle_handshake enqueue_msg enqueue_chunk
  handshake-retries n d =
      let (name, queue, runs) = taken-retries n (handle_handshake o server_magic d) in
      (name, queue ∙ append_assoc d.send_buffer.queue _ _, runs)
