-- ===== src/ClientSocket.antt =====
-- prototype/daemon/networking/client_socket.{hh,cc}: the daemon's end of the connection. The
-- operating system (Winsock) is a parameter. A text is the list of its bytes.
pub mod Send
pub mod SendEnds
pub mod Receive
pub mod Handles
pub mod Runs
use friendviewer.Prelude.{
  ℕ, zero, suc, ◌%◌, ◌^◌, Bool, true, false, ◌&&◌, Option, none, some, List, [], ◌∷◌, ◌++◌, ◌==◌,
  ltb, if◌then◌else◌, length, take, drop,
}
use friendviewer.Prelude.Words.{ℤ, pos, negsuc, signed32, le32}

-- What the class calls. A handle `none` is INVALID_SOCKET, and an answer `none` of `send` and
-- `recv` is SOCKET_ERROR.
pub record Winsock : Type 1 where
  pub World : Type 0
  pub startup : World → World
  pub create : World → Option ℕ × World
  pub htons : ℕ → ℕ
  pub inet_addr : List ℕ → ℕ
  pub connect_to : World → ℕ → ℕ → ℕ → Bool × World
  pub set_nonblocking : World → ℕ → World
  pub send : World → Option ℕ → List ℕ → Option ℕ × World
  -- `send` with a negative length.
  pub send_negative : World → Option ℕ → ℕ → Option ℕ × World
  pub recv : World → Option ℕ → ℕ → Option (List ℕ) × World
  pub last_error : World → ℕ
  pub close_handle : World → ℕ → World
  pub wsa_would_block : ℕ

pub record ClientSocket : Type 0 where
  pub socket : Option ℕ
  pub remote_addr : List ℕ
  pub port : ℕ

pub data ReceiveStatus : Type 0 where
  success failure continue : ReceiveStatus

abbrev pub no_socket : ClientSocket
no_socket = record { socket = none; remote_addr = []; port = 0 }

module _ (ws : Winsock) where
  open ws use {
    World, startup, create, htons, inet_addr, connect_to, set_nonblocking, send, send_negative,
    recv, last_error, close_handle, wsa_would_block,
  }

  -- The constructor, with the static `winsock_init_` before and after.
  unfoldable pub construct : World → Bool → ClientSocket × World × Bool
  construct w winsock_init =
      if winsock_init then (no_socket, w, true) else (no_socket, startup w, true)

  unfoldable pub close : ClientSocket → World → ClientSocket × World
  close c w = elim c.socket [ none ↦ (no_socket, w) | some s ↦ (no_socket, close_handle w s) ]

  dial : ℕ → List ℕ → ℕ → World → Bool × ClientSocket × World
  dial s address port w =
      let c : ClientSocket = record { socket = some s; remote_addr = address; port = port } in
      let (reached, w') = connect_to w s (inet_addr address) (htons port) in
      let (closed, w'') = close c w' in
      if reached then (true, c, set_nonblocking w' s) else (false, closed, w'')

  -- Lines 27 to 46, after an open socket was closed.
  dial_fresh : ClientSocket → List ℕ → ℕ → World → Bool × ClientSocket × World
  unfolding dial close
  dial_fresh c address port w =
      let (handle, w') = create w in
      elim handle [
        | none ↦ (false, record c { socket = none }, w')
        | some s ↦ dial s address port w'
      ]

  unfoldable pub connect : ClientSocket → List ℕ → ℕ → World → Bool × ClientSocket × World
  unfolding dial_fresh close
  connect c address port w =
      let (closed, w') = close c w in
      elim c.socket [
        | none ↦ dial_fresh c address port w
        | some s ↦ dial_fresh closed address port w'
      ]

  -- The overload on a vector: one call of `send` for each part.
  unfoldable pub send_data_vector : ClientSocket → List ℕ → World → Bool × World
  send_data_vector c bytes w =
      let (r1, w') = send w c.socket (le32 (length bytes % 2 ^ 32)) in
      let (r2, w'') = send w' c.socket bytes in (is_sent r1 && is_sent r2, w'')
    where
      is_sent : Option ℕ → Bool
      is_sent none = false
      is_sent (some n) = true

  -- The loop of `send_block`: the list is the `len` bytes at `data + offset`. `none`: not ended
  -- within the fuel.
  unfoldable pub send_loop : ℕ → Option ℕ → List ℕ → World → Option (Bool × World)
  send_loop zero s bytes w = none
  send_loop (suc fuel) s bytes w =
      let (amt_sent, w') = send w s bytes in
      elim amt_sent [
        | none ↦ elim (last_error w' == 10035) [
          | false ↦ some (false, w')
          | true ↦ elim (ltb 0 (length bytes)) [
            | true ↦ send_loop fuel s bytes w'
            | false ↦ some (true, w')
          ]
        ]
        | some n ↦ elim (ltb 0 (length (drop n bytes))) [
          | true ↦ send_loop fuel s (drop n bytes) w'
          | false ↦ some (true, w')
        ]
      ]

  -- The bytes of `data` and the `int` that is said to be their number. The loop goes round once for
  -- a negative one.
  unfoldable pub send_block : ℕ → Option ℕ → List ℕ → ℤ → World → Option (Bool × World)
  send_block fuel s bytes (pos n) w = send_loop fuel s (take n bytes) w
  send_block fuel s bytes (negsuc n) w =
      let (amt_sent, w') = send_negative w s n in
      elim amt_sent [ none ↦ some (last_error w' == 10035, w') | some sent ↦ some (true, w') ]

  -- The overload on a text: `len` and `data.size()` are narrowed, to a `uint32_t` and to an `int`.
  -- The second block is sent whatever came of the first.
  unfoldable pub send_data : ℕ → ClientSocket → List ℕ → World → Option (Bool × World)
  send_data fuel c bytes w =
      elim (send_block fuel c.socket (le32 (length bytes % 2 ^ 32)) (pos 4) w) [
        | none ↦ none
        | some (r1, w') ↦
            elim (send_block fuel c.socket bytes (signed32 (length bytes % 2 ^ 32)) w') [
              | none ↦ none
              | some (r2, w'') ↦ some (r1 && r2, w'')
            ]
      ]

  -- `received` and `data_out` so far; the result has them at the first SOCKET_ERROR.
  unfoldable pub receive_loop :
      ℕ → Option ℕ → Bool → List ℕ → World → Option (Bool × List ℕ × World)
  receive_loop zero s received out w = none
  receive_loop (suc fuel) s received out w =
      let (status, w') = recv w s 4096 in
      elim status [
        | none ↦ some (received, out, w')
        | some bytes ↦ receive_loop fuel s true (out ++ bytes) w'
      ]

  unfoldable pub receive_data : ℕ → ClientSocket → World → Option (ReceiveStatus × List ℕ × World)
  receive_data fuel c w = elim (receive_loop fuel c.socket false [] w) [
    | none ↦ none
    | some (received, out, w') ↦ some (
      (if last_error w' == wsa_would_block
          then (if received then success else continue)
          else failure),
      out,
      w',
    )
  ]
