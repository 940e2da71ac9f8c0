-- ===== src/ClientSocket/Runs.antt =====
-- The socket over a small network: `send` takes up to three bytes at a time, after some tries.
use friendviewer.Prelude.{
  ℕ, zero, suc, ◌+◌, ◌-◌, ◌≤◌, ◌<◌, ◌≡◌, ◌≢◌, ◌⊎◌, refl, sym, All, length-append, true, ◌↔◌, Option,
  none, some, List, [], ◌∷◌, ◌++◌, arith, length, take, min,
}
use mathlib.Core.List.{flatten}
use mathlib.Core.Path.{subst}
use friendviewer.Prelude.Words.{le32}
use friendviewer.MessageManager.Wire.{frame}
use friendviewer.ClientSocket.{
  Winsock, ClientSocket, ReceiveStatus, success, failure, continue, send_loop, send_block,
  send_data, receive_loop, receive_data, connect, send_data_vector,
}
use friendviewer.ClientSocket.Send.{SendLaws, send_data-frame}
use friendviewer.ClientSocket.SendEnds.{Progress}
use friendviewer.ClientSocket.Receive.{
  ReceiveLaws, IsOpen, PeerClosed, receive_data_lem, receive_data_ends, receive_data_closed,
}
use friendviewer.ClientSocket.Handles.{HandleLaws, held, connect_handles, send_data_vector_short}

pub record Net : Type 0 where
  pub sent : List ℕ
  pub tries : ℕ
  pub inbox : List (List ℕ)
  pub received : List ℕ
  pub handles : ℕ

abbrev pub net_send : Net → List ℕ → ℕ → Option ℕ × Net
net_send n bytes zero =
    (some (min 3 (length bytes)), record n { sent = n.sent ++ take (min 3 (length bytes)) bytes })
net_send n bytes (suc t) = (none, record n { tries = t })

abbrev net_recv : Net → List (List ℕ) → Option (List ℕ) × Net
net_recv n [] = (none, n)
net_recv n (chunk ∷ rest) = (some chunk, record n { inbox = rest; received = n.received ++ chunk })

abbrev pub net : Winsock
net = record {
  World = Net;
  startup = λ n. n;
  create = λ n. (some 5, record n { handles = n.handles + 1 });
  htons = λ p. p;
  inet_addr = λ a. 0;
  connect_to = λ n s a p. (true, n);
  set_nonblocking = λ n s. n;
  send = λ n s bytes. net_send n bytes n.tries;
  send_negative = λ n s k. (none, n);
  recv = λ n s k. net_recv n n.inbox;
  last_error = λ n. 10035;
  close_handle = λ n s. record n { handles = n.handles - 1 };
  wsa_would_block = 10035;
}

abbrev pub quiet : Net
quiet = record {
  sent = [];
  tries = 2;
  inbox = (1 ∷ 2 ∷ []) ∷ (3 ∷ []) ∷ [];
  received = [];
  handles = 1;
}

abbrev pub opened : ClientSocket
opened = record { socket = some 5; remote_addr = 49 ∷ []; port = 61235 }

pub net_accepts :
    (n : Net) (bytes : List ℕ) (t k : ℕ)
    → (net_send n bytes t).0 ≡ some k
    → (k ≤ length bytes) × ((net_send n bytes t).1.sent ≡ n.sent ++ take k bytes)
net_accepts n bytes zero k e = ground arith
net_accepts n bytes (suc t) k e = absurd (ground arith)

pub net_refuses :
    (n : Net) (bytes : List ℕ) (t : ℕ)
    → (net_send n bytes t).0 ≡ none
    → (net_send n bytes t).1.sent ≡ n.sent
net_refuses n bytes zero e = absurd (ground arith)
net_refuses n bytes (suc t) e = refl

abbrev pub net-SendLaws : SendLaws net
net-SendLaws = record {
  sent = λ n s. n.sent;
  accepts = λ n s bytes k e. net_accepts n bytes n.tries k e;
  refuses = λ n s bytes e. net_refuses n bytes n.tries e;
}

pub net_progress :
    (n : Net) (bytes : List ℕ) (t : ℕ)
    → n.tries ≡ t
    → ((net_send n bytes t).1.tries ≤ n.tries)
      × ((k : ℕ) → 0 < length bytes → (net_send n bytes t).0 ≡ some k → 0 < k)
      × ((net_send n bytes t).0 ≡ none → (net_send n bytes t).1.tries < n.tries)
net_progress n bytes zero h = (ground arith, λ k p e. ground arith, λ e. absurd (ground arith))
net_progress n bytes (suc t) h = (ground arith, λ k p e. absurd (ground arith), λ e. ground arith)

abbrev pub net-Progress : Progress net
net-Progress = record {
  busy = λ n. n.tries;
  keeps = λ n s bytes. (net_progress n bytes n.tries refl).0;
  takes = λ n s bytes k p e. (net_progress n bytes n.tries refl).1 k p e;
  waits = λ n s bytes p e x. (net_progress n bytes n.tries refl).2 e;
}

abbrev sent_all : Net
sent_all = record quiet { sent = 2 ∷ 0 ∷ 0 ∷ 0 ∷ 7 ∷ 8 ∷ []; tries = 0 }

send_two : send_data net 9 opened (7 ∷ 8 ∷ []) quiet ≡ some (true, sent_all)
unfolding send_data send_block send_loop le32
send_two = refl

send_data-frame_example : sent_all.sent ≡ [] ++ frame (7 ∷ 8 ∷ [])
send_data-frame_example =
    send_data-frame net-SendLaws 9 opened (7 ∷ 8 ∷ []) quiet sent_all (omega arith) send_two

net_recv_takes :
    (n : Net) (inbox : List (List ℕ)) (bytes : List ℕ)
    → n.inbox ≡ inbox
    → (net_recv n inbox).0 ≡ some bytes
    → (net_recv n inbox).1.received ≡ n.received ++ bytes
net_recv_takes n [] bytes h e = absurd (ground arith)
net_recv_takes n (chunk ∷ rest) bytes h e = ground (arith, h)

net_recv_fails :
    (n : Net) (inbox : List (List ℕ))
    → (net_recv n inbox).0 ≡ none
    → (net_recv n inbox).1.received ≡ n.received
net_recv_fails n [] e = refl
net_recv_fails n (chunk ∷ rest) e = absurd (ground arith)

abbrev net-ReceiveLaws : ReceiveLaws net
net-ReceiveLaws = record {
  received = λ n s. n.received;
  takes = λ n s k bytes e. net_recv_takes n n.inbox bytes refl e;
  fails = λ n s k e. net_recv_fails n n.inbox e;
}

-- What has been received and what is in the inbox is three bytes together, and nothing in the inbox
-- is empty.
abbrev ThreeInAll : Net → Type 0
ThreeInAll n = (length n.received + length (flatten n.inbox) ≤ 3) × All (λ c. 0 < length c) n.inbox

net_recv_open :
    (n : Net) (inbox : List (List ℕ))
    → length n.received + length (flatten inbox) ≤ 3
    → All (λ c. 0 < length c) inbox
    → n.inbox ≡ inbox
    → ThreeInAll (net_recv n inbox).1
      × ((bytes : List ℕ) → (net_recv n inbox).0 ≡ some bytes → 0 < length bytes)
unfolding flatten
net_recv_open n [] h k e = (
  subst (λ i. (length n.received + length (flatten i) ≤ 3) × All (λ c. 0 < length c) i) (sym e)
      (h, k),
  λ bytes a. absurd (ground arith),
)
net_recv_open n (chunk ∷ rest) h k e = (
  (omega (arith, length-append n.received chunk, length-append chunk (flatten rest)), k.1),
  λ bytes a. ground (arith, k.0),
)

abbrev net-IsOpen : IsOpen net-ReceiveLaws opened.socket 3 ThreeInAll
net-IsOpen = record {
  some_bytes = λ n k bytes h e. (net_recv_open n n.inbox h.0 h.1 refl).1 bytes e;
  bounded = λ n h. omega (arith, h.0);
  stays = λ n k h. (net_recv_open n n.inbox h.0 h.1 refl).0;
}

abbrev received_all : Net
received_all = record quiet { inbox = []; received = 1 ∷ 2 ∷ 3 ∷ [] }

receive_three : receive_data net 3 opened quiet ≡ some (success, 1 ∷ 2 ∷ 3 ∷ [], received_all)
unfolding receive_data receive_loop
receive_three = refl

receive_data_lem_example :
    (received_all.received ≡ 1 ∷ 2 ∷ 3 ∷ [])
    × ((success ≡ failure) ↔ (net.last_error received_all ≢ 10035))
    × ((success ≢ continue) ⊎ ◌≡◌ {A = List ℕ} (1 ∷ 2 ∷ 3 ∷ []) [])
receive_data_lem_example =
    receive_data_lem net-ReceiveLaws 3 opened quiet received_all success (1 ∷ 2 ∷ 3 ∷ [])
      receive_three

receive_data_ends_example :
    (status : ReceiveStatus) × (out : List ℕ) × (n : Net) × (receive_data net 4 opened quiet
      ≡ some (status, out, n))
unfolding flatten
receive_data_ends_example =
    receive_data_ends opened net-IsOpen 4 quiet (omega arith, (omega arith, (omega arith, tt)))
      (omega arith)

-- The same network, after the peer has closed the connection.
abbrev hung_up : Winsock
hung_up = record net { recv = λ n s k. (some [], n) }

abbrev hung_up-PeerClosed : PeerClosed hung_up opened.socket (λ n. Unit {0})
hung_up-PeerClosed = record { empty = λ n k u. refl; stays = λ n k u. tt }

receive_data_closed_example : receive_data hung_up 1000 opened quiet ≡ none
receive_data_closed_example = receive_data_closed opened hung_up-PeerClosed 1000 quiet tt

abbrev net-HandleLaws : HandleLaws net
net-HandleLaws = record {
  open_handles = λ n. n.handles;
  creates = λ n. refl;
  connects = λ n s a p. refl;
  sets = λ n s. refl;
  closes = λ n s h. omega arith;
}

connect_handles_example :
    (connect net opened (50 ∷ []) 80 quiet).2.handles
    ≡ 0 + held (connect net opened (50 ∷ []) 80 quiet).1.socket
connect_handles_example = connect_handles net-HandleLaws 0 opened (50 ∷ []) 80 quiet refl

-- A network that takes four bytes at a time, at once.
abbrev four : Winsock
four = record net {
  send = λ n s bytes. (
    some (min 4 (length bytes)),
    record n { sent = n.sent ++ take (min 4 (length bytes)) bytes },
  );
}

four_accepts :
    (n : Net) (bytes : List ℕ) (k : ℕ)
    → some (min 4 (length bytes)) ≡ some k
    → (k ≤ length bytes) × (n.sent ++ take (min 4 (length bytes)) bytes ≡ n.sent ++ take k bytes)
four_accepts n bytes k e = ground arith

four_refuses : (n : Net) (k : ℕ) (l : List ℕ) → ◌≡◌ {A = Option ℕ} (some k) none → l ≡ n.sent
four_refuses n k l e = absurd (ground arith)

abbrev four-SendLaws : SendLaws four
four-SendLaws = record {
  sent = λ n s. n.sent;
  accepts = λ n s bytes k e. four_accepts n bytes k e;
  refuses = λ n s bytes e. four_refuses n _ _ e;
}

send_data_vector_short_example :
    ((send_data_vector four opened (1 ∷ 2 ∷ 3 ∷ 4 ∷ 5 ∷ []) quiet).0 ≡ true)
    × ((send_data_vector four opened (1 ∷ 2 ∷ 3 ∷ 4 ∷ 5 ∷ []) quiet).1.sent
        ≢ quiet.sent ++ frame (1 ∷ 2 ∷ 3 ∷ 4 ∷ 5 ∷ []))
unfolding le32
send_data_vector_short_example =
    send_data_vector_short four-SendLaws opened (1 ∷ 2 ∷ 3 ∷ 4 ∷ 5 ∷ []) quiet 4 refl refl
      (omega arith)
