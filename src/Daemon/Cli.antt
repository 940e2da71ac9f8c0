-- ===== src/Daemon/Cli.antt =====
-- prototype/daemon/daemon_backend_controller.cc, `util::split` and `handle_cli`: the commands that
-- are read from the terminal. A text is the list of its bytes.
use Prim.Native.Char.{code}
use Prim.Native.String.{String}
use friendviewer.Prelude.{
  ℕ, zero, suc, ◌+◌, Bool, true, false, ◌&&◌, Option, none, some, List, [], ◌∷◌, ◌++◌, ◌==◌, ltb,
  if◌then◌else◌, length, take, drop,
}
use friendviewer.Packet.{FvPacketType}
use friendviewer.Daemon.Messages.{Inner}
use friendviewer.Daemon.{Daemon, Outside, stop}
use friendviewer.Daemon.Control.{enqueue_msg}

-- `str.find(tok, start)` for a token of one byte, as `handle_cli` has it: `none` is npos.
unfoldable pub find_from : ℕ → List ℕ → ℕ → Option ℕ
find_from tok [] i = none
find_from tok (c ∷ cs) i = if c == tok then some i else find_from tok cs (suc i)

unfoldable pub find : List ℕ → ℕ → ℕ → Option ℕ
unfolding find_from
find str tok start = find_from tok (drop start str) start

-- `str.substr(start, count)`.
abbrev pub substr : List ℕ → ℕ → ℕ → List ℕ
substr str start count = take count (drop start str)

-- The loop. The second argument of `substr` is `end`, as in the source, and not `end - start`.
unfoldable pub split_loop : ℕ → List ℕ → ℕ → ℕ → List (List ℕ) → Option (List (List ℕ))
split_loop zero str tok start out = none
split_loop (suc fuel) str tok start out = elim (find str tok start) [
  | some end ↦ split_loop fuel str tok (end + 1) (out ++ (substr str start end ∷ []))
  | none ↦ some (if ltb start (length str) then out ++ (drop start str ∷ []) else out)
]

-- A round for each byte and one for the end are enough.
unfoldable pub split : List ℕ → ℕ → Option (List (List ℕ))
split str tok = split_loop (suc (length str)) str tok 0 []

abbrev pub list_eq : List ℕ → List ℕ → Bool
list_eq [] [] = true
list_eq [] (y ∷ ys) = false
list_eq (x ∷ xs) [] = false
list_eq (x ∷ xs) (y ∷ ys) = x == y && list_eq xs ys

abbrev pub codes : String → List ℕ
codes String.[] = []
codes (String.◌∷◌ c s) = code c ∷ codes s

module _ (o : Outside) where
  open o use {Float}

  -- The commands that take an argument, `tokens[1]`, when there is one. The flag says that the
  -- terminal's thread waits until `connect_signal_` is false again.
  connect_command : List (List ℕ) → Daemon Float → Daemon Float × Bool
  connect_command [] d = (d, false)
  connect_command (address ∷ rest) d =
      (record d { connect_address = address; connect_signal = true }, true)

  name_command : List (List ℕ) → Daemon Float → Daemon Float × Bool
  name_command [] d = (d, false)
  name_command (name ∷ rest) d = (record d { username = name }, false)

  session_command : List (List ℕ) → Daemon Float → Daemon Float × Bool
  session_command [] d = (d, false)
  session_command (name ∷ rest) d =
      (enqueue_msg o FvPacketType.session_request (Inner.session_request name) d, false)

  -- One command. `none`: `tokens[0]` of an empty vector, which is undefined behaviour.
  unfoldable pub handle_command : List (List ℕ) → Daemon Float → Option (Daemon Float × Bool)
  unfolding connect_command name_command session_command
  handle_command [] d = none
  handle_command (command ∷ rest) d =
      if list_eq command (codes "connect")
      then some (connect_command rest d)
      else if list_eq command (codes "name")
      then some (name_command rest d)
      else if list_eq command (codes "session")
      then some (session_command rest d)
      else if list_eq command (codes "endsession")
      then some (enqueue_msg o FvPacketType.session_close Inner.session_close d, false)
      else if list_eq command (codes "exit")
      then some (stop d, false)
      else some (d, false)

  -- The body of the loop of `handle_cli`, for one line.
  unfoldable pub handle_cli : List ℕ → Daemon Float → Option (Daemon Float × Bool)
  handle_cli line d = elim (split line b' ') [ none ↦ none | some tokens ↦ handle_command tokens d ]
