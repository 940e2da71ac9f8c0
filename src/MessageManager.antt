-- ===== src/MessageManager.antt =====
-- prototype/network_protocol/message_manager.{hh,cc}: the receiving end of the message protocol.
-- A vector of bytes is a list of numbers, and the queue is a list with its front first.
pub mod Feed
pub mod Chunks
pub mod Branches
pub mod Wire
pub mod RoundTrip
pub mod Queue
pub mod Batches
pub mod Unfinished
pub mod Runs
use friendviewer.Prelude.{
  ℕ, zero, suc, ◌+◌, ◌≡◌, Bool, true, false, Option, none, some, List, [], ◌∷◌, ◌++◌, ◌==◌,
  if◌then◌else◌, length, take, drop, min,
}
use friendviewer.Prelude.Words.{ℤ, pos, negsuc, sub64, signed32, to_size, to_int32, from_le}

pub record MessageManager : Type 0 where
  pub message_buffers : List (List ℕ)
  pub reading_length : Bool
  pub next_message : ℤ
  pub partial_message_buffer : List ℕ

-- The constructor.
abbrev pub initial : MessageManager
initial = record {
  message_buffers = [];
  reading_length = true;
  next_message = pos 0;
  partial_message_buffer = [];
}

abbrev pub is_zero : ℤ → Bool
is_zero (pos n) = n == 0
is_zero (negsuc n) = false

-- Lines 22 to 32: what follows the insertion into the length descriptor.
pub finish_length : MessageManager → MessageManager
finish_length m =
    let next = signed32 (from_le m.partial_message_buffer) in
    if length m.partial_message_buffer == 4
    then (if is_zero next
        then record m {
          message_buffers = m.message_buffers ++ ([] ∷ []);
          reading_length = true;
          next_message = next;
          partial_message_buffer = [];
        }
        else record m { reading_length = false; next_message = next; partial_message_buffer = [] })
    else m

-- Lines 40 to 45: what follows the insertion into the message.
pub finish_message : MessageManager → MessageManager
finish_message m =
    if length m.partial_message_buffer == to_size m.next_message
    then record m {
      message_buffers = m.message_buffers ++ (m.partial_message_buffer ∷ []);
      reading_length = true;
      next_message = negsuc 0;
      partial_message_buffer = [];
    }
    else m

pub insert_partial : MessageManager → List ℕ → MessageManager
insert_partial m bytes = record m { partial_message_buffer = m.partial_message_buffer ++ bytes }

-- One round of the loop. The blob is what `blob_start` points at, `remaining_blob` bytes of it.
pub parse_step : MessageManager → List ℕ → MessageManager × List ℕ
parse_step m blob =
    if m.reading_length
    then (finish_length (insert_partial m (take length_part blob)), drop length_part blob)
    else (finish_message (insert_partial m (take message_part blob)), drop message_part blob)
  where
    length_part : ℕ
    length_part = min (sub64 4 (length m.partial_message_buffer)) (length blob)

    message_part : ℕ
    message_part =
        min (sub64 (to_size m.next_message) (length m.partial_message_buffer)) (length blob)

-- `none`: the loop has not ended within the fuel.
pub parse_loop : ℕ → MessageManager → List ℕ → Option MessageManager
parse_loop fuel m [] = some m
parse_loop zero m (b ∷ bs) = none
parse_loop (suc fuel) m (b ∷ bs) = let (m', rest) = parse_step m (b ∷ bs) in parse_loop fuel m' rest

-- A round takes a byte at least, so as many rounds as bytes are enough.
pub parse_blob : MessageManager → List ℕ → Option MessageManager
parse_blob m blob = parse_loop (length blob) m blob

pub next_message_length : MessageManager → ℤ
next_message_length m = elim m.message_buffers [
  | [] ↦ negsuc 0
  | front ∷ rest ↦ to_int32 (length front)
]

abbrev is_minus_one : ℤ → Bool
is_minus_one (pos n) = false
is_minus_one (negsuc n) = n == 0

-- `message_out` is what the caller's vector holds; `swap` puts its old content into the entry
-- that `pop` then removes.
pub retrieve_message : MessageManager → List ℕ → Bool × List ℕ × MessageManager
unfolding next_message_length
retrieve_message m message_out =
    if is_minus_one (next_message_length m)
    then (false, message_out, m)
    else elim m.message_buffers [
      | [] ↦ (false, message_out, m)
      | front ∷ rest ↦ (true, front, record m { message_buffers = rest })
    ]
