-- ===== src/ChunkBuffer.antt =====
-- prototype/daemon/chunk_buffer.hh: a queue of chunks behind a mutex. Each method holds the mutex
-- from its first line to its last, so threads interleave whole calls.
pub mod Schedule
pub mod Runs
use friendviewer.Prelude.{Bool, true, false, List, [], ◌∷◌, ◌++◌}

-- The front of the queue is the head of the list.
pub record ChunkBuffer {ℓ} (T : Type ℓ) : Type ℓ where
  pub queue : List T

module _ {ℓ} {T : Type ℓ} where
  abbrev pub empty : ChunkBuffer T
  empty = record { queue = [] }

  -- The flag, the caller's chunk afterwards, and the buffer.
  unfoldable pub dequeue_chunk : ChunkBuffer T → T → Bool × T × ChunkBuffer T
  dequeue_chunk b chunk_out = elim b.queue [
    | [] ↦ (false, chunk_out, b)
    | front ∷ rest ↦ (true, front, record { queue = rest })
  ]

  unfoldable pub enqueue_chunk : ChunkBuffer T → T → ChunkBuffer T
  enqueue_chunk b chunk_in = record { queue = b.queue ++ (chunk_in ∷ []) }

  unfoldable pub clear : ChunkBuffer T → ChunkBuffer T
  clear b = record { queue = [] }
