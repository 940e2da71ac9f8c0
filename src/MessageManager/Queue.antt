-- ===== src/MessageManager/Queue.antt =====
-- The queue of parsed messages: it only grows under `parse_blob`, and `retrieve_message` serves
-- it from the front.
use mathlib.Core.List.{foldl-append, flatten, append_cancel_left}
use native.Mathlib.Decide.{ℕ_discrete as dec_eq}
use friendviewer.Prelude.{
  ℕ, ◌≡◌, refl, sym, ◌∙◌, ap, inl, inr, true, false, some, List, [], ◌∷◌, ◌++◌, foldl, arith,
  length, All, append-nil, append_assoc, Bool-cases, ◌⊎◌,
}
use friendviewer.Prelude.Words.{negsuc, pos, to_size}
use friendviewer.MessageManager.{
  MessageManager, is_zero, finish_length, finish_message, insert_partial, retrieve_message,
  next_message_length,
}
use friendviewer.MessageManager.Branches.{
  described, finish_length-more, finish_length-empty, finish_length-next, finish_message-more,
  finish_message-whole,
}
use friendviewer.MessageManager.Feed.{absorb-length, absorb-message, feed}
use friendviewer.MessageManager.Chunks.{parse_blobs, parse_blobs-feed}
use friendviewer.MessageManager.Wire.{frames}
use friendviewer.MessageManager.RoundTrip.{IsShort, IsIdle, IsIdle-IsValid, feeds-frames}

-- `m'` has the messages of `m`, and maybe more behind them.
abbrev pub Grows : MessageManager → MessageManager → Type 0
Grows m m' = (more : List (List ℕ)) × (m'.message_buffers ≡ m.message_buffers ++ more)

Grows-of_eq : (m m' : MessageManager) → m'.message_buffers ≡ m.message_buffers → Grows m m'
Grows-of_eq m m' e = ([], e ∙ sym (append-nil _))

finish_length-Grows : (m : MessageManager) → Grows m (finish_length m)
finish_length-Grows m = elim (dec_eq (length m.partial_message_buffer) 4) [
  | no e ↦ Grows-of_eq m (finish_length m) (ap (λ n. n.message_buffers) (finish_length-more m e))
  | yes e ↦ elim (Bool-cases (is_zero (described m))) [
    | inl z ↦ ([] ∷ [], ap (λ n. n.message_buffers) (finish_length-empty m e z))
    | inr z ↦
        Grows-of_eq m (finish_length m) (ap (λ n. n.message_buffers) (finish_length-next m e z))
  ]
]

finish_message-Grows : (m : MessageManager) → Grows m (finish_message m)
finish_message-Grows m = elim (dec_eq (length m.partial_message_buffer) (to_size m.next_message)) [
  | no e ↦ Grows-of_eq m (finish_message m) (ap (λ n. n.message_buffers) (finish_message-more m e))
  | yes e ↦ (m.partial_message_buffer ∷ [], ap (λ n. n.message_buffers) (finish_message-whole m e))
]

feed-Grows : (m : MessageManager) (b : ℕ) → Grows m (feed m b)
unfolding feed insert_partial
feed-Grows m b = elim (Bool-cases m.reading_length) [
  | inl r ↦ rw (absorb-length m (b ∷ []) r) (finish_length-Grows (insert_partial m (b ∷ [])))
  | inr r ↦ rw (absorb-message m (b ∷ []) r) (finish_message-Grows (insert_partial m (b ∷ [])))
]

pub feeds-Grows : (m : MessageManager) (bytes : List ℕ) → Grows m (foldl feed m bytes)
feeds-Grows m [] = Grows-of_eq m m refl
feeds-Grows m (b ∷ bs) =
    let (more, e) = feed-Grows m b in
    let (later, e') = feeds-Grows (feed m b) bs in
    (more ++ later, e' ∙ ap (λ l. l ++ later) e ∙ append_assoc m.message_buffers more later)

-- Blobs that are the front of the frames of some messages, cut anywhere: from an idle state the
-- parser ends and has queued the first of these messages, in order, and no other.
pub parse_blobs-prefix :
    (m : MessageManager) (messages blobs : List (List ℕ)) (unsent : List ℕ)
    → IsIdle m
    → All IsShort messages
    → flatten blobs ++ unsent ≡ frames messages
    → (m' : MessageManager) × (queued later : List (List ℕ)) × (parse_blobs m blobs ≡ some m')
      × (m'.message_buffers ≡ m.message_buffers ++ queued)
      × (messages ≡ queued ++ later)
parse_blobs-prefix m messages blobs unsent i h e =
    let m' = foldl feed m (flatten blobs) in
    let (queued, q) = feeds-Grows m (flatten blobs) in
    let (later, l) = feeds-Grows m' unsent in
    let (_, whole) = feeds-frames messages m i h in
    (
      m',
      queued,
      later,
      parse_blobs-feed m blobs (IsIdle-IsValid m i),
      q,
      append_cancel_left m.message_buffers messages (queued ++ later) (
          sym whole
          ∙ ap (λ s. (foldl feed m s).message_buffers) (sym e)
          ∙ ap (λ n. n.message_buffers) (foldl-append feed m (flatten blobs) unsent)
          ∙ l
          ∙ ap (λ s. s ++ later) q
          ∙ append_assoc m.message_buffers queued later),
    )

pub retrieve_front :
    (m : MessageManager) (front : List ℕ) (rest : List (List ℕ)) (out : List ℕ)
    → m.message_buffers ≡ front ∷ rest
    → IsShort front
    → (retrieve_message m out ≡ (true, front, record m { message_buffers = rest }))
      × (next_message_length m ≡ pos (length front))
unfolding retrieve_message
retrieve_front m front rest out e h = ground arith

pub retrieve_empty :
    (m : MessageManager) (out : List ℕ)
    → m.message_buffers ≡ []
    → (retrieve_message m out ≡ (false, out, m)) × (next_message_length m ≡ negsuc 0)
unfolding retrieve_message
retrieve_empty m out e = ground arith

-- What the two accessors answer, by what the queue holds.
abbrev pub Serves : MessageManager → List ℕ → Type 0
Serves m out =
    ((m.message_buffers ≡ [])
      × (next_message_length m ≡ negsuc 0)
      × (retrieve_message m out ≡ (false, out, m)))
    ⊎ ((front : List ℕ) × (rest : List (List ℕ)) × (m.message_buffers ≡ front ∷ rest)
        × (next_message_length m ≡ pos (length front))
        × (retrieve_message m out ≡ (true, front, record m { message_buffers = rest })))

serves :
    (m : MessageManager) (out : List ℕ) (queue : List (List ℕ))
    → m.message_buffers ≡ queue
    → All IsShort queue
    → Serves m out
serves m out [] e h = let (r, n) = retrieve_empty m out e in inl (e, n, r)
serves m out (front ∷ rest) e h =
    let (r, n) = retrieve_front m front rest out e h.0 in inr (front, rest, e, n, r)

-- With messages below 2 ^ 31 bytes in the queue: `retrieve_message` hands out the front message
-- and removes it, and `next_message_length` is its length; on the empty queue it returns false,
-- changes nothing, and the length is -1.
pub retrieve_message-Serves :
    (m : MessageManager) (out : List ℕ) → All IsShort m.message_buffers → Serves m out
retrieve_message-Serves m out h = serves m out m.message_buffers refl h
