-- ===== src/MessageManager/RoundTrip.antt =====
-- The parser on streams of frames, whole, cut and damaged.
use mathlib.Core.List.{foldl-append, flatten}
use friendviewer.Prelude.{
  ℕ, suc, ◌+◌, ◌-◌, ◌%◌, ◌^◌, ◌≤◌, ◌<◌, ◌≡◌, refl, sym, ◌∙◌, ap, true, false, some, List, [], ◌∷◌,
  ◌++◌, foldl, arith, length, All, append_assoc, append-nil, length-append,
}
use friendviewer.Prelude.Words.{
  ℤ, pos, negsuc, signed32, to_size, from_le, le32, IsInt32, signed32-IsInt32, from_le-le32,
  length-le32,
}
use friendviewer.MessageManager.{MessageManager, is_zero, finish_length, insert_partial, parse_blob}
use friendviewer.MessageManager.Branches.{
  finish_length-empty, finish_length-next, finish_message-more, finish_message-whole,
}
use friendviewer.MessageManager.Feed.{
  IsValid, absorb-length, absorb-message, feed, feeds-absorb, parse_blob-feed,
}
use friendviewer.MessageManager.Chunks.{parse_blobs, parse_blobs-feed}
use friendviewer.MessageManager.Wire.{frame, frames}

-- The sender can state the length, and the receiver reads it as a positive number.
abbrev pub IsShort : List ℕ → Type 0
IsShort message = length message < 2 ^ 31

-- Between two messages.
pub record IsIdle (m : MessageManager) : Type 0 where
  pub at_length : m.reading_length ≡ true
  pub nothing_open : m.partial_message_buffer ≡ []
  pub in_range : IsInt32 m.next_message

pub IsIdle-IsValid : (m : MessageManager) → IsIdle m → IsValid m
IsIdle-IsValid m i = record {
  open_part = ground (arith, i.at_length, i.nothing_open);
  in_range = i.in_range;
}

insert-idle :
    (m : MessageManager) (bytes : List ℕ)
    → IsIdle m
    → (insert_partial m bytes).partial_message_buffer ≡ bytes
unfolding insert_partial
insert-idle m bytes i = ap (λ l. l ++ bytes) i.nothing_open

-- Four bytes in the idle state are a length descriptor.
feeds-header :
    (m : MessageManager) (header : List ℕ)
    → IsIdle m
    → length header ≡ 4
    → foldl feed m header ≡ finish_length (insert_partial m header)
feeds-header m [] i h = absurd (omega arith)
feeds-header m (b ∷ bs) i h =
    feeds-absorb m b bs (IsIdle-IsValid m i) (ground (arith, i.at_length, i.nothing_open))
    ∙ absorb-length m (b ∷ bs) i.at_length

-- The state behind a length descriptor that is not zero.
abbrev pub expecting : MessageManager → ℤ → MessageManager
expecting m z = record m { reading_length = false; next_message = z; partial_message_buffer = [] }

abbrev delivered : MessageManager → ℤ → List ℕ → MessageManager
delivered m z message = record m {
  message_buffers = m.message_buffers ++ (message ∷ []);
  reading_length = true;
  next_message = z;
  partial_message_buffer = [];
}

pub feeds-descriptor :
    (m : MessageManager) (header : List ℕ)
    → IsIdle m
    → length header ≡ 4
    → is_zero (signed32 (from_le header)) ≡ false
    → foldl feed m header ≡ expecting m (signed32 (from_le header))
unfolding insert_partial
feeds-descriptor m header i h z =
    let held = insert-idle m header i in
    feeds-header m header i h
    ∙ finish_length-next (insert_partial m header) (ap length held ∙ h)
        (ap (λ l. is_zero (signed32 (from_le l))) held ∙ z)
    ∙ ap (λ l. expecting m (signed32 (from_le l))) held

feeds-zero :
    (m : MessageManager) (header : List ℕ)
    → IsIdle m
    → length header ≡ 4
    → is_zero (signed32 (from_le header)) ≡ true
    → foldl feed m header ≡ delivered m (signed32 (from_le header)) []
unfolding insert_partial
feeds-zero m header i h z =
    let held = insert-idle m header i in
    feeds-header m header i h
    ∙ finish_length-empty (insert_partial m header) (ap length held ∙ h)
        (ap (λ l. is_zero (signed32 (from_le l))) held ∙ z)
    ∙ ap (λ l. delivered m (signed32 (from_le l)) []) held

-- The bytes of a message that was announced with its length.
feeds-body :
    (m : MessageManager) (b : ℕ) (bs : List ℕ)
    → IsShort (b ∷ bs)
    → foldl feed (expecting m (pos (suc (length bs)))) (b ∷ bs) ≡ delivered m (negsuc 0) (b ∷ bs)
unfolding insert_partial
feeds-body m b bs h =
    let m' = expecting m (pos (suc (length bs))) in
    feeds-absorb m' b bs (omega arith) (omega arith)
    ∙ absorb-message m' (b ∷ bs) refl
    ∙ finish_message-whole (insert_partial m' (b ∷ bs)) refl

-- `m'` is idle and has these messages more.
abbrev pub Delivers : MessageManager → List (List ℕ) → MessageManager → Type 0
Delivers m messages m' = IsIdle m' × (m'.message_buffers ≡ m.message_buffers ++ messages)

from_le-length :
    (message : List ℕ) → IsShort message → from_le (le32 (length message % 2 ^ 32)) ≡ length message
from_le-length message h = from_le-le32 (length message % 2 ^ 32) (omega arith) ∙ omega arith

pub signed32-length :
    (message : List ℕ)
    → IsShort message
    → signed32 (from_le (le32 (length message % 2 ^ 32))) ≡ pos (length message)
signed32-length message h = rw (from_le-length message h) (ground arith)

feeds-frame :
    (m : MessageManager) (message : List ℕ)
    → IsIdle m
    → IsShort message
    → Delivers m (message ∷ []) (foldl feed m (frame message))
unfolding frame
feeds-frame m [] i h =
    let z = signed32-length [] h in
    rw
      (
        append-nil (le32 (0 % 2 ^ 32)),
        feeds-zero m (le32 (0 % 2 ^ 32)) i (length-le32 _) (ap is_zero z),
      )
      (record { at_length = refl; nothing_open = refl; in_range = signed32-IsInt32 _ }, refl)
feeds-frame m (b ∷ bs) i h =
    let z = signed32-length (b ∷ bs) h in
    let header = le32 (suc (length bs) % 2 ^ 32) in
    rw
      (
        foldl-append feed m header (b ∷ bs),
        feeds-descriptor m header i (length-le32 _) (ap is_zero z ∙ ground arith),
        z,
        feeds-body m b bs h,
      )
      (record { at_length = refl; nothing_open = refl; in_range = omega arith }, refl)

pub feeds-frames :
    (messages : List (List ℕ)) (m : MessageManager)
    → IsIdle m
    → All IsShort messages
    → Delivers m messages (foldl feed m (frames messages))
unfolding frames
feeds-frames [] m i h = (i, sym (append-nil _))
feeds-frames (message ∷ messages) m i h =
    let (i', e) = feeds-frame m message i h.0 in
    let (i'', e') = feeds-frames messages (foldl feed m (frame message)) i' h.1 in
    rw (foldl-append feed m (frame message) (frames messages))
      (i'', e' ∙ ap (λ l. l ++ messages) e ∙ append_assoc m.message_buffers (message ∷ []) messages)

-- Blobs that together are the frames of some messages, each below 2 ^ 31 bytes: from an idle
-- state the parser ends, has queued exactly these messages in order, and is idle again.
pub parse_blobs-frames :
    (m : MessageManager) (messages blobs : List (List ℕ))
    → IsIdle m
    → All IsShort messages
    → flatten blobs ≡ frames messages
    → (m' : MessageManager) × (parse_blobs m blobs ≡ some m')
      × IsIdle m'
      × (m'.message_buffers ≡ m.message_buffers ++ messages)
parse_blobs-frames m messages blobs i h e =
    let (i', q) = feeds-frames messages m i h in
    (
      foldl feed m (frames messages),
      parse_blobs-feed m blobs (IsIdle-IsValid m i) ∙ ap (λ l. some (foldl feed m l)) e,
      i',
      q,
    )

pub parse_blob-frames :
    (m : MessageManager) (messages : List (List ℕ))
    → IsIdle m
    → All IsShort messages
    → (m' : MessageManager) × (parse_blob m (frames messages) ≡ some m')
      × IsIdle m'
      × (m'.message_buffers ≡ m.message_buffers ++ messages)
parse_blob-frames m messages i h =
    let (i', q) = feeds-frames messages m i h in
    (_, parse_blob-feed m (frames messages) (IsIdle-IsValid m i), i', q)

-- A part that is not complete only grows.
pub feeds-open :
    (m : MessageManager) (bytes : List ℕ)
    → IsValid m
    → m.reading_length ≡ false
    → length m.partial_message_buffer + length bytes < to_size m.next_message
    → (foldl feed m bytes).message_buffers ≡ m.message_buffers
unfolding insert_partial
feeds-open m [] v r h = refl
feeds-open m (b ∷ bs) v r h =
    ap (λ n. n.message_buffers)
      (feeds-absorb m b bs v (rw r (omega arith))
        ∙ absorb-message m (b ∷ bs) r
        ∙ finish_message-more (insert_partial m (b ∷ bs))
            (λ e. omega (arith, length-append m.partial_message_buffer (b ∷ bs))))

signed32_negative : (w : ℕ) → 2 ^ 31 ≤ w → signed32 w ≡ negsuc (2 ^ 32 - w - 1)
signed32_negative w h = ground arith

-- A length descriptor whose sign bit is set, in the idle state, blocks the connection: the
-- parser ends, and whatever follows, below 2 ^ 64 - 2 ^ 31 bytes, no message is queued.
pub parse_blob_negative :
    (m : MessageManager) (header blob : List ℕ)
    → IsIdle m
    → length header ≡ 4
    → 2 ^ 31 ≤ from_le header
    → length blob < 2 ^ 64 - 2 ^ 31
    → (m' : MessageManager) × (parse_blob m (header ++ blob) ≡ some m')
      × (m'.message_buffers ≡ m.message_buffers)
parse_blob_negative m header blob i h s l =
    let z = signed32_negative (from_le header) s in
    let m' = expecting m (signed32 (from_le header)) in
    (
      foldl feed m (header ++ blob),
      parse_blob-feed m (header ++ blob) (IsIdle-IsValid m i),
      ap (λ n. n.message_buffers)
            (foldl-append feed m header blob
              ∙ ap (λ n. foldl feed n blob) (feeds-descriptor m header i h (ap is_zero z)))
          ∙ feeds-open m' blob
              (record { open_part = rw z (omega arith); in_range = signed32-IsInt32 _ }) refl
              (rw z (omega arith)),
    )
