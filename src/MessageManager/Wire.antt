-- ===== src/MessageManager/Wire.antt =====
-- What the parser's state stands for: the bytes that were received, cut into frames.
use friendviewer.Prelude.{
  ℕ, ◌%◌, ◌^◌, ◌≡◌, refl, sym, ◌∙◌, ap, inl, inr, true, false, Bool-cases, some, List, [], ◌∷◌,
  ◌++◌, foldl, arith, if◌then◌else◌, length, All, All-append, append_assoc, append-nil,
}
use friendviewer.Prelude.Words.{
  ℤ, pos, negsuc, to_size, le32, IsByte, IsInt32, pattern32, pattern32-to_size, le32-from_le,
}
use native.Mathlib.Decide.{ℕ_discrete as dec_eq}
use friendviewer.MessageManager.Branches.{
  described, finish_length-more, finish_length-empty, finish_length-next, finish_message-more,
  finish_message-whole,
}
use friendviewer.MessageManager.{
  MessageManager, is_zero, finish_length, finish_message, insert_partial, parse_blob,
}
use friendviewer.MessageManager.Feed.{
  IsValid, absorb, absorb-length, absorb-message, feed, feed-IsValid, parse_blob-feed,
}

-- The protocol of message_manager.hh, lines 10 to 16: a length descriptor, then the message.
unfoldable pub frame : List ℕ → List ℕ
frame message = le32 (length message % 2 ^ 32) ++ message

unfoldable pub frames : List (List ℕ) → List ℕ
frames [] = []
frames (message ∷ messages) = frame message ++ frames messages

-- The bytes of the message that is still open.
pub pending : MessageManager → List ℕ
pending m =
    if m.reading_length
    then m.partial_message_buffer
    else le32 (pattern32 m.next_message) ++ m.partial_message_buffer

pub wire : MessageManager → List ℕ
wire m = frames m.message_buffers ++ pending m

pub frames-append : (xs ys : List (List ℕ)) → frames (xs ++ ys) ≡ frames xs ++ frames ys
unfolding frames
frames-append [] ys = refl
frames-append (x ∷ xs) ys = rw (frames-append xs ys, append_assoc)

is_zero-pattern32 : (z : ℤ) → is_zero z ≡ true → pattern32 z ≡ 0
is_zero-pattern32 (pos n) h = ground arith
is_zero-pattern32 (negsuc n) h = cc

frames-snoc : (xs : List (List ℕ)) (x : List ℕ) → frames (xs ++ (x ∷ [])) ≡ frames xs ++ frame x
unfolding frames
frames-snoc xs x = rw (frames-append xs (x ∷ []), append-nil)

-- `wire` in its two modes.
module _ (m : MessageManager) where
  wire-length :
      m.reading_length ≡ true → wire m ≡ frames m.message_buffers ++ m.partial_message_buffer
  unfolding wire pending
  wire-length r = rw r

  wire-message :
      m.reading_length ≡ false
      → wire m
        ≡ frames m.message_buffers ++ (le32 (pattern32 m.next_message) ++ m.partial_message_buffer)
  unfolding wire pending
  wire-message r = rw r

frame-empty : frame [] ≡ le32 0
unfolding frame
frame-empty = append-nil _

-- The end of a part moves bytes from `pending` to the frames, and changes none.
wire-finish_length :
    (m : MessageManager)
    → m.reading_length ≡ true
    → All IsByte m.partial_message_buffer
    → wire (finish_length m) ≡ wire m
wire-finish_length m r v = elim (dec_eq (length m.partial_message_buffer) 4) [
  | no e ↦ ap wire (finish_length-more m e)
  | yes e ↦
      let bytes = le32-from_le m.partial_message_buffer e v in
      elim (Bool-cases (is_zero (described m))) [
        | inl z ↦
            ap wire (finish_length-empty m e z)
            ∙ wire-length _ refl
            ∙ append-nil _
            ∙ frames-snoc m.message_buffers []
            ∙ ap (◌++◌ (frames m.message_buffers))
                (frame-empty ∙ ap le32 (sym (is_zero-pattern32 (described m) z)) ∙ bytes)
            ∙ sym (wire-length m r)
        | inr z ↦
            ap wire (finish_length-next m e z)
            ∙ wire-message _ refl
            ∙ ap (◌++◌ (frames m.message_buffers)) (append-nil _ ∙ bytes)
            ∙ sym (wire-length m r)
      ]
]

wire-finish_message :
    (m : MessageManager)
    → m.reading_length ≡ false
    → IsInt32 m.next_message
    → wire (finish_message m) ≡ wire m
unfolding frame
wire-finish_message m r k =
    elim (dec_eq (length m.partial_message_buffer) (to_size m.next_message)) [
      | no e ↦ ap wire (finish_message-more m e)
      | yes e ↦
          ap wire (finish_message-whole m e)
          ∙ wire-length _ refl
          ∙ append-nil _
          ∙ frames-snoc m.message_buffers m.partial_message_buffer
          ∙ ap (λ w. frames m.message_buffers ++ (le32 w ++ m.partial_message_buffer))
              (ap (λ n. n % 2 ^ 32) e ∙ pattern32-to_size m.next_message k)
          ∙ sym (wire-message m r)
    ]

wire-insert :
    (m : MessageManager) (bytes : List ℕ) → wire (insert_partial m bytes) ≡ wire m ++ bytes
unfolding insert_partial
wire-insert m bytes = elim (Bool-cases m.reading_length) [
  | inl r ↦
      wire-length (insert_partial m bytes) r
      ∙ sym (append_assoc (frames m.message_buffers) m.partial_message_buffer bytes)
      ∙ ap (λ l. l ++ bytes) (sym (wire-length m r))
  | inr r ↦
      wire-message (insert_partial m bytes) r
      ∙ (simp append_assoc)
      ∙ ap (λ l. l ++ bytes) (sym (wire-message m r))
]

-- A received byte joins the stream that the state stands for.
wire-feed :
    (m : MessageManager) (b : ℕ)
    → IsValid m
    → All IsByte m.partial_message_buffer
    → IsByte b
    → wire (feed m b) ≡ wire m ++ (b ∷ [])
unfolding feed insert_partial
wire-feed m b v bytes hb =
    let inserted = wire-insert m (b ∷ []) in
    let more = All-append IsByte m.partial_message_buffer (b ∷ []) bytes (hb, tt) in
    elim (Bool-cases m.reading_length) [
      | inl r ↦
          ap wire (absorb-length m (b ∷ []) r)
          ∙ wire-finish_length (insert_partial m (b ∷ [])) r more
          ∙ inserted
      | inr r ↦
          ap wire (absorb-message m (b ∷ []) r)
          ∙ wire-finish_message (insert_partial m (b ∷ [])) r v.in_range
          ∙ inserted
    ]

feed-bytes :
    (m : MessageManager) (b : ℕ)
    → All IsByte m.partial_message_buffer
    → IsByte b
    → All IsByte (feed m b).partial_message_buffer
unfolding feed absorb insert_partial finish_length finish_message
feed-bytes m b v hb = ground (arith, All-append IsByte m.partial_message_buffer (b ∷ []))

wire-feeds :
    (bytes : List ℕ) (m : MessageManager)
    → IsValid m
    → All IsByte m.partial_message_buffer
    → All IsByte bytes
    → wire (foldl feed m bytes) ≡ wire m ++ bytes
wire-feeds [] m v held new = sym (append-nil (wire m))
wire-feeds (b ∷ bs) m v held new =
    wire-feeds bs (feed m b) (feed-IsValid m b v) (feed-bytes m b held new.0) new.1
    ∙ ap (λ l. l ++ bs) (wire-feed m b v held new.0)
    ∙ append_assoc (wire m) (b ∷ []) bs

-- From a valid state whose partial buffer holds bytes, for a blob of bytes: when `parse_blob` ends,
-- it has lost no byte and made none up: the messages in the queue, in their frames, and
-- the open part spell the bytes received before, then the blob.
pub wire-parse_blob :
    (m m' : MessageManager) (blob : List ℕ)
    → IsValid m
    → All IsByte m.partial_message_buffer
    → All IsByte blob
    → parse_blob m blob ≡ some m'
    → wire m' ≡ wire m ++ blob
wire-parse_blob m m' blob v held new e =
    let parsed : m' ≡ foldl feed m blob = cc (parse_blob-feed m blob v) in
    ap wire parsed ∙ wire-feeds blob m v held new
