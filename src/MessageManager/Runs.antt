-- ===== src/MessageManager/Runs.antt =====
-- The parser at concrete streams.
use mathlib.Core.List.{flatten}
use friendviewer.Prelude.{ℕ, ◌≡◌, refl, true, some, List, [], ◌∷◌, ◌++◌, arith, foldl}
use friendviewer.Prelude.Words.{negsuc, le32}
use friendviewer.MessageManager.{
  MessageManager, initial, finish_length, finish_message, insert_partial, parse_step, parse_loop,
  parse_blob,
}
use friendviewer.MessageManager.Feed.{feed, initial-IsValid, parse_blob-feed}
use friendviewer.MessageManager.Chunks.{parse_blobs}
use friendviewer.MessageManager.Wire.{frame, frames, wire, wire-parse_blob}
use friendviewer.MessageManager.RoundTrip.{IsIdle, parse_blobs-frames, parse_blob_negative}

-- An empty message, then one of three bytes.
abbrev stream : List ℕ
stream = 0 ∷ 0 ∷ 0 ∷ 0 ∷ 3 ∷ 0 ∷ 0 ∷ 0 ∷ 7 ∷ 8 ∷ 9 ∷ []

abbrev stream_messages : List (List ℕ)
stream_messages = [] ∷ (7 ∷ 8 ∷ 9 ∷ []) ∷ []

-- The stream, cut in a length and in a message.
abbrev stream_blobs : List (List ℕ)
stream_blobs = (0 ∷ 0 ∷ 0 ∷ 0 ∷ 3 ∷ []) ∷ (0 ∷ 0 ∷ 0 ∷ 7 ∷ []) ∷ (8 ∷ 9 ∷ []) ∷ []

abbrev after_stream : MessageManager
after_stream = record {
  message_buffers = stream_messages;
  reading_length = true;
  next_message = negsuc 0;
  partial_message_buffer = [];
}

abbrev initial-IsIdle : IsIdle initial
initial-IsIdle = record { at_length = refl; nothing_open = refl; in_range = omega arith }

parse_stream : parse_blob initial stream ≡ some after_stream
unfolding parse_blob parse_loop parse_step finish_length finish_message insert_partial
parse_stream = refl

stream-frames : stream ≡ frames stream_messages
unfolding frames frame le32
stream-frames = refl

parse_blob-feed_example : parse_blob initial stream ≡ some (foldl feed initial stream)
parse_blob-feed_example = parse_blob-feed initial stream initial-IsValid

wire-parse_blob_example : wire after_stream ≡ wire initial ++ stream
wire-parse_blob_example =
    wire-parse_blob initial after_stream stream initial-IsValid tt (omega arith) parse_stream

parse_blobs-frames_example :
    (m : MessageManager) × (parse_blobs initial stream_blobs ≡ some m)
    × IsIdle m
    × (m.message_buffers ≡ stream_messages)
unfolding flatten
parse_blobs-frames_example =
    parse_blobs-frames initial stream_messages stream_blobs initial-IsIdle (omega arith)
      stream-frames

parse_blob_negative_example :
    (m : MessageManager) × (parse_blob initial ((255 ∷ 255 ∷ 255 ∷ 255 ∷ []) ++ stream) ≡ some m)
    × (m.message_buffers ≡ [])
parse_blob_negative_example =
    parse_blob_negative initial (255 ∷ 255 ∷ 255 ∷ 255 ∷ []) stream initial-IsIdle refl
      (omega arith) (omega arith)
