-- ===== src/MessageManager/Branches.antt =====
-- The end of a part, on each of its branches.
use friendviewer.Prelude.{◌≡◌, true, false, ◌≢◌, [], ◌∷◌, ◌++◌, arith, length}
use friendviewer.Prelude.Words.{ℤ, negsuc, signed32, to_size, from_le}
use friendviewer.MessageManager.{MessageManager, is_zero, finish_length, finish_message}

-- `finish_length` and `finish_message` on each branch.
module _ (m : MessageManager) where
  -- The length that four bytes describe.
  abbrev pub described : ℤ
  described = signed32 (from_le m.partial_message_buffer)

  pub finish_length-more : length m.partial_message_buffer ≢ 4 → finish_length m ≡ m
  unfolding finish_length
  finish_length-more h = ground arith

  pub finish_length-empty :
      length m.partial_message_buffer ≡ 4
      → is_zero described ≡ true
      → finish_length m ≡ record m {
        message_buffers = m.message_buffers ++ ([] ∷ []);
        reading_length = true;
        next_message = described;
        partial_message_buffer = [];
      }
  unfolding finish_length
  finish_length-empty h e = ground arith

  pub finish_length-next :
      length m.partial_message_buffer ≡ 4
      → is_zero described ≡ false
      → finish_length m
        ≡ record m { reading_length = false; next_message = described; partial_message_buffer = [] }
  unfolding finish_length
  finish_length-next h e = ground arith

  pub finish_message-more :
      length m.partial_message_buffer ≢ to_size m.next_message → finish_message m ≡ m
  unfolding finish_message
  finish_message-more h = ground arith

  pub finish_message-whole :
      length m.partial_message_buffer ≡ to_size m.next_message
      → finish_message m ≡ record m {
        message_buffers = m.message_buffers ++ (m.partial_message_buffer ∷ []);
        reading_length = true;
        next_message = negsuc 0;
        partial_message_buffer = [];
      }
  unfolding finish_message
  finish_message-whole h = ground arith
