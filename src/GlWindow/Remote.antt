-- ===== src/GlWindow/Remote.antt =====
-- The input of a session, from the callbacks of the client's window in gl_window.hh to the
-- calls that the host makes of its input component. What lies between the two connections passes
-- the packets on.
use friendviewer.Prelude.{
  ℕ, ◌+◌, ◌≡◌, refl, sym, ◌∙◌, ap, Option, none, some, false, ◌&&◌, List, [], ◌∷◌, ◌++◌, foldl, map,
  append_assoc, append-nil, if◌then◌else◌, arith,
}
use friendviewer.Prelude.Words.{ℤ, pos, IsInt32}
use friendviewer.Packet.{FvPacketType, FvPacket}
use friendviewer.ChunkBuffer.{enqueue_chunk}
use friendviewer.NetworkManager.{Task}
use friendviewer.Daemon.{Daemon, Outside, Effect, move_cursor, send_input}
use friendviewer.Daemon.Messages.{Inner, ControlInput}
use friendviewer.Daemon.Control.{
  Handler, on_control_input, handle_input, is_positive, enqueue_msg, key_pressed, button_pressed,
  cursor_moved,
}
use friendviewer.GlWindow.{GlWindow}
use friendviewer.GlWindow.Mapping.{GlfwKey, get_key_mapping}
use friendviewer.GlWindow.Keys.{daemon_callbacks, key_cb, mouse_cb, mouse_pos_cb}

-- What GLFW calls a callback with: a key, its scancode, the action and the modifiers; a button, the
-- action and the modifiers; or the place of the cursor.
pub data WindowEvent (Double : Type 0) : Type 0 where
  key_event : ℤ → ℤ → ℤ → ℤ → WindowEvent Double
  button_event : ℕ → ℤ → ℤ → WindowEvent Double
  cursor_event : Double → Double → WindowEvent Double

-- An input that was written is read back, if its numbers are those of an `int32`, and -1 is not
-- above 0.
pub record InputLaws (o : Outside) : Type 0 where
  pub parse_control_input-serialize :
      (input : ControlInput o.Float)
      → IsInt32 input.mouse_bitfield
      → IsInt32 input.virtual_key
      → o.inner.parse_control_input (o.inner.serialize (Inner.control_input input)) ≡ input
  pub minus_one_below : o.float_lt o.float_zero o.float_minus_one ≡ false

module _ (code : GlfwKey → ℤ) (o : Outside) (divide : o.Double → ℕ → o.Double) (g : GlWindow) where
  open o use {Float, float_zero, float_minus_one, float_lt, Double, to_float, packets, inner}

  -- The callbacks, on the events of a window.
  unfoldable pub window_event : WindowEvent Double → Daemon Float → Daemon Float
  window_event (key_event key scancode action mods) d =
      key_cb (daemon_callbacks o) code key scancode action mods d
  window_event (button_event button action mods) d =
      mouse_cb (daemon_callbacks o) button action mods d
  window_event (cursor_event x y) d = mouse_pos_cb (daemon_callbacks o) divide g x y d

  -- What the client sends of an event.
  abbrev pub input_of : WindowEvent Double → ControlInput Float
  input_of (key_event key scancode action mods) = record {
    abs_x = float_minus_one;
    abs_y = float_minus_one;
    mouse_bitfield = pos 0;
    virtual_key = get_key_mapping code key;
  }
  input_of (button_event button action mods) = record {
    abs_x = float_minus_one;
    abs_y = float_minus_one;
    mouse_bitfield = pos (button + 1);
    virtual_key = pos 0;
  }
  input_of (cursor_event x y) = record {
    abs_x = to_float (divide x g.width);
    abs_y = to_float (divide y g.height);
    mouse_bitfield = pos 0;
    virtual_key = pos 0;
  }

  abbrev pub inner_of : WindowEvent Double → List ℕ
  inner_of e = inner.serialize (Inner.control_input (input_of e))

  abbrev pub packet_of : WindowEvent Double → FvPacket
  packet_of e = record { type = FvPacketType.control_input; inner_packet = inner_of e }

  abbrev pub task_of : WindowEvent Double → Task Handler
  task_of e = record { callback = on_control_input; inner = inner_of e }

  -- The call that the host makes of its input component for an event: for a mapped key or a button
  -- above 0, and for a cursor with both coordinates above 0.
  abbrev pub action_of : WindowEvent Double → Option (Effect Float)
  action_of (key_event key scancode action mods) =
      if is_positive (get_key_mapping code key)
      then some (send_input (get_key_mapping code key))
      else none
  action_of (button_event button action mods) = some (send_input (pos (button + 1)))
  action_of (cursor_event x y) =
      if float_lt float_zero (to_float (divide x g.width))
        && float_lt float_zero (to_float (divide y g.height))
      then some (move_cursor (to_float (divide x g.width)) (to_float (divide y g.height)))
      else none

  abbrev pub IsEncodable : WindowEvent Double → Type 0
  IsEncodable e = IsInt32 (input_of e).mouse_bitfield × IsInt32 (input_of e).virtual_key

  window_event-queue :
      (e : WindowEvent Double) (d : Daemon Float)
      → (window_event e d).send_buffer.queue
        ≡ d.send_buffer.queue ++ (packets.serialize (packet_of e) ∷ [])
  unfolding window_event key_cb mouse_cb mouse_pos_cb key_pressed button_pressed cursor_moved
      enqueue_msg enqueue_chunk
  window_event-queue (key_event key scancode action mods) d = refl
  window_event-queue (button_event button action mods) d = refl
  window_event-queue (cursor_event x y) d = refl

  pub window_events-queue :
      (events : List (WindowEvent Double)) (d : Daemon Float)
      → (foldl (λ x e. window_event e x) d events).send_buffer.queue
        ≡ d.send_buffer.queue ++ map packets.serialize (map packet_of events)
  window_events-queue [] d = sym (append-nil d.send_buffer.queue)
  window_events-queue (e ∷ es) d =
      window_events-queue es (window_event e d)
      ∙ ap (λ q. q ++ map packets.serialize (map packet_of es)) (window_event-queue e d)
      ∙ append_assoc d.send_buffer.queue _ _

  abbrev pub acted : Daemon Float → List (Effect Float) → Daemon Float
  acted d more = record d { effects = d.effects ++ more }

  abbrev pub acts_of : Option (Effect Float) → List (Effect Float)
  acts_of none = []
  acts_of (some a) = a ∷ []

  pub handle_input-event :
      (l : InputLaws o) (e : WindowEvent Double) (d : Daemon Float)
      → handle_input o (input_of e) d ≡ acted d (acts_of (action_of e))
  unfolding handle_input
  handle_input-event l (key_event key scancode action mods) d =
      let below = l.minus_one_below in ground (arith, append-nil d.effects)
  handle_input-event l (button_event button action mods) d =
      let below = l.minus_one_below in ground (arith, append-nil d.effects)
  handle_input-event l (cursor_event x y) d = ground (arith, append-nil d.effects)
