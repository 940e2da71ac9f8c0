-- ===== src/GlWindow/Keys.antt =====
-- The callbacks of gl_window.hh, and what the daemon registers with them.
use friendviewer.Prelude.{ℕ, ◌+◌, ◌≡◌, sym, ◌∙◌, List, [], ◌∷◌, ◌++◌, map, append_assoc, append-nil}
use friendviewer.Prelude.Words.{ℤ, pos}
use friendviewer.Packet.{FvPacketType}
use friendviewer.ChunkBuffer.{enqueue_chunk}
use friendviewer.Daemon.{Daemon, Outside}
use friendviewer.Daemon.Messages.{Inner}
use friendviewer.Daemon.Control.{enqueue_msg, key_pressed, button_pressed, cursor_moved}
use friendviewer.GlWindow.{GlWindow}
use friendviewer.Daemon.Stream.{sent_packet}
use friendviewer.GlWindow.Mapping.{GlfwKey, get_key_mapping}

-- The callbacks that the window holds.
pub record Callbacks (S Double : Type 0) : Type 0 where
  pub key : ℤ → S → S
  pub mouse : ℤ → S → S
  pub mouse_pos : Double → Double → S → S

unfoldable pub register_callbacks :
    {S Double : Type 0}
    → (ℤ → S → S)
    → (ℤ → S → S)
    → (Double → Double → S → S)
    → Callbacks S Double
    → Callbacks S Double
register_callbacks key mouse mouse_pos c = record c {
  key = key;
  mouse = mouse;
  mouse_pos = mouse_pos;
}

-- The static callbacks of GLFW. The actions are not read, and the doubles are divided by `divide`.
module _ {S Double : Type 0} (c : Callbacks S Double) where
  unfoldable pub key_cb : (GlfwKey → ℤ) → ℤ → ℤ → ℤ → ℤ → S → S
  key_cb code key scancode actions mods s = c.key (get_key_mapping code key) s

  unfoldable pub mouse_cb : ℕ → ℤ → ℤ → S → S
  mouse_cb button action mods s = c.mouse (pos (button + 1)) s

  unfoldable pub mouse_pos_cb : (Double → ℕ → Double) → GlWindow → Double → Double → S → S
  mouse_pos_cb divide g x y s = c.mouse_pos (divide x g.width) (divide y g.height) s

-- What GLFW says of one key, in its order: the scancode, the action and the modifiers.
abbrev pub KeyEvent : Type 0
KeyEvent = ℤ × ℤ × ℤ

module _ (o : Outside) where
  open o use {Float}

  -- What the daemon's `init` registers.
  abbrev pub daemon_callbacks : Callbacks (Daemon Float) o.Double
  daemon_callbacks = record {
    key = key_pressed o;
    mouse = button_pressed o;
    mouse_pos = cursor_moved o;
  }

module _ (code : GlfwKey → ℤ) (o : Outside) where
  open o use {Float, float_minus_one}

  unfoldable pub key_events : ℤ → List KeyEvent → Daemon Float → Daemon Float
  key_events key [] d = d
  key_events key ((scancode, action, mods) ∷ events) d =
      key_events key events (key_cb (daemon_callbacks o) code key scancode action mods d)

  abbrev pub key_packet : ℤ → List ℕ
  key_packet key = sent_packet o FvPacketType.control_input (
      Inner.control_input (record {
        abs_x = float_minus_one;
        abs_y = float_minus_one;
        mouse_bitfield = pos 0;
        virtual_key = get_key_mapping code key;
      }))

  -- Each event of a key, a press, a repeat or a release, sends the other side the same packet with the
  -- mapped key; nothing in the packets tells a release from a press.
  pub key_events-key_packet :
      (key : ℤ) (events : List KeyEvent) (d : Daemon Float)
      → (key_events key events d).send_buffer.queue
        ≡ d.send_buffer.queue ++ map (λ e. key_packet key) events
  unfolding key_events key_cb key_pressed enqueue_msg enqueue_chunk
  key_events-key_packet key [] d = sym (append-nil d.send_buffer.queue)
  key_events-key_packet key ((scancode, action, mods) ∷ events) d =
      key_events-key_packet key events (key_cb (daemon_callbacks o) code key scancode action mods d)
      ∙ append_assoc d.send_buffer.queue (key_packet key ∷ []) (map (λ e. key_packet key) events)
