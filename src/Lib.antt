-- ===== src/Lib.antt =====
-- FriendViewer's desktop daemon: a client that connects to a distributor, speaks a protocol of
-- length-prefixed packets, and shares a screen. This library models its C++ code under
-- prototype/network_protocol and prototype/daemon, from the bytes on the socket up to the
-- handlers of the packets, and from the pixels of the host's screen through the encoder and the
-- decoder to the client's window.
--
-- How the parts interact. A turn of the daemon's loop (`run_frame`) polls the network manager,
-- which receives what the socket has, feeds it to the message parser, takes the complete messages
-- from it, parses each as a packet and calls the handlers of the packet's type, as a task or at
-- once. Handlers change the daemon's state and enqueue packets in a chunk buffer; the same turn
-- then sends the buffer's packets through the socket, each behind its length. A second thread
-- reads commands from the terminal. In a session the host's encoding thread takes a frame from
-- the screen capture, encodes it and enqueues it as a packet; the client's decoding thread
-- decodes the packets that came, and its rendering thread hands the frames to the window, whose
-- callbacks enqueue the keys and buttons as packets for the host.
--
-- Which file models what:
--   Prelude                    the native numbers, lists and machine words that the parts share:
--                              32-bit lengths as bytes, signed 32-bit and 64-bit wrap-around
--   MessageManager             prototype/network_protocol/message_manager.{hh,cc}, class
--                              MessageManager; one function per method, and one for each part of
--                              the loop of parse_blob. Feed reads one byte at a time, as the
--                              reference; Wire is the protocol; Queue is what a reader gets
--   ChunkBuffer                prototype/daemon/chunk_buffer.hh; Schedule has the calls of
--                              several threads in the order in which they get the mutex
--   ClientSocket               prototype/daemon/networking/client_socket.{hh,cc}; Winsock is the
--                              record of what the class calls
--   Packet                     prototype/protobuf/fv_packet.proto
--   NetworkManager             prototype/daemon/networking/network_manager.{hh,cc}; the callbacks
--                              and the state that they share are parameters. Delivery has one
--                              poll, Stream the polls on the pieces of a stream, and Tasks and
--                              Processor the futures
--   Daemon                     prototype/daemon/daemon_backend_controller.{hh,cc}: the state and
--                              the handlers of sessions. Messages has the inner packets, Control
--                              the other handlers, the callbacks and the subscriptions, Frame the
--                              function run_frame, Cli the function split and the commands,
--                              Threads the loops of handle_encode, handle_decode, handle_render,
--                              Main the constructor, init, and prototype/daemon/daemon_main.cc.
--                              Receiving, Turn and Arrival have what a connected daemon's frames make of
--                              the packets of a stream, Partial of a front of it, Greeting a
--                              connect and what follows it, Hosting a host that encodes and sends,
--                              Video its video at a client
--   InputControl               prototype/daemon/input/input_control.cc, the cursor and the faked input
--   Libav                      the functions of libav that the encoder and the decoder call, as a
--                              record, and the deleters of the smart pointers; Owned counts the
--                              objects that are alive, and Bench is a small libav
--   H264Encoder                prototype/daemon/decoder/h264_encoder.{hh,cc}. Nalu has the byte
--                              stream that seek_nalu searches, Split where the bytes of a packet go,
--                              Rows the rows for the scaler, Owned the smart pointers, and Host the
--                              rounds of handle_encode on this encoder; Again has its next session,
--                              and Client what a client gets of its bytes
--   H264Decoder                prototype/daemon/decoder/h264_decoder.{hh,cc}. Result has the answers
--                              of its methods, Owned the smart pointers, and Host the rounds of
--                              handle_decode on this decoder
--   DxgiCapture                prototype/daemon/capture/dxgi_capture.{hh,cc}, over a record of the
--                              calls of DXGI and Direct3D. Outputs has the loop over the outputs,
--                              Owned the references, Frame the method get_frame, and Host the
--                              capture with the encoder
--   GlWindow                   prototype/daemon/renderer/gl_window.{hh,cc}. Calls has the calls of
--                              OpenGL and GLFW as data, Picture what is drawn, Started a new
--                              window, Objects and Closed what is made and deleted, Mapping and
--                              Distinct the key codes, and Keys the callbacks; Remote and Relay
--                              have the input of a window on its way to the host's input component
--   Daemon.Steps               the daemon as a step relation over all of these; Unseen has what its
--                              steps show
--   Runs, Daemon.FrameRuns,    concrete runs of each part, and of two daemons;
--   Daemon.WireRuns,           WireRuns has what the two run on
--   Daemon.VideoRuns,
--   GlWindow.RelayRuns,
--   H264Encoder.ClientRuns
--
-- State and effects. A method that changes its object takes it and returns the new one. The
-- operating system is a type of worlds with one function for each call; what the code relies on
-- is in small records of laws (SendLaws, Progress, Unbroken, ReceiveLaws, IsOpen, PeerClosed,
-- HandleLaws; CodecLaws, VideoLaws and InputLaws of the code of protoc; LiveLaws and FrameLaws of
-- libav; LiveLaws and MapsAll of Windows; PictureLaws and ObjectLaws of OpenGL), each with an
-- instance among the runs. In Daemon the calls of the encoder, the decoder, the window and the
-- input component are recorded in the order in which they are made; the files called Host, and
-- GlWindow.Picture and GlWindow.Keys, put the modelled parts in their place. `none` stands for
-- undefined behaviour or an exception (a join on a pointer that is to no thread, the first token
-- of an empty line, a null pointer, a write behind a buffer) and, where a function has fuel, for
-- a loop that has not ended. A task that throws ends there, and the state is as it was at the
-- throw.
--
-- Fuel. parse_blob has the length of the blob, the loop over the queue the queue's length and one
-- more, split the line's length and one more, flush the buffer's length and one more, a pass over
-- the futures their number and one more; each is proved enough. The loops on the socket depend on
-- the peer: `send_data` and `receive_data` take the fuel as an argument, and so does the loop
-- over the outputs of the capture's `init`, which depends on Windows.
--
-- Bounds. A message is below 2 ^ 31 bytes where its length is read back, since the parser reads
-- the length as an int32, and where it is sent, since `send_block` takes its size as an int.
-- Bytes are below 256 where bytes are recovered from a length. The time is a number that does not
-- go back. Widths and heights are not negative. The size of a decoded frame, the offsets in a
-- frame that is encoded and the number of an output are `int`s, and going beyond 2 ^ 31 is
-- `none`; the sizes in the capture and the window wrap around at 2 ^ 32. The encoder's count of
-- packets stays below 2 ^ 31. A string that was moved away is taken to be empty. A shader is its
-- stage, and the arrays of constants are their sizes.
--
-- Concurrency. A handler is one step; handle_heartbeat is two, before and after its wait. Steps
-- of tasks, of the terminal and of the loop come in any order in Daemon.Steps. Data races inside
-- a handler are not modelled.
--
-- Not modelled: the distributor and its database, which are in Java, and which pass the packets
-- of a session on (of two daemons, what one receives is a hypothesis about what the other has
-- sent); the code that protoc generates, libav, Winsock, DXGI, Direct3D, OpenGL, GLEW and GLFW,
-- which are parameters; the pauses between the rounds of a loop; the memory layout of libav's
-- frames and the threads that own an OpenGL context.
pub mod Prelude
pub mod MessageManager
pub mod ChunkBuffer
pub mod ClientSocket
pub mod Packet
pub mod NetworkManager
pub mod Daemon
pub mod InputControl
pub mod Libav
pub mod H264Encoder
pub mod H264Decoder
pub mod DxgiCapture
pub mod GlWindow
