-- ===== src/Lib.antt =====
-- qpsk-b210: a radio modem, and a Licklider Transmission Protocol (LTP, RFC 5326) convergence layer
-- that sends blocks of data over it.
--
-- The parts. An `LtpEngine` (src/ltp_cla/ltp_engine.cpp) keeps sessions in a map. `start_session` cuts a
-- block into segments and sends them; `receive_segment` reassembles blocks of the other side, answers a
-- checkpoint with a report of the byte ranges received (src/ltp_cla/reception_tracker.cpp), and retransmits
-- the gaps that a report shows; timers (src/ltp_cla/timer_manager.cpp) repeat what is not answered.
-- Segments travel as bytes (src/ltp_cla/ltp_segment.cpp) whose numbers are self-delimiting
-- (src/ltp_cla/sdnv.cpp), as messages on TCP streams behind a length
-- (src/ltp_cla/convergence_layer_adapter.cpp, src/ltp_cla/tcp_ingress.cpp); blocks received are given to
-- clients, or kept for them (src/ltp_cla/tcp_egress.cpp). The modem puts them into
-- frames of bits with a CRC-32 (src/frame_builder.cpp, src/frame_parser.cpp), which a convolutional code
-- may protect (src/fec_encoder.cpp, src/fec_decoder.cpp), and maps them to QPSK symbols
-- (src/symbol_mapper.cpp): src/encoder.cpp is the way from a payload to samples, src/decoder.cpp the way
-- back, from the preamble that src/frame_sync.cpp finds. Its threads (src/main.cpp) pass data through ring
-- buffers (include/qpsk_b200/spsc_queue.h), from a TCP server for the bytes to send
-- (src/tcp_input_server.cpp) and to one for the payloads received (src/tcp_output_server.cpp).
--
-- The files.
--   Base: numbers, lists, bits, results, maps as association lists.
--   Ltp/Sdnv: `sdnv::encode`, `encode_into`, `decode`; a cursor is the offset and the bytes from it on.
--   Ltp/SegType, Ltp/Segment: include/ltp_cla/ltp_segment.h; Ltp/Segment/Encoder and Decoder:
--     `LtpSegment::encode` and `decode`; Ltp/Segment/Bytes: the wire format as one expression.
--   Ltp/Tracker: `ReceptionTracker`, its ranges as a list.
--   Ltp/Framing: `frame_message`, `extract_framed_message`, the loops over a stream buffer.
--   Ltp/Adapter: `ConvergenceLayerAdapter`: `run_tx` over what each `write` returns, `run_rx` over what is
--     read and where the connection is lost, `reconnect_loop` over the outcomes of `connect_to`; below it
--     Streams, Sending and Transfer (from one adapter to another) and Backoff (the delays).
--   Ltp/Egress: `TcpEgress`, with what `write` returns as an argument; `serve` is any sequence of blocks
--     delivered, clients accepted, and clients closed. Ltp/Config: `LtpClaConfig` and its JSON, for
--     which the library is a parameter; below it Validation (`validate`) and Arguments, Overrides
--     (`apply_cli_overrides`, and `std::stoul` with its 64 bits).
--   Ltp/Session: include/ltp_cla/ltp_session.h. Ltp/Timer: `TimerManager` over an explicit clock.
--   Ltp/Engine/State, Send, Originate, Report, Receive, Finish, Dispatch: `LtpEngine`, a definition for
--     each method and for each of its branches that has a name of its own. `Engine` is the object's
--     state; a callback is an entry of its `effects`, in order; what a method of the engine may do wrong
--     in C++ (a read out of bounds, a `std::length_error`, the wrong alternative of a variant, a loop
--     without end) is an `err` of `Result Fault`. `step` is a call of a public method, `run` any sequence.
--   Ltp/Engine/Originate/Chunks, Reassembly, Transfer, Retransmission, Limits, Expiry, Capacity: proofs
--     on them. Reassembly is about `receive_segment` on the red segments of one session, with Reporting
--     (what a report changes), Absorbed and Taken (one segment, and any number) and Acknowledged (the
--     acknowledgement of a report); Expiry about the timer of a checkpoint.
--   Phy/Frame: `FrameBuilder` and `FrameParser`. Phy/FecEncoder: `FecEncoder`; its Packing: the packed
--     bytes read again. Phy/SpscQueue: `SpscQueue`, a function for each call; its Threads: the accesses of
--     producer and consumer as a step relation.
--   Phy/FecDecoder: `FecDecoder`; below it Trellis and Branches (one step of the Viterbi loop), Paths
--     (all steps, against all paths), Optimal, Noiseless and RoundTrip.
--   Phy/Samples: `float` and `std::complex<float>`, a parameter of what follows. Phy/SymbolMapper,
--     Phy/FrameSync, Phy/PulseShaper: `SymbolMapper`, `FrameSynchronizer`, `PulseShaper`.
--   Phy/Encoder: `Encoder`; its Layout: the bits of a frame whose payload is coded. Phy/Decoder:
--     `try_decode_frame`; its Header: what is read before the frame is parsed; its Chain: the class
--     `Decoder`, with the loops that recover carrier and timing as a parameter. Phy/Link: the receiver on
--     what the transmitter sends.
--   Modem/SetUp, Modem/TcpInput, Modem/TcpOutput: `TcpInputServer` and `TcpOutputServer`, with what the
--     calls of the system return as arguments; TcpOutput has `tcp_output_thread_fn` too.
--     Modem/InputThread: `tcp_input_thread_fn`, a function for each part of its loop. Modem/RxThread:
--     `rx_thread_fn`.
--   Tests: the theorems and the definitions on concrete inputs.
--
-- Bounds and fuel. Numbers are natural numbers with the wrap-around of 8, 16, 32 and 64 bits written
-- out. `segment_loop` and `gap_loop` run on fuel that is the number of bytes to send, which is enough
-- where the segment size is positive; `extract_loop` on one more than the length of the buffer; `ones`
-- on the eight bits of a byte; `send_frames` on one more than the number of bytes buffered, which is
-- enough where the frame size is positive; `decimate_loop` on the number of samples. `encode_loop`
-- recurses on an accessibility proof. A vector has at most 2^63 - 1 bytes and 2^59 - 1 claims, and an
-- allocation below that is taken to succeed.
--
-- Not modelled. The calls of the system on sockets, the start and end of threads, logging, files, the
-- UDP sockets and the radio are input and output; what a socket gives is an argument. The modem's
-- configuration (src/config.cpp) and the command lines of the programs are left out. Floating-point
-- arithmetic is a parameter, of which only the signs of the four points of the constellation are
-- assumed; the loops that recover carrier and timing (src/carrier_sync.cpp, src/timing_recovery.cpp)
-- are a parameter too, and the taps of the filter are not modelled. A callback of the engine does not
-- call the engine, and the timer thread's events reach it as calls, one at a time, as the lock of the
-- adapter makes them. The ring buffer's accesses are interleaved as a whole: that acquire and release
-- order them so is assumed. A session's state is not stored when the session is erased in the same
-- call. The hash of a session key, which only places it, is left out.
pub mod Base
pub mod Ltp
pub mod Phy
pub mod Modem
mod Tests
