-- ===== src/Lib.antt =====
-- Models of the client core and of the proxy of PBNS, with proofs of what they promise.
--
-- The program. A client that boots a machine (the C core in src/core, under UEFI applications)
-- talks to a gateway over a serial link: it sends frames, each one a COBS record that ends in a
-- zero byte. A small proxy (pico/src) carries the bytes between the link and a TLS connection. On
-- top of the frames stand request streams and the broker, which runs one session at a time: a
-- request with its response, a download or an upload. Behind them are the download of a recovery
-- image, and a store that keeps the lowest version that may still boot.
--
-- The files and the code that they follow, by paths from the root of the repository:
--
--   Common          helpers on lists, tests, numbers and xor; Common/Codes is
--                   include/pbns/status.h and Common/Memory is include/pbns/buffer.h
--   Wire/Cobs       src/core/cobs.c: pbns_cobs_max_encoded_size, pbns_cobs_encode and
--                   pbns_cobs_decode are max_encoded_size, encode and decode, their loops
--                   encode_loop, decode_loop and copy_run. Wire/Cobs/Spec is the encoding as a
--                   function on lists, which the code is compared with
--   Wire/Crc32c     src/core/crc32c.c: pbns_crc32c, with its table, is crc32c. Wire/Crc32c/Bitwise
--                   has the polynomial division bit by bit as its reference
--   Wire/Frame      src/core/frame.c: pbns_frame_encode is encode (its guards are encode_checks,
--                   its writes encode_record), pbns_frame_decode is decode (raw_checks are its
--                   guards after COBS). They call Wire/Cobs and Wire/Crc32c
--   Wire/RecordReader
--                   src/core/record_reader.c: init, reset and push, with the loop push_loop
--   Session/Stream  src/core/stream.c: init, reset and accept of the frames of one request
--   Common/Actions  actions on a state that may fail, as the broker's functions; the rules for what
--                   they keep stand in Common/Actions/Triples and Common/Actions/Keeps
--   Session/Broker  src/core/broker.c: a request, a download and an upload, over a transport.
--                   Types has the broker and what it works with (include/pbns/broker.h and
--                   transport.h), Storage init and the wiping, Link the limits, the deadline, the
--                   frames that are sent and finish_session, Receive the loop of
--                   pbns_broker_receive, RemoteError and Utf8 the error of a peer, Bulk a download,
--                   Upload an upload, Request pbns_broker_request and reset. They call Wire/Frame,
--                   Wire/RecordReader and Session/Stream. Sessions counts the links that are open
--                   and says what is left in the storage, Download counts the data, Fresh and
--                   Progress the counters of a broker that has no session, Padding what stands
--                   behind a payload, and Answers follows a response back to its request
--   Session/Launcher
--                   src/core/launcher.c: pbns_launcher_run is run; the load and start of a target,
--                   which the code has twice, are attempt and start_image
--   Recovery/Stream src/core/recovery_stream.c: init, accept, complete (named finish) and reset,
--                   over the operations of a hash
--   Proxy/ByteRing  pico/src/byte_ring.c: every operation of the ring
--   Proxy/BytePump  pico/src/byte_pump.c: the two directions (write_pending, read_available), steps
--                   and batches (Proxy/BytePump/Step), over two endpoints
--   Proxy/ProvisionGate
--                   pico/src/provision_gate.c: the gate (observe) and its session
--                   (observe_session). Proxy/ProvisionGate/Holding follows the samples of a press
--   Storage/AntiRollback
--                   src/core/anti_rollback.c: records, slots, read and advance, over the
--                   callbacks of a TPM or of a memory with two slots
--   Tests           runs on concrete inputs
--
-- How the code is modelled. Numbers are natural numbers, and a wrap-around of an unsigned type is
-- written out where the code can reach it. The hosts have 64-bit sizes and addresses. A pointer
-- is its address with the bytes behind it, 0 for NULL; a buffer keeps all the bytes of its
-- storage, so that a result says what a call leaves in memory, also after an error. A function
-- that writes through pointers returns a record of everything that it leaves behind. A run of
-- guards that stand before any write is a list of statuses, of which the first failure is
-- returned. The codes of services and message types are numbers, since the code compares them as
-- such. What a callback or an endpoint does is a parameter that acts on a world of any type; what
-- is asked of it stands in a record of promises (KeepsSlots, Carries, CountsImages, Promises). A
-- function of the broker is an action: what it has written stays written when it fails, and
-- `rescue` is the clean-up of an error path, which then returns the first error. The loop that
-- pbns_broker_receive and pbns_broker_bulk_receive both have is one definition, read_record. The
-- storage of the reader is the encoded buffer of the broker, since init gives both the same
-- pointer. pbns_broker_reset returns the storage of the caller, which the broker itself has no
-- name for any more. The body of a request does not lie in the storage of the broker. The encoder
-- of Wire/Cobs has its input and its output in separate storage, whatever their addresses are:
-- cobs.c has no test for an overlap, which pbns_frame_encode refuses before it calls it. What is
-- used of the CBOR library is the record ErrorCodec.
--
-- Fuel. decode_loop reads at least one byte in each round, and the length of the input is given,
-- which Wire/Cobs/Fuel is about. read_record goes round until a record is complete or the time is
-- over: the clock counts ticks, each `receive` takes one, and a deadline is a 64-bit number of
-- milliseconds, so that one round for each tick up to it is enough, and Sessions/Rounds is about
-- that. A world whose clock stands still and whose transport never delivers is not among them. The
-- batch of the pump counts down from its own limit of eight.
--
-- Not modelled: the object that a function works on being at NULL; the codecs of objects and
-- envelopes and the TLS layers, which call vendored libraries; attestation, enrollment and the
-- records of the platform; the UEFI applications; the rest of the proxy's firmware; the gateway.

pub mod Common
pub mod Proxy
pub mod Recovery
pub mod Session
pub mod Storage
pub mod Tests
pub mod Wire
