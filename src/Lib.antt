-- ===== src/Lib.antt =====
-- aqua, an MQTT server framework in Rust: a coder for MQTT 3.1.1 and 5 packets, connections that drive
-- two services with the packets of a client, a session manager, and a store of retained messages.
--
-- The parts, and where each is modelled:
--   * mqtt_coder/src/mqtt.rs: readers and writers (Wire), field and property types (Property), one module
--     for each packet (Packet), all packets as one type and the fixed header (Coder/ControlPacket,
--     Coder/FixedHeader). `X::try_from` is `x_try_from`; each other function keeps its name.
--   * mqtt_coder/src/decoder.rs and encoder.rs: Coder/Decoder, one function for each state of
--     `poll_decode`, and Coder/Encoder. Coder/Decoder/Delivered has the decoders of a connection as a step
--     relation. The source has no encoder for what clients send: Packet/Subscribe/Options and Filters have
--     the bytes of the payload of a SUBSCRIBE as MQTT lays them out, to compare the decoder with.
--   * src/aqua/connection.rs: Connection; `poll` takes what a poll finds outside, the `World` of an
--     `Environment`, and gives the connection, the channels and the outcome. The task that writes its
--     channel to the socket is Connection/Writer, over the packets that come until the channel is closed
--     and a `Socket` that takes some of the bytes at a time. Its responses, from
--     src/aqua/connection/response.rs and connack_response.rs: Connection/Responses.
--   * src/aqua/connection/session_manager.rs: Session. src/aqua/connection/retain_store.rs: Retain, and
--     Topic for its `is_match`.
--   * src/aqua.rs, the accept loop with what src/aqua/connection/request.rs tells the services: Accept.
--   * src/main.rs: Server. examples/broker.rs: its topic manager, Broker/TopicManager; what its services
--     share, Broker/State; the deliveries they spawn, Broker/Delivery; each arm of the handler,
--     Broker/Service; the connect service, Broker/ConnectService; and the whole as a system of
--     connections, Broker/System.
-- A connection reads bytes into its decoder, polls that until a packet is there, hands it to a service,
-- and sends the packets of the response into the channel whose receiver writes them with the encoder.
--
-- How values are modelled: a Rust string is its bytes, in UTF-8 (Utf8 decides that as `from_utf8` does);
-- a struct of one field is that field; bytes and words are native numbers, with the wrap of each cast
-- written out. A call of the coder comes to an `Outcome`: a value, an `MqttError`, a panic (an index or
-- slice out of range, an `unwrap` of `None`, arithmetic that overflows, with overflow checks on) or, in
-- the model only, fuel that ran out. What a packet holds after an error is not kept: the decoder takes
-- a fresh packet for the next fixed header. A poll says whether it called the waker.
--
-- Loops: the variable byte integer has four rounds, as the source counts them. The loop over properties
-- has one round more than the block has bytes, enough since every round takes a byte; the loops over
-- topic filters have one more than there are bytes for the same reason. The loop of `is_match` has one
-- round for each segment of the filter, and the loop that empties the write buffer one round more than
-- that has bytes.
--
-- Interfaces: the concurrent map of dashmap (DashMap, met by an association list in DashMap/Assoc), the
-- channel of tokio (Channel, with a bounded queue that meets it), uuids (the `Backend` of Session), and the
-- services and the socket of a connection (the `Environment` of Connection and the `Socket` of its
-- writer). Each operation on a map is atomic here; an iteration sees one state of its map.
--
-- Steps: a handler of the broker and a spawned delivery each run as one step on the shared stores, and the
-- steps of all connections interleave in any order; a delivery may run at any time after it was spawned.
-- The random numbers of the broker come from a generator, and what it prints is part of the result.
--
-- Not modelled: sockets, timers and the scheduler of tokio; logging; tests.
pub mod Accept
pub mod Base
pub mod Outcome
pub mod Bytes
pub mod Utf8
pub mod Wire
pub mod Property
pub mod Packet
pub mod Coder
pub mod DashMap
pub mod Topic
pub mod Retain
pub mod Channel
pub mod Session
pub mod Connection
pub mod Server
pub mod Broker
pub mod Examples
