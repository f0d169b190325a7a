-- ===== src/Lib.antt =====
-- The library hakoniwa-pdu-endpoint moves PDUs, the byte blocks of a simulation, between programs.
-- An Endpoint is a cache together with an optional transport (comm) and an optional table of PDU
-- names; a transport puts PDUs into packets and hands received ones to the endpoint, which stores
-- them in the cache and calls the subscribers; an EndpointContainer owns the endpoints of a node
-- and brings them up and down together.
--
-- Types.antt is include/hakoniwa/pdu/endpoint_types.h and endpoint_types.hpp: error codes and keys.
-- Json.antt collects what the code takes from nlohmann::json and std::filesystem; both are outside
-- the repository, so they are a record of functions that every reader of a document takes as a
-- parameter.
--
-- Packet.antt with its children is include/hakoniwa/pdu/comm/packet.hpp: Wire the integers and
-- their byte order, Meta the header and the packet object, V1 and V2 the two formats, Codec the
-- choice between them. CommRaw.antt is include/hakoniwa/pdu/comm/comm_raw.hpp: a send returns the
-- bytes for raw_send, on_raw_data_received the call of the callback. A byte is a number below 256,
-- a machine integer is its bit pattern, and wrap-around is written out. A host has either byte
-- order.
--
-- Cache.antt with its children is include/hakoniwa/pdu/cache/cache_buffer.hpp (Buffer),
-- include/hakoniwa/pdu/cache/cache_queue.hpp (Queue), include/hakoniwa/pdu/cache/cache.hpp and
-- create_pdu_cache of src/pdu_factory.cpp (Dispatch). An operation takes the object and returns it
-- with the error code; read also returns the caller's span and received_size. Buffer/Latest and
-- Queue/Fifo give the abstract objects that the caches implement.
--
-- PduDefinition.antt is include/hakoniwa/pdu/pdu_definition.hpp and the look-ups of
-- src/pdu_definition.cpp; PduDefinition/Loading is the loading of both formats, in which an
-- exception or an early return keeps what was stored before it.
--
-- Endpoint.antt with its children is include/hakoniwa/pdu/endpoint.hpp: the state and the traffic,
-- Opening (create_pdu_lchannels, open), Lifecycle (close, start, post_start, stop, is_running).
-- Endpoint/Comm is include/hakoniwa/pdu/comm/comm.hpp as a record of operations on a state that the
-- transport chooses, and create_pdu_comm of src/pdu_factory.cpp. A null pointer is none, and a call
-- through one makes the operation return none. Subscribers are numbers and a call returns the
-- invocations it makes.
--
-- Container.antt with its children is include/hakoniwa/pdu/endpoint_container.hpp and
-- src/endpoint_container.cpp over a record of endpoint operations, which Container/Endpoints fills
-- with those of Endpoint: Entries (load_entries_), Setup (initialize, create_pdu_lchannels), Walk
-- (start_all, post_start_all, stop_all, is_running_all), Single (start, post_start, stop, ref). The
-- mutex of the container makes each operation one step. The order in which the hash map is walked
-- is a parameter. A field records the endpoints that left the map. ref returns the endpoint as it
-- is in the map; a caller that changes it through the shared pointer is not modelled.
--
-- Shm.antt is src/comm_shm.cpp, src/comm_shm_poll.cpp and src/comm_shm_callback.cpp with their
-- headers, over the record HakoCore of the calls of the hakoniwa core; Shm/Opening is open and
-- create_pdu_lchannels, Shm/Events post_start and the dispatch of events through the static map,
-- for which the objects stand in a store. A C string is passed to the core as the text it ends.
--
-- Sockets.antt is src/socket_utils.cpp and the record Posix of the system's calls, which are a
-- parameter; its children hold what the transports share: Options (socket options), Stream and
-- Output (the loops over recv and send), Descriptors (what the system promises about descriptors).
-- A descriptor of -1 is none.
--
-- Tcp.antt with its children is src/comm_tcp.cpp and include/hakoniwa/pdu/comm/comm_tcp.hpp: the
-- state and the calls of the owner, Opening (raw_open), Framing (the packet loops), Threads
-- (server_loop, client_loop, connect_with_timeout), Steps (the owner's calls and the thread's steps
-- in any order). The thread that raw_stop joins is taken to close its connection and to end; a
-- connection that it accepts in that moment is closed at once and left out.
--
-- Udp.antt with its children is src/comm_udp.cpp and include/hakoniwa/pdu/comm/comm_udp.hpp;
-- TcpMux.antt and TcpMux/Session are src/comm_tcp_mux.cpp and
-- include/hakoniwa/pdu/comm/comm_tcp_mux.hpp.
--
-- Multiplexer.antt is include/hakoniwa/pdu/endpoint_comm_multiplexer.hpp and
-- src/endpoint_comm_multiplexer.cpp over a record of the operations of
-- include/hakoniwa/pdu/comm/comm_mux.hpp; an exception that leaves open is none. Sequence numbers
-- are printed with 20 digits of fuel, which a size_t never exceeds.
--
-- The loops over lists need no fuel. read_data and write_data spin on EAGAIN, so they take fuel:
-- one for each byte and each EAGAIN is enough, as Sockets/Stream and Sockets/Output state. The
-- loops of the threads, which run while a flag is set, take the number of rounds that find it set;
-- a thread whose fuel runs out has not left its loop. Examples.antt has concrete documents, a
-- transport and the theorems at concrete inputs.
--
-- Not modelled: the transport comm_websocket, which is calls of Boost.Beast; the typed endpoint,
-- whose converters are generated; the time sources; log output; the Python tools, tests and
-- examples.
pub mod Prelude
pub mod Types
pub mod Json
pub mod Cache
pub mod Packet
pub mod CommRaw
pub mod PduDefinition
pub mod Endpoint
pub mod Container
pub mod Sockets
pub mod Tcp
pub mod Udp
pub mod TcpMux
pub mod Shm
pub mod Multiplexer
pub mod Examples
