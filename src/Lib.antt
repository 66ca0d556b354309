-- ===== src/Lib.antt =====
-- The block consensus of the Bryllite prototype, as tests/dev/node-server-mono and its earlier form
-- tests/dev/bcp_mono run it: the nodes of one process agree on a block by a round of proof of
-- participation, proposal, vote and commit.
--
-- The parts and their files:
--   * Core: what the program uses of the closed libraries of bryllite-core (block headers, blocks,
--     transactions, the chain class of a node) as records of operations. Their code is not in the
--     repository: they are a parameter of all else, with no laws.
--   * Bcp: tests/dev/node-server-mono/bcp_server.{hpp,cpp}. BcpServer is the class bcp_server, its
--     fields the members. Bcp/Rounds holds append_new_round_message_for and new_round_start_for,
--     Bcp/Select the user and the proposed headers, Bcp/Votes and Bcp/Election the votes,
--     Bcp/Commit the verified blocks, Bcp/Process process() with its callbacks, Bcp/Tally the
--     counting of votes. Bcp/Process/Steps and Bcp/Process/Timeouts are about the moves of the
--     step machine, Bcp/Sound about the invariant, Bcp/Agreement about two servers, Bcp/Senders
--     about the peers whose blocks are counted.
--   * Ledger: block_chain.{hpp,cpp} of the same directory, with Ledger/Append about append_block
--     and Ledger/Balance about update_balance.
--   * Node: node_server.cpp, node_message.inl and node_manager.cpp. A node hands a message to its
--     peers by calls, so that sendall runs all handlers before it returns; Node/Server has the
--     callbacks of the consensus server, main() and start(); Node/Kept and Node/Sound carry a
--     property of the nodes through every handler, Node/Run through whole runs, Node/Steps the
--     protocol, and Node/Commit is about the chain of a node.
--   * Mono: tests/dev/bcp_mono, an earlier form with a state machine per node. Mono/Vector is
--     _vector.cpp, Mono/Chain block_chain.cpp, Mono/Peer the handlers of node.cpp and the sending
--     of node_manager.cpp, Mono/Peer/States the begin of each state and the requests,
--     Mono/Peer/Mains onMain(), start() and run(). The other modules below Mono are about these;
--     MonoCore adds what this form uses of the closed code.
--   * Stream: tests/dev/p2p_server/byte_stream.{hpp,cpp}, the buffer of a connection. Stream/Contents
--     has the bytes that wait in it, Stream/Queue and Stream/Reads are about write() and read(),
--     Stream/Shifts has the operators << and >>.
--   * P2p: the rest of tests/dev/p2p_server. P2p/Buffer is session_buffer and byte_buffer, P2p/Session
--     p2p_session.{hpp,cpp}, P2p/Reading the handlers of p2p_server.cpp that read a session,
--     P2p/Server its accepting and sending, P2p/Client p2p_client.{hpp,cpp}, P2p/Peers peer.{hpp,cpp}
--     with the peers of a server, P2p/Notify peer_message.inl, P2p/Node node_server.{hpp,cpp};
--     P2p/Socket is what they use of boost::asio. P2p/Framing has the completions of the reads of a
--     session: a read of an open socket completes with the bytes that it asks for, or fails where the
--     connection ends before. P2p/Row, P2p/Header, P2p/Body and P2p/Steps follow one message through
--     a row, P2p/Frames says what the messages of a sequence of bytes are, P2p/Delivery and
--     P2p/Sending are about whole connections, P2p/ClientFraming and the modules with Client in their
--     name the same for a client that reads, P2p/Handshake, P2p/Outcome and P2p/NotifyRead about
--     the notify, P2p/Owners, P2p/Lifetime and P2p/Broadcast about the list of sessions,
--     P2p/Registry about the peers. P2p/Start has start_server() and stop_server().
--   * Message: bryllite-core/message.inl, the messages of all programs. Message itself has the header
--     and the copies of strings, Message/Ids the identifiers, Message/Classes and Message/Layout the
--     classes with their members and sizes, Message/Common and Message/NodeMessages a record and the
--     constructors of each class, Message/Carried what they use of the closed classes,
--     Message/Objects the sizes of these by their declared fields. Message/Sizes,
--     Message/Text and Message/Indices are about these.
--   * App: apps/*/main.cpp. App/NodeServer, App/BridgeServer, App/GameServer and App/GameClient are
--     the four programs, with the fields of their app_config.hpp; App has the parameter Machine, what
--     is outside of a program, and App/Loop the loop and what the system does with a signal, by the
--     handlers that it has been given. App/Stops is about the loop, App/NodeRuns,
--     App/BridgeRuns, App/GameRuns and App/ClientRuns about whole runs, App/Options and App/Accepted
--     about the options, App/Clients about the clients that the game client makes.
--   * Wire: bryllite-core/socket_buffer.hpp, with Wire/Ring about it; Wire/Udp is udp_client.hpp,
--     which sends and receives the messages of Message, with Wire/Datagrams about it; Wire/Hash is
--     sha256.cpp.
--   * Common: bryllite-common/enum.hpp in Common/Bits, with Common/Flags about it, the enums of
--     clog.hpp in Common/Log, and singleton.hpp in Common/Singleton.
--   * Declared: the fields, enums, timeouts and callbacks that the headers of bryllite-core,
--     bryllite-common and apps declare for code that is compiled elsewhere.
--   * Prelude: std::map as an association list in ascending key order, and what the parts share.
--   * Tests: a small instance of Core and the theorems at concrete inputs.
--
-- A method returns the new state with its result, and none where an out-parameter is not set. A
-- hash or an address is a number, in the order of the std::map; a uint64_t amount wraps at 2^64; a
-- time stamp is an argument. What new memory holds is an argument of the streams. The
-- loops run over a map, a list or the peers; the outer loop of node_manager::main() is a run over a
-- list of passes, each with the clock readings of the nodes. The main loop of a program of apps
-- runs until a signal comes and is on fuel: fuel for one pass more than those up to the first
-- interrupt is enough. A signal without a handler is ignored or ends the process, as the platform
-- says.
--
-- The reads of a session are on fuel that counts completions: two for each message, of its header and
-- of its body, and two for the end of the connection.
--
-- An exception of a closed call is a value, and a signal an event in a pass of the main loop. The
-- size of a message class follows the layout rules of a 64-bit platform.
--
-- Not modelled: the mutexes (a method runs alone), log output, key files and console input; the
-- methods of the closed classes behind the headers of bryllite-core, bryllite-common and apps;
-- copies of other projects (nlohmann/json, Bitcoin Core, easy-ecc, libsecp256k1, PicoSHA2).
pub mod P2p
pub mod Prelude
pub mod Core
pub mod Bcp
pub mod Ledger
pub mod Node
pub mod Mono
pub mod Stream
pub mod Message
pub mod App
pub mod Wire
pub mod Common
pub mod Declared
pub mod Tests
