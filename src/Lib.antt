-- ===== src/Lib.antt =====
-- Verification of spraybus, a publish/subscribe message bus over ENet.
--
-- The program. A server process (drivers/main.cpp) listens on a UDP port. Clients connect, ask it for
-- the numeric key of a topic name, subscribe to keys and publish payloads to keys; the server forwards
-- each payload to the other clients that are subscribed to its key.
--
-- Its parts, and the files that model them:
--   * include/spraybus/networking/protocol.hpp: the packet format. Word is the representation of
--     integers in memory and the byte swaps; Protocol/Enum the three enums with every value that a
--     byte can hold; Protocol/Header the packed struct Header; Protocol/Message the classes
--     Constructor and Message. Protocol/Layout and Protocol/RoundTrip are about the bytes.
--   * include/spraybus/server/topic_map.hpp: class TopicMap, in TopicMap. TopicMap/Names is its
--     specification, the list of names in the order of their first requests, and TopicMap/Keys is
--     about the keys.
--   * include/spraybus/networking/server/server.hpp: the client table and the event loop of
--     Server<Derived, ClientData>, in Networking/Server; the derived class is a record of callbacks.
--     Networking/Server/Table has the abstract table that the map, the vector and the peers' data
--     pointers follow.
--   * include/spraybus/server/server.hpp and src/spraybus/server/server.cpp: class Server, in Server.
--     Server/Bus is its specification, a machine over client records, topic names and packets;
--     Server/Forward, Server/Refinement and Server/Runs relate the handlers, the callbacks and the
--     loop to it, Server/Delivery is about subscriptions and publishing, Server/Connections about
--     connects and disconnects, and Server/Ignored about packets that are not acted on.
--   * include/spraybus/networking/client/client.hpp: the owner of a packet and the connection of a
--     client, in Networking/Client; Networking/Client/Ownership has the programs over packets.
--   * include/spraybus/client/client.hpp and src/spraybus/client/client.cpp: class Client, in Client,
--     with Client/Cache on the resolution of names, Client/Temporary on its connections, and
--     Client/Polling on received packets.
--   * drivers/cli.cpp: the command line client, in Cli, with Cli/Run for run and main. Cli/Port is
--     about the port, Cli/Settings about the options, Cli/Message about the joined words,
--     Cli/Arrivals and Cli/Commands about the commands, Cli/Exceptions and Cli/Exit about the end.
--   * drivers/main.cpp and src/spraybus/networking/networking.cpp: the server process, in Driver.
--   * include/spraybus/common: the environment and the loop over the rounds until SIGINT, in Common;
--     Common/Interrupts has the flag and the handler, and Common/Stopping says when the loops end.
--   * python/src/spraybus/_bindings.cpp: the native Python module, in Bindings, with the interpreter
--     lock in Bindings/Lock and whole programs in Bindings/Program.
--   * src/spraybus/server/logging.cpp: the loggers of the server, in Logging.
--   * test_package/src/example.cpp and examples/client/src/main.cpp, in PackageTest and Example.
--   * System puts clients and the server together: System/Resolve one client that asks for a key,
--     System/EndToEnd one payload on its way, and System/World any number of clients, with the
--     packets in between and schedules of what happens. System/World/Invariant is what holds after
--     every action, System/World/Safety and System/World/Arrival are about what poll() returns, and
--     System/World/Ordering and System/World/Exact say which messages a client gets, in which order.
--   * Prelude, Containers, Exec and Text are shared: tests and list lemmas, unordered_map and
--     unordered_set, results with exceptions and state, and texts with std::to_string and
--     std::stoi.
--
-- How it is modelled. Code that changes state takes the state and returns it with a result, which is a
-- value or a thrown exception; a throw keeps the state that was reached. A Client* is the id of its
-- record in m_client_map; an access whose record is gone gives undefined_behaviour. ENet is not in the
-- repository: what it delivers is a list of events, and what it is asked is a list of effects, oldest
-- first. An ENet peer and an ENet packet are numbers. A uint64_t is a natural number, with its wrap
-- written out; a text and a payload are lists of bytes. Every host may be little- or big-endian.
-- Text.decimal has fuel for 20 digits, since 2 ^ 64 is below 10 ^ 20; the loops of
-- include/spraybus/common/interrupts.hpp have as fuel the rounds that one waits for, more than there
-- are before SIGINT; every other loop runs over a list: of events, of service results, of arguments,
-- of actions, of bytes or of clients.
--
-- What is assumed of ENet is said by Server/Bus, Allows: a peer that connects is not connected, and a
-- packet or a disconnect comes from a peer that is. In System/World it also keeps the order of
-- each connection and loses nothing while it is open, and a new connection starts empty; when a
-- client closes its connection, the packets at the end of its queue may be lost.
-- The bounds on ids and keys in the theorems are those of uint64_t.
--
-- Not modelled: log lines (with the default log level their arguments are kept), what enters the log
-- file, the Python packages and the Python example, and the real time that a call may wait.
pub mod Prelude
pub mod Containers
pub mod Word
pub mod Exec
pub mod Text
pub mod Protocol
pub mod TopicMap
pub mod Networking
pub mod Server
pub mod Client
pub mod System
pub mod Common
pub mod Cli
pub mod Driver
pub mod Bindings
pub mod Logging
pub mod PackageTest
pub mod Example
