-- ===== src/Lib.antt =====
-- A ranking server for Windows: clients connect over TCP, save a score or ask for their rank; scores
-- and ranks are cached in Redis and kept in an SQL database.
--
-- Parts and files. The paths are from the repository's root.
--   Ring: RankingServer/include/LockFreeCircleQueue.h. `Ring` is the class, with `push`, `pop`,
--     `construct`, `front`, `empty`, `size`, `capacity`, `clear` and `printed` (print) run alone;
--     Ring/Atomic has `push` and `pop` one access to shared memory at a time.
--   Packet: RankingServer/include/MyPacket.h. `MessageHeader`, `CustomOverlapped` and the operations
--     on its two buffers, which are lists of bytes; a write outside a buffer is `none`. Packet/Heap
--     has the same operations over a heap of blocks that are allocated and freed, with the
--     constructor, the copy constructor and the destructor.
--   Network: Client.cpp, Session.cpp and NetworkManager.cpp of RankingServer/src and their headers.
--     Network/State has the state that they share: the overlapped structures, the queue of free
--     ones, those that the operating system works on, the client map and what has been sent. A
--     pointer to a structure is its index. Network/Client has `accept_ready`, `receive_ready` and
--     `send`, Network/Session the loop `process` with its `round`, Network/Manager `Initialize`,
--     `Ready` and `Send`.
--   Protocol: RankingServer/include/RANKING_PROTOCOL_generated.h, a module for each table;
--     Protocol/Envelope is RANKING_PROTOCOL, Protocol/Verify has the verification, and Protocol/Roots
--     the functions for whole buffers.
--   Data: RankingServer/include/DataStructure.h. Converter: RankingServer/include/Converter.h.
--   Database: RankingServer/src/DatabaseWorker.cpp.
--   Hub: RankingServer/src/Hub.cpp and RankingServer/src/RankingSystem.cpp.
--     `hub_read` is the callback that the sessions are given; it changes the network and the cache.
--     Hub/Handles has the rounds of `Hub::Work` with the ODBC statement handles of DatabaseWorker.cpp.
--   Server: RankingServer/main.cpp, the whole server as a relation of steps: rounds of session
--     threads, the calls that Hub::Work makes, and the passing of time. Server/Threads has the session
--     threads beside each other: Threads/Rounds is a round as a program of accesses to what the
--     threads share, Threads/Steps lets any thread make the next access, Threads/Typed says which
--     structures a program may use, and Threads/Coarse leads from whole rounds to single accesses.
--     Threads/Torn does `push` and `pop` one access to the queue's memory at a time as well.
--   Outside: the libraries that the program calls, as records of operations and of what their
--     documentation says: FlatBuffers, nlohmann::json, Redis, ODBC and the C calendar.
--     Outside/Instances has concrete ones.
--   Log: RankingServer/include/Log.h.
--   Examples: tests and concrete instances. Base: shared helpers.
--
-- An integer of the program is its bit pattern in ℕ. What the operating system answers is an
-- argument, and so is what the compiler makes of the end of `accept_ready`, which has no return. A
-- push or a pop is one access in Server/Threads; how two threads meet within them is in Ring/Atomic
-- and Server/Threads/Torn, where accesses are sequentially consistent. Outside these, a round of a
-- session is one step. `none` is undefined behaviour or an exception that nothing catches;
-- in a program of accesses it is `fault`.
--
-- A network is called stocked where every overlapped structure has buffers of the right sizes and the
-- queue leads to structures of the store only, and sound where, besides, no structure is twice in the
-- queue, twice in flight or in both. A message is said to arrive where a receive completes
-- with success and some bytes, of a structure that receives; the client that its key names is known and
-- has a socket that is open and not in error; the bytes are those of a header, with fields below 2^32,
-- and of the message, of at most BUFFER_SIZE bytes.
--
-- The only fuel is that of the SCAN loop, `save_scan`, which returns `false` where it runs out; the
-- number of rounds needed is that of the calls that SCAN takes to come to its end. The number of rounds
-- of `Hub::Work`, which never ends, is an argument of `work`.
--
-- Not modelled: the calls that write to the log; the destructors of the queue and of the clients;
-- ODBC diagnostics; the memory of the replies of Redis; that its one connection is used by all threads;
-- memory orders weaker than sequential consistency; what a scalar reads as where a string is expected;
-- the libraries under RankingServer/library and RankingServer/hiredis, and the SQL script.
pub mod Base
pub mod Ring
pub mod Packet
pub mod Network
pub mod Outside
pub mod Data
pub mod Converter
pub mod Protocol
pub mod Database
pub mod Hub
pub mod Log
pub mod Server
pub mod Examples
