-- ===== src/Lib.antt =====
-- A verification library for the echo servers of the repository. It models the single-threaded
-- server of Server-version-3, the version with a logic layer, and parts of the two other versions
-- and of the clients.
--
-- The program. A client sends frames: a two-byte id and a two-byte length, both in network order,
-- and then so many bytes. `CServer` accepts connections and keeps a `CSession` for each. The reading
-- side of a session cuts the stream of chunks that Asio delivers into messages and posts them to the
-- `LogicSystem`, whose worker thread hands each to the callback of its id. The callback answers
-- through `CSession::Send`, the writing side, which keeps a queue of frames and writes one at a time.
-- `main` runs the server on a network thread and waits for a signal.
--
-- The files, with the code each is about (paths from the root of the repository):
--   Base, Base/*: tests on numbers, lists, and `Exec`, the outcome of a run of C++ code: a value, an
--     exception, or an access outside an array.
--   Platform, Platform/*: the byte order of a machine as a parameter with the laws of htons, ntohs and
--     a 16-bit load and store, with two instances; `short` and `size_t` with their wrap-around.
--   Memory, Memory/*: memset, memcpy and `new char[]` on arrays with a length, each checked.
--   MsgNode, MsgNode/*: Server-version-3/MsgNode.h, MsgNode.cpp and const.h.
--   Wire, Wire/*: what the protocol promises: a receiver that takes one byte at a time, and the
--     frame of a message. No code stands behind it; `Session.Receive` is compared with it.
--   Session: the state of a session in Server-version-3/Session.h, with its constructor, Start and
--     Close. Session/Receive and its children: HandleRead. Session/Send and its children: Send and
--     HandleWrite, with a step relation of sends and completions (Session/Send/Line).
--     Session/Print and its children: PrintRecvData.
--   Logic, Logic/*: Server-version-3/LogicSystem.h and LogicSystem.cpp. Logic/Deal has the turns of
--     DealMsg, Logic/Desk posts and turns in any order, Logic/Wakeup the condition variable and the
--     destructor, Logic/Jsoncpp what the code relies on of jsoncpp.
--   Server, Server/*: Server-version-3/Server.h and Server.cpp; Server/House has the server with its
--     sessions, whose handlers run in any order.
--   Pool, Pool/*: Server-version-3/AsioServicePool.h and AsioServicePool.cpp. Pool/Stop has the joins
--     of Stop as steps, beside those of the contexts that go on meanwhile.
--   Main, Main/*: Server-version-3/main.cpp and Singleton.h.
--   MultiThread/Session and its children: Server-version-3-multi-thread/CSession.h, CSession.cpp,
--     MsgNode.h and MsgNode.cpp. MultiThread/Session/Try is the body of a try block; the handlers are
--     compared with those of Session.
--   MultiThread/Pool: Server-version-3-multi-thread/AsioIOServicePool.h and AsioIOServicePool.cpp.
--   MultiThread/Server and its children: Server-version-3-multi-thread/CServer.h and CServer.cpp, with
--     the contexts of the pool that the sessions are made on. MultiThread/Accept: HandleAccept and
--     ClearSession for one session and the two threads that handle it.
--   MultiThread/Main: Server-version-3-multi-thread/main.cpp.
--   MultiThread/Logic and its children: the callback and DealMsg of
--     Server-version-3-multi-thread/LogicSystem.h and LogicSystem.cpp.
--   MultiThread/Wakeup: the threads of Server-version-3-multi-thread/LogicSystem.cpp.
--   Version2, Version2/*: Server/Session.h and Server/Session.cpp. Version2/Wire is a receiver with a
--     header of two bytes, and Version2/Replies the queue as a function of the texts; no code stands
--     behind them. Version2/Session and its children are the session, with HandleRead in
--     Version2/Session/Read, and the history of a connection in Version2/Session/History.
--   Version2/Server, Version2/Server/*: Server/Server.h and Server/Server.cpp; Server/Floor has what
--     both servers need of the reads beside the map.
--   SyncClient, SyncClient/*: Client/SyncClient.cpp, with the session of version 2 it talks to.
--   Client, Client/*: the rounds of a thread of json-Client/main.cpp, with the session it talks to.
--     Client/Single: json-Client-multi-thread/main.cpp, which makes one request.
--   Whole, Whole/*: the client, the session and the logic system of version 3 joined: the rounds of a
--     conversation, each from the bytes of a request to those of its reply.
--
-- How the state corresponds. A handler is a function from the state of its object to the new state
-- and the list of `Action`s it asks of the program, in their order: a read, a write, a post, a close
-- and a removal from the server. Handlers run one after the other on the network thread, and `Send`
-- under its lock, so each is one step; the two threads of the logic system, and `main` with its
-- signal handler, are step relations whose steps are split where no mutex is held, and `Stop` of the
-- pool of version 3 is one with the joins and what the contexts do meanwhile. A `short` is its
-- 16-bit pattern. A pointer to a session is written as its uuid.
--
-- Bounds and fuel. The loop of HandleRead runs on fuel, one more than `bytes_transferred`. Each round
-- that goes on uses up at least one byte, so the fuel is enough (Session/Receive/Refine and
-- Version2/Session/Refine): a loop out of fuel is an outcome of its own, which no specification of a
-- waiting session accepts. What is said of calls of HandleRead on any session (Session/Receive/Settles)
-- is about the calls that return. Buffers and header limits are those of const.h: 2048 bytes, and 1000
-- frames.
--
-- Not modelled: the other prints, the sleep of two seconds in HandleRead, sockets,
-- and the order in which Asio completes operations, which is any order. The JSON library and the uuid
-- generator are parameters. The data race on `_b_stop` and on the flag of `main` is read as steps
-- in some order. What is left for later: the prints of version 2, and the threads of the clients.
pub mod Base
pub mod Platform
pub mod Memory
pub mod MsgNode
pub mod Wire
pub mod Session
pub mod Logic
pub mod Pool
pub mod Server
pub mod Main
pub mod MultiThread
pub mod Version2
pub mod Client
pub mod SyncClient
pub mod Whole
