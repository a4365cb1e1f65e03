-- ===== src/Lib.antt =====
-- A verification library for TestLibuv, a small C++ layer over libuv with a TCP server, a TCP
-- client, a UDP endpoint and two demonstration programs. The layer stands in uv/; libuv/ is a copy
-- of the library itself and is not modelled: its calls are parameters.
--
-- * `CircularBuffer` is `PodCircularBuffer<T>` of uv/uv_utils.h, an array with two positions and
--   two flags. `CircularBuffer.Queue` is what it promises.
-- * `Packet` is the wire format of uv/Packet.h and `PacketData` of TestClient/TestClient.cpp.
-- * `PacketSync` is the class of that name of uv/Packet.h: `on_recv_data` is `OnRecvData`,
--   `append_data` its copy, `drain` its loop and `round` the body of that. The allocator is a
--   parameter. The fuel of the loop is a variable; more than the kept and new bytes together is
--   enough, unless the loop really does not end. `PacketSync.Decode` decodes plain lists of
--   bytes, as a reader of the format would. `PacketSync.Loop` is the induction over the rounds
--   by which `PacketSync.Bounds`, `PacketSync.Bytes` and `PacketSync.Safety` go.
-- * `Event` is `UvEvent` of uv/Packet.h, what threads hand to the thread of a loop.
-- * `Looper` is `CLooper` of uv/Looper.cpp: the queue and its handlers; `Looper.Order` puts the
--   threads that push and close, the loop that wakes and its walk over its own handles side by
--   side; `Looper.Locks` has the threads and the wake-ups statement by
--   statement, with the mutex of the queue (`CMutex`, `CAutoLock`); `Looper.Start` is the start
--   of the loop's thread.
-- * `TcpClient` is `CTcpClient` of uv/TcpClient.cpp. A method returns the new object and what it
--   did outside: events pushed, calls of libuv and of the user's callbacks. The return codes of
--   libuv are arguments. `TcpClient.Callbacks` are the callbacks of libuv, and `TcpClient.Steps`
--   is every order of methods, events and callbacks. It uses `PacketSync` for the bytes that it
--   receives and pushes events as `Looper` takes them. `TcpClient.Outbox` is the object and its
--   loop together, from `Send` to `uv_write`, and `TcpClient.Answers` counts the calls of
--   `Connect` and those of the user's callback for them.
-- * `TcpServer` is `CTcpServer` of uv/TcpServer.cpp: connections, the session map and the two
--   pools; `TcpServer.Accept` is `AcceptConnection`, and `TcpServer.Sending` is `sendinl` and
--   `broadcastinl`. `TcpSession` is `CTcpClientSession`, and `TcpSession.Steps` is every order
--   of connections, closes, bytes and writes.
-- * `Udp` is `CUvUdp` of uv/Udp.cpp, and `Udp.Outbox` is it and its loop together. `TestServer`
--   is the two servers of TestServer/TestServer.cpp with their echoes and ends. `TestClient` is
--   the functions of TestClient/TestClient.cpp, from the loop that makes the clients to the
--   deletes; what the thread of the loop does meanwhile is a parameter, and `TcpClient.Life` is
--   what it can do to a client until its handle is closed and after. `RoundTrip` joins the two
--   programs by streams of bytes, and `RoundTrip.Delivery` a client, its loop and a session of a
--   server, and `RoundTrip.Broadcast` the same the other way; `PacketSync.Receiver` is the
--   interface by which the client and a session receive.
-- * `Dispatch` joins `CLooper` and `CTcpServer`: the object that an event is for, the walk over
--   the handles that ends a loop, and the callbacks of their closing; `Dispatch.Outbox` is its
--   queue of events, from `DoEvent` of the loop to `uv_write`; `Dispatch.Unclosed` adds the
--   handles of contexts that wait for a client, and `Dispatch.Told` keeps what the user of the
--   server was told of its sessions.
-- * `Blocks` is who owns the memory of an event and of a write request, from the `malloc` to the
--   `free`, with the addresses of the blocks in place of their bytes; `Blocks.Pool` is the same
--   of the requests that the server keeps for the next write.
-- * `UvThread` is `CUVThread` and `UvError` is `GetUVError` of uv/uv_utils.h.
-- * `Common` holds the shared lists, tests and memory blocks. A copy between blocks that would
--   leave one of them gives `none`.
--
-- A byte is a number below 256, an `int` a number below 2 ^ 31 (a sum beyond it is a fault,
-- but for the counters of ids and calls, whose overflow is left aside), and a
-- `uint32_t` wraps at 2 ^ 32. The demonstration makes 5 clients and 500 turns, as the source does. Not
-- modelled: allocation failure, logging, the console handler and the main functions, which only
-- print or call one of the functions above.
pub mod Common
pub mod CircularBuffer
pub mod Packet
pub mod PacketSync
pub mod Event
pub mod Looper
pub mod TcpClient
pub mod TcpServer
pub mod TcpSession
pub mod Udp
pub mod TestServer
pub mod TestClient
pub mod RoundTrip
pub mod Dispatch
pub mod Blocks
pub mod UvThread
pub mod UvError
