-- ===== src/Lib.antt =====
-- A verification library for the libuv network server: what its TCP, WebSocket and UDP servers do
-- with connections, bytes and buffers, and theorems about it.
--
-- The program. An event loop of libuv calls a server back for new connections, for memory to read
-- into and for the bytes read (src/uv_net/tcp_server.cpp). A connection collects the bytes, has an
-- optional parser cut them into packages, hands the packages to the user's callback, and sends what
-- the callback asks for through a queue with one write in flight (src/uv_net/tcp_connection.cpp).
-- The WebSocket server is a subclass: its connections answer a handshake, read frames with a state
-- machine and write frames (src/uv_net/websocket_connection.cpp, src/uv_net/websocket_server.cpp).
-- The UDP server makes a connection for each datagram (src/uv_net/udp_server.cpp).
--
-- The files.
--   Prelude: Boolean tests, lists and integers over the native numbers, bytes in network order.
--   Config: `ServerConfig` of include/uv_net/server_config.h.
--   BufferPool: include/uv_net/buffer_pool.h; Ownership has the users of its buffers, Rounds the
--     user that gives each back before the next.
--   Protocol: include/server_protocol.h as a record of an operation, with its laws in `IsFraming`;
--     FixSize is include/fix_size_protocol.h and FixSize/Framing has its laws.
--   Base64: `Base64Encode` of src/uv_net/websocket_connection.cpp and src/uv_net/utils.cpp.
--   Uv: the calls that a connection makes, the newest first, and what libuv decides.
--   Connection: what a callback sees and may ask for (include/uv_net/connection.h).
--   Tcp/State: the fields of a connection and of a server. Tcp/Connection: one function for each
--     of `Send`, `TrySend`, `OnWriteComplete`, `Close`, `StartHeartbeat`, `StopHeartbeat`,
--     `OnHeartbeatTimeout` and `OnDataReceived`. Invariant and History have what every history
--     keeps, Rules what every read keeps, Identity the id, Split the single pass over a stream,
--     Closing, Flushed and Stranded the end of a connection, and Delivery, Fragments, Wrapped,
--     Buffered, Alive, Queued and Accepting further theorems. Tcp/Channel: the bounded channel that
--     a connection implements, with View and Refines.
--   Tcp/Server: the constructor, the setters and the callbacks of src/uv_net/tcp_server.cpp, for
--     any class of connection that `CreateConnection` makes. Limits has theorems about single
--     callbacks; Listener the socket calls of `Start`; System is the server with all its
--     connections, Counted what every order of callbacks keeps of its counters, Open which
--     connections it takes, and Queues what is kept of the send queues.
--   WebSocket/Frame: the bytes that `SendFrame` builds. WebSocket/Parser: the states and one round
--     of `ParseFrame`; Loop is its loop. Payload, Aligned, Blocked and Mask are about the reads of
--     frames. WebSocket/Handshake: `ParseHandshake` and the response; Request has the key of a
--     request, Handshake/Exact the requests that have one, Receive/Answer when it is answered and
--     Receive/Again what comes before the answer is written. WebSocket/Connection and
--     WebSocket/Receive: the other operations of the class. Receive/Separate and Receive/Frames hold
--     the parser apart from what the frames do, Receive/Reads has one read after the other,
--     Receive/Client the frames that a client sends and Receive/Delivered what the callback is
--     given of them; Receive/Answered has any sequence of them, Receive/Fragmented fragments, and
--     Receive/Empty frames with no payload.
--     WebSocket/Wire is a client that reads the stream, Wire/Written what it finds in it, and
--     WebSocket/Streamed what each operation keeps of it. WebSocket/Server: where the connection
--     calls the server. WebSocket/Invariant and WebSocket/History have what every
--     history of a connection keeps, WebSocket/Rules what every read keeps. WebSocket/Stuck,
--     WebSocket/Late, WebSocket/Activity and Server/Counting are about the end of a connection,
--     its heartbeat and its count; Server/System is the server with all its connections and
--     System/Streams what their clients read.
--   Udp: src/uv_net/udp_server.cpp and src/uv_net/udp_connection.cpp; Delivery has what a callback
--     is given and where its answers go, Pool the buffers.
--   Echo: the callbacks of example/echo_server.cpp and example/ws_echo_server.cpp; Answers has
--     what they send, Frames what the WebSocket server sends back, Opening its greeting, Session a
--     session with it from the request on, Talk a conversation with it and Talk/Stream what its
--     client reads, Conversation the conversation of a TCP client, Main the two servers on one
--     loop with the count that they share, Main/Heard how often their callbacks are called, Startup
--     what the programs do where a server does not start, Ending the end of the programs.
--   Example: example/config_example.cpp and example/config_socket_example.cpp up to `uv_run`;
--     Running has what holds then, Report what is logged.
--   Log: include/Logger.h.
--   Tests: runs and theorems at concrete inputs.
--
-- How the state corresponds. A field keeps its name in lower case. A handle and a timer are the
-- history of the calls made for them (`calls`), to which a call of `uv_write`, `uv_close` or the
-- user's callback adds an entry; `Send` adds an entry for what it put into the queue. The `uv_close`
-- with the callback that deletes a connection and the one that a server makes with no callback, where
-- a read gives no data, are two kinds of entries. libuv decides
-- what a write returns: `Uv.write_result` is a function of that history and the bytes, and stands
-- for any behaviour. Completions, timeouts and reads are separate steps in any order. The time of
-- the loop is an argument. SHA-1 is an argument. A `size_t` is a number with its wrap-around
-- written out where it can occur, an `int` from a wire format is reduced to 32 bits with its sign.
--
-- Bounds and fuel. The loop of `OnDataReceived` runs on fuel, one more than there are bytes in the
-- buffer, which is enough for every parser with the laws of `IsFraming`, since a package takes a
-- byte at least. The loop of `ParseFrame` runs on fuel 4, which is enough exactly where the loop
-- ends at all.
--
-- What is not modelled: log lines, but for those of example/config_example.cpp, and the vendored
-- plog; the socket calls of a server, but for the order of those of `Start`; mutexes and atomics,
-- since all calls but one of the echo programs (Echo/Ending) come from the one thread of the loop;
-- memory, but for the numbers of the pool's buffers; and state that a user's callback keeps, but
-- for the count of the echo servers.
pub mod Prelude
pub mod Config
pub mod BufferPool
pub mod Protocol
pub mod Base64
pub mod Uv
pub mod Connection
pub mod Tcp
pub mod WebSocket
pub mod Udp
pub mod Echo
pub mod Example
pub mod Log
mod Tests
