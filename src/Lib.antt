-- ===== src/Lib.antt =====
-- Verification of evpp, an event-driven network library in C++ (the directory evpp/).
--
-- The library's core is one event loop per thread. A TCPServer accepts on one loop and gives each
-- connection to a loop of a thread pool; a TCPConn watches its descriptor by an FdChannel, reads
-- into one Buffer and writes from another; libevent and the kernel call back.
--
-- Errno: evpp/sys_sockets.h, the error numbers and their tests.
-- Buffer: evpp/buffer.h and buffer.cc. The state is the five members; a method that changes them
-- returns the new record, and `none` is an access outside the storage. Buffer.Integers has the
-- network-order integers, Buffer.Find the searches, Buffer.Refine the queue that a buffer implements.
-- FdChannel: evpp/fd_channel.h and fd_channel.cc, with what libevent watches beside the flags.
-- TcpConn: evpp/tcp_conn.h and tcp_conn.cc: SendInLoop, HandleWrite, HandleRead, HandleClose and
-- their callers. TcpConn.Stream and TcpConn.Order follow the bytes, TcpConn.Closing the ways to end.
-- EventLoop: evpp/event_loop.cc with the status of server_status.h and the pipe of event_watcher.cc.
-- EventLoop.Queue is the queue of tasks seen from the loop's thread, EventLoop.Wakeup every
-- interleaving of QueueInLoop with that thread, one access of the shared state a step.
-- EventLoopThread: evpp/event_loop_thread.cc, with the statuses of its loop; EventLoopThread.Stages and
-- EventLoopThread.Stopping have every order of turns of the two threads.
-- ThreadPool: evpp/event_loop_thread_pool.cc. ThreadPool.Dispatch is the choice of a loop,
-- ThreadPool.Lifecycle the start and the end of the threads.
-- TcpServer: evpp/tcp_server.cc: the table of connections. TcpServer.Accepting follows the ids,
-- TcpServer.Removal and TcpServer.Stopping the way from Stop to the stopped callback. It uses
-- ThreadPool and TcpConn.
-- ConnPool: evpp/httpc/conn_pool.cc: the idle connections of the HTTP client, for each loop.
-- Connector and TcpClient: evpp/connector.cc and tcp_client.cc. Connector holds what a connector does
-- alone, TcpClient the methods of both that call the user back, with the TcpConn that a client has.
-- TcpClient.Connecting and TcpClient.Trying follow the attempts, TcpClient.Leaving the way out,
-- TcpClient.Misuse what a Disconnect at another time does.
-- Sockets: evpp/sockets.cc: addresses as text and as bytes of a sockaddr_storage. Base.Decimal has the
-- functions of the standard library that it uses: std::to_string, std::atoi, rfind.
-- DnsResolver: evpp/dns_resolver.cc, the asynchronous look-up. DnsResolver.Answers follows it from
-- Start on.
-- HttpRequest, HttpResponse, HttpService: evpp/evpphttp/. The copy of http_parser there is a library,
-- whose answers are arguments. HttpRequest.Headers is the table of fields, HttpResponse.Framing and
-- HttpResponse.Chunks the end of a response and the chunked coding, HttpService.Pipeline the loop of
-- OnMessage, on fuel, as much as there are bytes. Base.Dictionary is std::map.
-- VbucketConfig: apps/evmc/vbucket_config.cc: the choice of a server. VbucketConfig.Weights has the
-- table of accumulated weights, VbucketConfig.Choice the whole call.
-- NsqCommand and NsqConn: apps/evnsq/command.h, command.cc, nsq_conn.cc and message.h: the commands and
-- their bytes, and a connection with one nsqd. NsqCommand.Wire reads the bytes back, NsqConn.Acks
-- follows the commands that wait for an answer. NsqConn.Receiving has OnRecv and the messages, on fuel as
-- much as the buffer has bytes; NsqConn.Frames follows its rounds.
-- NsqClient and NsqProducer: apps/evnsq/client.cc and producer.cc, over the connections of NsqConn, which
-- are in a heap. NsqClient.Addresses follows the two lists of a client, NsqProducer.Counting the messages
-- of a producer through its connections.
-- UrlParser: evpp/httpc/url_parser.cc, with UrlParser.Parts.
-- Listener: evpp/listener.cc, whose callback is HandleNewConn of a server. Listener.Accepting follows the
-- descriptors, TcpServer.Listening to their connections in the server's table.
-- QueryString: FindQueryFromURI of evpp/http/context.cc. QueryString.find_from is on fuel, as much as
-- the query has bytes, and each round takes one byte at least.
-- Duration: evpp/duration.inl.h and timestamp.inl.h, in whole numbers without a bound.
-- MemcacheClient and MemcacheCommand: apps/evmc/memcache_client.h, memcache_client.cc, binary_codec.cc,
-- memcache_client_base.cc, command.h and command.cc: the commands of one connection, and the bytes of
-- their requests. MemcacheClient.BinaryCodec is the codec; MemcacheClient.Holding and
-- MemcacheClient.Owing follow a command from the push to its end, MemcacheClient.Answering the command
-- of a response, MemcacheClient.Header the bytes of its header, MemcacheClient.Codec the packets,
-- MemcacheClient.Timeout the timer, MemcacheClient.Prefix the entries of a response, and
-- MemcacheCommand.Wire reads the requests back. on_codec_message has a round of fuel for each packet;
-- decode_entries one more than the buffer has bytes, and an entry takes 8 of them.
-- Utility: StringSplit of evpp/utility.h, on fuel, as much as the text has bytes. Utility.Splitting joins
-- the parts again.
-- EvhttpService and HttpServer: evpp/http/service.cc and http_server.cc. HttpServer.Serving follows a
-- request from the listening thread to the reply, HttpServer.Ports the ports of a text. They use
-- ThreadPool and Utility.
-- UdpServer: evpp/udp/udp_server.cc, each receiving thread a step at a time. UdpServer.Stopping and
-- UdpServer.Pausing follow the status that other threads store.
-- HttpcRequest: evpp/httpc/request.cc, with HttpcRequest.Retrying.
-- InvokeTimer: evpp/invoke_timer.cc on its loop, with the watcher of event_watcher.cc. The cancel callback
-- may cancel its timer again; a callback that starts it is left out.
--
-- Base.ByteOrder: the numbers of the structs that are copied to and from the wire, on a host that stores
-- the lowest byte first, with htons and htonl.
--
-- Bounds. size_t and uint64_t have 64 bits and wrap, written out as % 2 ^ 64; a theorem that needs
-- no wrap says so. The bytes of a fresh allocation, which have no value in C++, are 0. Assertions are
-- compiled out. The fuel of EventLoop.drain and HttpService.serve is one unit a round.
-- Callbacks are effects in a list, or Booleans that say whether they are set.
--
-- Not modelled: libevent, the kernel and the threads themselves, whose answers are arguments; logging;
-- SSL; the connection and the response of the HTTP client; the synchronous UDP client; the HTTP
-- requests and the timers of evnsq's clients; the pool of evmc's clients.
pub mod Base
pub mod Errno
pub mod Buffer
pub mod FdChannel
pub mod TcpConn
pub mod EventLoop
pub mod EventLoopThread
pub mod ThreadPool
pub mod TcpServer
pub mod ConnPool
pub mod HttpRequest
pub mod HttpResponse
pub mod HttpService
pub mod VbucketConfig
pub mod DnsResolver
pub mod Listener
pub mod MemcacheClient
pub mod MemcacheCommand
pub mod NsqCommand
pub mod Utility
pub mod EvhttpService
pub mod HttpcRequest
pub mod HttpServer
pub mod UdpServer
pub mod NsqClient
pub mod NsqConn
pub mod UrlParser
pub mod NsqProducer
pub mod QueryString
pub mod Duration
pub mod InvokeTimer
pub mod Connector
pub mod TcpClient
pub mod Sockets
