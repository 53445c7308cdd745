-- ===== src/Lib.antt =====
-- Network Systems: the programs of a course on network programming, in C, each in its directory.
--
-- The distributed file system of PA4 has a client, PA4/client/dfc.c, and four copies of a storage
-- server, PA4/server/dfs.c. A put cuts a file into four parts and sends each part to two servers,
-- which the MD5 hash of the file's name chooses; a get asks the servers for each part in turn. The
-- client and a server speak over TCP: a header of lines "Key: value", then a chunk of bytes.
--
-- The web server of PA2, PA2/server.c, serves the files below its directory www, with one process
-- for each connection; PA2/threaded_server.c does so with threads, one request for each.
--
-- The proxy of PA3, PA3/proxy.c, answers a request from its directory cache, or fetches the page
-- from the origin server into the cache first, unless the host is on the blocklist.
--
-- The programs of PA1 put, get, list and delete files over UDP; a file goes as a datagram with its
-- size and then as datagrams of up to 8192 bytes, each of which is acknowledged.
--
-- Files and the code they model:
--   CString    the functions of the C library that the programs call on strings: strcmp, strtok,
--              strstr, strchr, atoi and the printing of numbers. A byte is a number, a pointer into
--              a string is the string that starts there.
--   Stream     recv over the segments that the network delivers, and the loop of dfs.c that reads
--              the rest of a chunk
--   Dfs        PA4/server/dfs.c: the directory (Dfs.Files), the parsing of a request (Dfs.Request),
--              service_request (Dfs.Service), the server as its client sees it (Dfs.Node), and
--              client and servers together, over sessions that follow one another (Dfs.Session),
--              and the puts and gets of any number of threads over one directory, with file_lock,
--              in any order of their calls (Dfs.Locking; Dfs.Locking.Alone has the
--              calls of one thread beside the functions of Dfs.Service)
--   ChunkServer  the interface between client and server, as operations with laws
--   Dfc        PA4/client/dfc.c: dfc.conf and the connections (Dfc.Config), the messages, the
--              sockets, the put and the get of a file (Dfc.Put, Dfc.Get), the list (Dfc.Listing), the
--              commands over all their files (Dfc.Command), and what the servers hold while a put
--              places its chunks (Dfc.Shelf)
--   Web        PA2/server.c: getContentType (Web.Content), the request (Web.Request), the error
--              responses (Web.Reply), service_request, parse_request and the loop of a child
--              process (Web.Service)
--   Threaded   PA2/threaded_server.c: its request (Threaded.Request), service_request,
--              parse_request of one thread (Threaded.Service), and the calls of strtok that
--              two threads make in some order (Threaded.Words)
--   Proxy      PA3/proxy.c: the request (Proxy.Request), the hash that names a cache file
--              (Proxy.Hash), what surrounds a process, with the blocklist (Proxy.World), relay
--              (Proxy.Relay), the cache (Proxy.Cache), the error responses (Proxy.Reply), and
--              parse_request and received_request (Proxy.Service); two processes at one cache file,
--              with its locks, in any order of their calls (Proxy.Sharing)
--   Uftp       PA1/client/uftp_client-2.c and PA1/server/uftp_server-2.c: the datagrams of the side
--              that sends a file (Uftp.Send), what the other side makes of them (Uftp.Receive), and
--              the loops of the server (Uftp.Server) and of the client (Uftp.Client) over all
--              commands
--   Machine    results that are values, or faults of the C code
--   Tests      the theorems applied to concrete inputs
--
-- What the model takes as given. The shell pipeline "ls | grep | sort -r" of a get is a parameter
-- (`Shell`: whether grep passes a line, and sort's order). The MD5 digest of a name is a parameter,
-- and its last bits are the x of `put_file`. How the network cuts a message into segments is the
-- parameter `cut`. Memory that the C code reads and has not written is the parameter `Memory`; a
-- read or write outside an array, a null pointer that is used and a loop without end are values of
-- `Fault`. A timestamp is the whole number of microseconds that the client prints. File sizes stand
-- below 2^31, where the ints of the code do not overflow.
--
-- The client's name resolution and the connections that are accepted are the parameter `Net`.
--
-- The web server's files are the parameter `Disk`, and its flag `check`, which a signal clears, is
-- a parameter of each round.
--
-- Around the proxy, name resolution, the origin servers, the time and the flag `check` are the
-- parameter `Scene` of each request; the timeout, which is not negative, and the blocklist are in
-- `Config`, with the number of bytes behind an array of computed size that nothing else uses. A
-- process that a fault ends leaves nothing behind in the model; the C code may leave a cache file
-- that is cut short.
--
-- Loops. `read_rest` gets one unit of fuel more than there are bytes to read, and
-- `service_request`, the web server's `serve` and the proxy's `received_request` one more than the
-- stream has bytes: each round takes at least one. `write_loop` gets one more than the chunk's
-- size, and `pieces` the file's size. Running out of fuel is `none`, as is a client that waits for
-- a reply that does not come.
--
-- In PA1 the acknowledgements that come are a number, and a `recvfrom` behind the last datagram
-- that arrives ends in a timeout. `send_loop` gets one unit of fuel more than the file has bytes.
--
-- The first `recvfrom` of a put of PA1 writes 16 bytes over a variable of 4: `Scene` has the number of
-- bytes behind it that nothing else uses, and with fewer than 12 the put is a fault.
--
-- Not modelled: the set-up of sockets and threads, the accept loop of PA2/threaded_server.c,
-- PA3/proxy-threaded.c, whose functions are those of PA3/proxy.c but for what threads share, socket
-- calls that fail, but for the timeouts of PA1 and of PA4/client/dfc.c, and messages that are only printed. The demonstrations
-- under Sockets are not modelled. Of what runs at once, the puts and gets of a storage server's
-- threads over its files, two processes of the proxy at one cache file, and the calls of strtok of
-- two threads are modelled; elsewhere one connection, thread or process is followed at a time.

pub mod Prelude
pub mod CString
pub mod Stream
pub mod Machine
pub mod ChunkServer
pub mod Dfs
pub mod Dfc
pub mod Uftp
pub mod Web
pub mod Threaded
pub mod Proxy
pub mod Tests
