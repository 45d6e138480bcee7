-- ===== src/Lib.antt =====
-- A verification library for libapi: an event-driven server library in C (api/), with an HTTP
-- request parser on top of it (http/) and an OpenSSL filter (ssl/).
--
-- The parts of the program. A loop (api/src/*/api_loop.c) polls descriptors and runs tasks
-- (api_task.c), and other threads send it messages (api_async.c, api_wait.c); timers
-- (api_timer.c) are lists of waiting tasks, kept in a red-black tree (api_rbtree.c) with one node
-- for each period; lists of every kind are the intrusive lists of
-- api_list.h; streams (api_stream_common.c and the ports) read and write through the loop. The
-- HTTP code (http/src/http_parse.c) reads a stream, feeds it to http_parser, and gathers url,
-- headers and query parameters from that parser's callbacks.
--
-- The model.
-- - Base and its children: shared tests, sequences, C strings and 64-bit words, results that may
--   be missing. 64-bit arithmetic on size_t keeps its wrap-around.
-- - Memory: a store maps an address to a struct; a command reads and writes it, and a null or
--   dangling access is a fault, `none`. Memory.Returns states total correctness: a command does
--   not fault, and its result has a property. A struct is an object of its own: two kinds of
--   structs do not share an address, and nothing is freed.
-- - NodeList (api/src/api_list.h): one function for each operation, `push_head` for
--   `api_list_push_head` and so on; the list handle is given and returned. NodeList.Chain says
--   which nodes a store holds from a handle; NodeList.Ends and NodeList.Remove prove the
--   operations against lists of addresses.
-- - Rbtree (api/src/api_rbtree.c): nodes, relatives, rotations, `first`, `next` and `search`;
--   Rbtree.Insert and Rbtree.Remove have the rest, with its repairs. The root pointer is given and
--   returned. Loops and the recursive repairs are on fuel, which `none` reports missing; the
--   walks and the search need no more than the height of the tree. The address of the stack
--   object `phantom` is an argument of `remove`. Rbtree.Shape says which tree a store holds, and
--   Rbtree.Shape.Context what it holds around a tree.
-- - Mpscq (api/src/unix/api_mpscq.h): the queue by which threads hand tasks to a loop. A world has
--   the queue, the unfinished pushes and where the consumer stands in its pop; a step is one access
--   of a shared field by one thread. Mpscq.Line and Mpscq.Order are the invariant, and
--   Mpscq.Order.Fifo what it gives. A pop that runs alone takes at most six steps. Accesses are
--   sequentially consistent.
-- - Timers (api/src/api_timer.c, api/src/api_timer.h): `set` for `api_timer_set` and the functions
--   it calls; Timers.Process has `process`, `terminate`, `nearest_event` and `wait_exec`, which is
--   both `api_sleep_exec` and `api_idle_exec`. The lists are a store of their own, in the tree of
--   Rbtree; a list holds the addresses of its timers in order. The time, the address of a new
--   list, and what a woken task does with the timers before it waits again are arguments.
--   Timers.Timeout has `calculate_wait_timeout` of api/src/api_loop_base.c.
-- - Transfer (api/src/api_stream_common.c): `api_stream_transfer` and its reader task. A step is
--   what one of the two tasks does between two waits; a buffer is the bytes that it holds. Any
--   read may give any bytes, and any write may take any number of them.
-- - Stream (api/src/unix/api_stream.c, api/src/api_stream_common.c): reading, exact reading and
--   putting back. A filter's `on_read` is a parameter; what is relied on is that it gives at most
--   what it is asked for, in order. Nobody else uses the stream while a read waits. An exact read
--   of n bytes takes at most n + 1 rounds.
-- - Device (api/src/unix/api_stream.c, api/src/unix/api_loop.h): what a stream does with its
--   descriptor. `handle` and `processor` are `api_stream_processor`; Device.Socket has
--   `api_stream_on_read` and `api_stream_on_write`, each cut where its task sleeps; Device.File
--   has the same for files, and Device.Life `attach`, `write` and `close`. Device.Tasks is the
--   relation of the steps that the tasks of one stream and the loop can take; Device.Runs keeps
--   its invariant. The handlers of filters are a list of calls, and do not act on the stream.
--   What a system call answers is an argument.
-- - Scheduler (api/src/api_task.c, api/src/unix/api_event.c): the tasks of a loop as a store,
--   with the one that runs. `swap` is `api_task_swapcontext`: the task that goes on does what
--   stands behind its own swap, which is `land`, or starts. `finish` is the end of a task's entry
--   point. Scheduler.Event has `api_event_signal`, and `api_event_wait` cut where its task
--   sleeps.
-- - Tcp (api/src/unix/api_tcp.c): listeners and `api_tcp_accept`; Tcp.Connect has
--   `api_tcp_connect`. Each is cut where its task sleeps, and a system call is what it answers.
--   Tcp.Listen has `api_tcp_listen` and `api_tcp_close`.
-- - Loop (api/src/unix/api_loop.c, api_async.c and api_wait.c): all loops, each with the queues of
--   its messages and waits, as lists of addresses, and the messages in a store. Loop.Async has
--   `api_async_post`, `api_async_exec` and the handlers, and Loop.Wait what tasks do that wait for
--   the end of a loop, where `linked` says how many of the waits come before an unfinished push. In Loop.Signals a message goes step by step through the queue of Mpscq and
--   the counter of the eventfd. Loop.Round is `api_loop_run_internal`, over the timers; Loop.Start
--   how a loop starts, with the descriptors and blocks that the process holds. What a callback or a
--   woken task does is a parameter. `drain`, the loop of `api_async_processor`, is on fuel: one
--   round for each message that is popped, and one more.
-- - Loop.Windows (api/src/win/api_async.c, api_wait.c and api_loop.c): the same of the port to
--   Windows, where a message is a packet of the completion port of a loop. WinStream
--   (api/src/win/api_stream.c): its streams, whose operations complete at once or by a packet.
-- - Errno (api/src/unix/api_error.c): the codes of errors. Options (api/src/unix/api_socket.c): the
--   options of a socket. Files (api/src/unix/api_fs.c and api/src/api_pool.c): creating and opening
--   files, and blocks of memory, with what the process holds then.
-- - Http.Buffer: `buffer_t`, `concat` and `str_ndup` over blocks of bytes, each write checked
--   against its block. Http.Request: the context and the callbacks; Http.Request.Phase is what a
--   request's events mean, over plain texts; Http.Request.Refine relates the two.
--   Http.Lookup: `http_request_get_header`. Http.Query: `decode_query` and `parse_query` over
--   the bytes up to a terminator; the rounds of `parse_query` are on fuel, one more than the
--   query is long, which is always enough. Http.Parse: `http_request_parse`, as the loop `feed` and
--   what follows it, `finish`, and `http_request_clean` as the texts that it frees. A round of
--   `feed` takes a byte at least, so that more rounds than the stream has bytes are enough.
--
-- Parameters. `malloc` is a function from a size to a block of any content, or null; what is
-- relied on is that it grants sizes below a limit with a block of that size. http_parser, a copy
-- of another project's library, is the sequence of calls it makes, or for Http.Parse a function
-- that gives them for a piece of input, with how much of it was taken. `strcasecmp` is the one of
-- the C locale. The order of tree nodes is the `compare` that the caller gives.
--
-- Not modelled: system calls; addresses of sockets; sockets and files of the port to Windows; the
-- filters, which pass calls on; and ssl.
pub mod Base
pub mod Device
pub mod Errno
pub mod Files
pub mod Http
pub mod Loop
pub mod Memory
pub mod Mpscq
pub mod NodeList
pub mod Options
pub mod Rbtree
pub mod Scheduler
pub mod Stream
pub mod Tcp
pub mod Timers
pub mod Transfer
pub mod WinStream
