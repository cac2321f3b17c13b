-- ===== src/Lib.antt =====
-- c-http-server: an HTTP/1.1 server in C, with an incremental request parser and a static file
-- module, driven by an event loop in each worker thread.
--
-- The event loop reads chunks of bytes, feeds them to the parser (src/http_parser.c) and, when a
-- request is complete, routes it; what no built-in route claims is looked up below the document
-- root (src/static_files.c), which hands back an open descriptor for the loop to send. Each worker
-- thread (src/worker_pool.c) runs one loop on a listening socket of its own.
--
-- Prelude: the shared names. Tests has the Boolean comparisons on numbers and their meaning, Lists
-- the list functions on them, Text the bytes of C strings with memcmp and strncasecmp, Strtol the
-- function strtol.
--
-- HttpParser models src/http_parser.h and src/http_parser.c. The record HttpRequestParser is
-- http_request_parser_t, where a character buffer with its length field is the list of the bytes
-- below that length. Chars has the character classes, is_valid_version and classify_method;
-- Connection has header_name_is and note_connection_header; Step has the switch, one function on
-- one byte for each state; Execute has the loop of http_parser_execute and
-- http_parser_should_keep_alive. The loop runs on fuel: a byte takes one round, or two where the
-- state HTTP_STATE_HEADER_VALUE_SP hands it on, so 2 * len + 1 rounds are enough, see
-- HttpParser.Run. The counters int and size_t are natural numbers: no buffer is longer than 8192
-- bytes, see HttpParser.Bounds. The proofs are in Run, Chunks, Bounds, Consumed, Directives and
-- KeepAlive; Grammar and Reads describe requests and parsers without the code, RoundTrip and Sound
-- compare the code with them.
--
-- StaticFiles models src/static_files.h and src/static_files.c. Decode has decode_path, Join has
-- join_under_root, Root has is_within_root and fd_is_within_root, ContentType has content_type_for,
-- Open has static_files_init, static_file_open and static_file_close. The buffers out and out_len
-- are the list of the bytes written; the document root g_root is an argument. What the system calls
-- open, readlink, fstat, realpath and stat answer is the parameter Kernel, an arbitrary record of
-- functions; the open descriptors of the process are counted by their number, in Descriptors.
-- PATH_MAX is Linux's 4096. The proofs are in Escapes and Encodes, Pieces and Segments, Confined,
-- Serves and Extensions.
--
-- EventLoop models src/event_loop.c and src/event_loop.h. Routing has path_is and route_request,
-- Response has the two builders, set_write_buffer and prepare_response, Flush has
-- try_flush_write_buffer, try_sendfile_body and try_flush_response, Serve has release_file_body,
-- close_connection, finish_after_response_sent, send_response and process_input, Handlers has
-- handle_client_readable and flush_pending_write. These work on one connection. The buffers of
-- connection_t are lists of bytes. What the kernel answers to read, write and sendfile is a list of
-- answers, an arbitrary one; the bytes that the socket has taken are collected; a call for which
-- the list is too short has not returned. The answers of epoll_ctl and time, and the content of the
-- files being sent, are functions, the record Loop. process_input runs on fuel, one round more than
-- there are bytes: every round that goes on has taken a byte, see EventLoop.Handles. Routes has the
-- table of the routes, Fits the bounds on responses, Owed, Delivery and Returns the proofs on
-- sending, Owns, Answers, Outcomes, Handles, Stashed and Wakeups those on serving. Replies says which
-- bytes the requests of a chunk are owed, on the same fuel, and Streams that they do not depend on how
-- a stream is cut into chunks; Steady, Sends, Pipeline, Resumes and Readable have the proofs on the
-- order of the responses.
--
-- The connections of a loop are in List and Server. List has their list on a heap of addresses,
-- with list_insert, list_remove, sweep_idle_connections and close_all_connections, the last two for
-- any state that has such a list; a use of an address that is not allocated is none. Server joins
-- the list with the other fields of the connections, the open descriptors and the counts of calls,
-- the record Server, and has close_connection on all of it, as hang_up, and accept_new_connections.
-- Dispatch has the loop over the events of one epoll_wait, and the loop over the answers of
-- epoll_wait; an event carries how the kernel answers the calls that are made for it. The array of
-- MAX_EVENTS entries is the list of those that epoll_wait filled. Run has the calls before the
-- loop, with their error paths, and the teardown. The two loops over the list run on fuel, one
-- round more than there were calls of malloc, of which there are at least as many as connections.
-- Chain, Linked, Sweep and Members have the proofs on the list, Live says what holds between two
-- events, Closes, Accepts and Batches carry it through the operations, and Runs, SetUp, Ends and
-- Stops are about whole runs.
--
-- WorkerPool models src/worker_pool.c and src/worker_pool.h, and the idle timeout of src/main.c.
-- Count has the two settings that are read from the environment, by strtol of Prelude.Strtol; Run
-- has create_listen_socket, worker_main and worker_pool_run, where what the system calls,
-- pthread_create, pthread_join and event_loop_run answer is an argument, and event_loop_run is taken
-- to leave the descriptors as they were, see EventLoop.SetUp. The threads share nothing but what they
-- read and the descriptors of the process, so the workers are taken one after the other. Settings and Serving have the
-- proofs.
--
-- Main models the rest of src/main.c: the module itself has the start of the process, its
-- configuration of the pool and its exit status, Signals the signal handler on the counter of the
-- eventfd, which the kernel keeps. Exits has the proofs.
--
-- Not modelled: TCP_NODELAY in src/event_loop.c, whose failure is ignored; the messages on stderr
-- and the banner on stdout, with infrastructure_fd_name; the fields of struct sigaction in
-- src/main.c; the scheduling of the threads, which share the listening port, the eventfd and what
-- is read only; the tests, the benchmark script and the served assets.
mod Prelude
pub mod HttpParser
pub mod StaticFiles
pub mod EventLoop
pub mod WorkerPool
pub mod Main
