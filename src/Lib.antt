-- ===== src/Lib.antt =====
-- Models of the message broker: a server that takes datagrams from UDP clients and hands them to
-- TCP subscribers by topic, keeping messages for subscribers that are offline, and the subscriber
-- that shows them.
--
-- The parts of the program, and the files that model them:
--
-- - LinkedList.c, include/LinkedList.h: LinkedList/Memory (nodes and data blocks at addresses,
--   what malloc and free do to them), LinkedList/Add and LinkedList/Remove (the functions that
--   change a list, under their names in C), LinkedList/Show (`exist` and the functions that print
--   a list), LinkedList/Unlink (the loop of `remove_by_id` and of the unsubscribe command in
--   server_util.c, which take a node out by hand). LinkedList/Cells says what a list in order is.
--   LinkedList/View is a list as the server's files use it: its items, its size, and whether its
--   tail is left pointing at a freed node, whose use counts as undefined; LinkedList/Refine and
--   LinkedList/Sequences relate it to memory, LinkedList/Dangling has such a use on addresses.
-- - The two headers of include/util.h, and `build_msg` and `build_sentBuffer` of server_util.c:
--   Wire/Header, Wire/Message, over the byte orders of Wire/Bytes.
-- - server_util.c: Server/State (clients, topics, queues, `get_client_by_id` and
--   `get_client_by_sock`), Server/Send (`send_data`, `empty_queue`), Server/Connect
--   (`manage_connection_request`, `close_all_sockets`), Server/Command
--   (`manage_command_from_client`).
-- - server.c: Server/Main (`handle` is the body of the loop over the descriptors, `pass` that loop,
--   `round` the body of the outer one, `main_loop` the whole, `start` the state before it), and
--   Server/Startup (`main` up to the loop). Server/Reach are the states between two calls of
--   `handle`; Server/Store and Server/Forward put `send_data` and the return of a client together.
-- - subscriber.c and subscriber_util.c: Subscriber/Command (the functions on a typed line, over the
--   `sscanf` of Subscriber/Scan, and on a packet), Subscriber/Main (the start-up and the loop),
--   Subscriber/Display (`my_pow`, `extract_server_to_client_header` and the `switch` that prints a
--   line). Subscriber/Delivery, Subscriber/Relay, Subscriber/Acknowledge, Subscriber/Introduce and
--   Subscriber/Leave put the server's and the subscriber's functions together.
--
-- The operating system is a parameter, the record `Os` of Server/World: `send`, `recv`, `accept`,
-- `close`, `recvfrom`, `read` and `select` over a state of its own. Every call but `select` is
-- written to a log with its answer. The calls of the start-up are parameters of their own, and
-- are not in the log. A function of the server is a step from a world to an outcome: `done` with
-- a result, `died` for the macro DIE, `fault` for a use of memory that C leaves undefined, and
-- `out_of_fuel`. Where a theorem needs a network on which calls succeed and subscribers
-- acknowledge, that is the hypothesis `Reliable` of Server/Exchange; where it needs to know which
-- descriptors are open, that is `Descriptors` of Server/Descriptors.
--
-- The C library's functions on bytes are in CString, as their manual pages state them. The machine
-- is little-endian with an `int` of 32 bits and a `size_t` of 64. Indeterminate bytes (the rest of
-- a local header, padding, what lies behind an array that is read past its end) are parameters.
-- `double` values are kept as the fractions they are computed from.
--
-- Fuel: the loop of `empty_queue` is given one round more than its queue has elements, a pass of
-- the server `fdmax + 3` rounds (`fdmax` grows by one where the listening socket is handled, which a
-- pass meets once), a pass of the subscriber `sockfd + 2`, and the loops of LinkedList what the
-- caller names. The outer loops run for as many rounds as are given, since they have no bound in C.
--
-- Not modelled: what `printf` reads behind an id of ten bytes with no NUL, the calls of `setsockopt`
-- and `setvbuf`, whose results are not used, the texts that DIE and the start-up write to the
-- standard error, and the Python scripts.
pub mod Common
pub mod CString
pub mod LinkedList
pub mod Wire
pub mod Server
pub mod Subscriber
pub mod Examples
