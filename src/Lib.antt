-- ===== src/Lib.antt =====
-- A verification library of the AF IPC library: remote procedure call parameters in a TLV encoding,
-- and messages with replies between a server and its clients over a stream socket.
--
-- The program has these parts.
--   * pkg/src/af_rpc.c and af_rpc.h encode and decode parameters. The encoding is a 16-bit length
--     that counts itself, and then for each parameter a 16-bit type and the value, all big endian.
--     There are two interfaces to it: one parameter at a time (af_rpc_add_..._to_buffer,
--     af_rpc_get_..._from_buffer_at_pos), and whole arrays (af_rpc_create_buffer_with_params,
--     af_rpc_get_params_from_buffer).
--   * pkg/src/af_ipc_common.c, af_ipc_common.h and af_ipc_prv.h have what servers and clients share:
--     sequence numbers, the database of pending requests, af_ipc_send and
--     af_ipc_handle_receive_message.
--   * pkg/src/af_ipc_server.c and af_ipc_client.c keep the connections and call the common part. The
--     bytes of af_rpc.c are the bodies of their messages.
--   * pkg/src/ipc_send.c and ipc_wait.c are command line tools on top of af_ipc_client.c: the first
--     sends its arguments as one request and prints the reply, the second prints the next message.
--
-- Which file models which part:
--   * Common (Tests, Int, Lists, Runs, Bits): tests, signed integers as bit patterns, lists measured
--     by native numbers, runs that may fault, and the arithmetic of bitwise and / or.
--   * Rpc/Memory: the memory behind a uint8_t *, memcpy, setlen and getlen. A run faults where the C
--     code accesses bytes outside the memory.
--   * Rpc/Types: the macros of af_rpc.h and af_rpc_get_size_of_type.
--   * Rpc/Add: af_rpc_init_buffer and the writers. The code of the writers of integers differs only
--     in type and size: `add_value` is that code, and each writer is an instance of it.
--   * Rpc/Get: the readers, `get_value` in the same manner, and the reader of blobs.
--   * Rpc/Params: af_rpc_param_t and its macros; Params/Create and Params/Parse are the two functions
--     on whole arrays. `base` of a parameter is a word or a pointer with the bytes behind it.
--   * Rpc/Items: a client that writes and reads lists of parameters, and the encoding that the
--     documentation in af_rpc.h describes.
--   * Ipc/SeqNum: the macros of af_ipc_prv.h on sequence numbers and the two functions on them.
--   * Ipc/Requests: af_ipc_req_control_t with its pending requests: af_ipc_util_init_requests,
--     af_ipc_util_shutdown_requests, af_ipc_util_find_unused_request, af_ipc_remove_request,
--     af_ipc_util_gen_seq_id and af_ipc_on_timeout.
--   * Ipc/Send: af_ipc_send. What the calls out of the repository (af_mempool_alloc, evtimer_new,
--     sendmsg) answer is a parameter, an `Environment`. sendmsg may take fewer bytes than the message
--     has; the code does not look at the count, and the count is recorded with the message.
--   * Ipc/Receive: af_ipc_handle_receive_message. What the application's callbacks do to the pending
--     requests is a parameter, an `App`.
--   * Server: af_ipcs_client_t and af_ipcs_server_t of pkg/src/af_ipc_server.c, get_next_cid, add_client
--     and close_client. A client in the list is known by its ID. What is sent, closed and called is
--     an `Effect`. Server/Send has af_ipcs_send_response, af_ipcs_send_unsolicited and
--     af_ipcs_send_request, Server/Receive has on_recv, with the loop of
--     af_ipc_handle_receive_message on the client's requests and what each callback does with the
--     server, as a list of actions for each call; a client that is gone is freed memory. Server/Listen
--     has af_ipcs_open, on_accept and af_ipcs_close, and Server/Steps the relation of the steps that a server takes.
--   * Client: af_ipcc_server_t of pkg/src/af_ipc_client.c with af_ipcc_send_request,
--     af_ipcc_send_response, af_ipcc_send_unsolicited and af_ipcc_close. A handle is a live connection
--     or a freed one, and to use that is a fault. Client/Receive has af_ipcc_client_on_recv in
--     the same manner, with what each callback does with the connection; Client/Receive/Quiet shows
--     that with callbacks that do nothing this is the loop of Ipc/Receive. Client/Open has
--     af_ipcc_open_server and the prefix of the socket paths; the answers of the system calls are an
--     `Opening`.
--   * Ipc/Table: what the database of requests promises, as a table from IDs to callbacks.
--   * Tools: the programs pkg/src/ipc_send.c and pkg/src/ipc_wait.c. Tools/Text has their C strings
--     and the functions of the standard library on numbers, Tools/Format and Tools/Parser the
--     arguments of ipc_send, Tools/Blocks what malloc gives and dealloc_params frees, Tools/Print the
--     text of a reply, which is the same code in both programs, Tools/Process the callbacks and the
--     static variables that both have, and Tools/Send and Tools/Wait the two main functions. The event
--     loop is the list of the events that it dispatches until it ends.
--
-- Integers. uint8_t, uint16_t and uint32_t are natural numbers, reduced where C reduces them; an int
-- argument is a ℤ, converted by `to_word` where the code compares it as size_t. Pointers are options.
-- A callback or its context is a number that names it.
--
-- Fuel. The loop of af_rpc_get_params_from_buffer moves on by two bytes or more in a round, and that
-- of af_ipc_handle_receive_message by eight: the length of the packet and one more is enough.
-- get_next_cid tries each of the 65535 IDs once; if all are in use it does not end. sprintf writes at
-- most ten digits of a 32-bit number. Loops over lists are structural.
--
-- Not modelled: in pkg/src/af_ipc_server.c accept and close callbacks of the application that call the
-- server again; the bytes on the stream after a message of which sendmsg took only a part; logging, usage texts and hex dumps; the
-- mutexes (each critical section is one step, since it has no call back into the application); the
-- system calls themselves; the length of a socket address of 107 bytes or more, which the code reads
-- from memory that it did not set; and the test programs.
pub mod Common
pub mod Rpc
pub mod Ipc
pub mod Server
pub mod Client
pub mod Tools
