-- ===== src/Lib.antt =====
-- A verification library for ios_webkit_debug_proxy, a program that lets WebKit debuggers on a computer
-- talk to the web inspector of an iOS device. It models the program's own C sources and proves what
-- makes their operations correct.
--
-- The parts and their models:
--   Prelude          shared names, Boolean tests, lists measured by native numbers, bit_xor
--   Libc             the C library's string functions that the sources call, and strnstr of
--                    src/char_buffer.c
--   HashTable        src/hash_table.c: ht_new, ht_clear, ht_size, ht_get_key, ht_get_value, ht_remove,
--                    ht_put, ht_keys, ht_values. A chain is a list, the table a list of chains; Keys has
--                    the two kinds of key, Buckets the invariant and the map that a table stands for
--   CharBuffer       src/char_buffer.c: cb_ensure_capacity, cb_begin_input, cb_end_input. The memory is a
--                    list of bytes, a pointer is null, an offset into the memory, or into the caller's
--                    input
--   WebSocket        src/websocket.c: Frame has the layout of a frame (part of ws_send_frame,
--                    ws_read_frame_length, ws_read_frame), Send the sending half, Http the request and
--                    header lines, Recv the states of the receiving half, Loop ws_recv_loop and ws_on_recv
--   Plist            what the sources ask of libplist
--   DeviceListener   src/device_listener.c: the packets of usbmuxd, dl_recv_packet, dl_recv_loop,
--                    dl_on_recv, and the table of devices, which is a HashTable
--   PortConfig       src/port_config.c: pc_add, pc_add_line, pc_find, pc_select_port
--   WebInspector     src/webinspector.c: wi_send_plist, wi_parse_length, wi_parse_plist, wi_recv_packet,
--                    wi_recv_loop, wi_on_recv; Pipe joins the sender to the receiver
--   SocketManager    src/socket_manager.c: the sets of descriptors and the queues of unsent bytes; Fds has
--                    sm_add_fd and sm_remove_fd, Send and Resend have sm_send and sm_resend, and
--                    Select has sm_accept, sm_recv, sm_select and sm_cleanup; Steps and Reach are
--                    about all of them: Readers is what they keep in any order, Flow what they
--                    keep while the descriptor that is read from stays registered
--   Rpc              src/rpc.c: Parse has rpc_parse_app, rpc_parse_pages and their like, Send and Recv have
--                    the messages, rpc_send_* and rpc_recv_*, and Xml has rpc_args_to_xml
--   Proxy            src/ios_webkit_debug_proxy.c: Path has the frontend's files and content types, Escape and
--                    Text the lists of devices and pages (Sorted has the qsort); Session has iwdp_start_devtools and
--                    iwdp_stop_devtools, Clients the accept and the close of a client, Listing and Apps
--                    the reports of the inspector, with the pages as a table (Pages). Owned is the invariant that joins
--                    clients and pages, and Reach is about all of these operations in any order,
--                    and Dangling about a client that is freed while a page points to it;
--                    Listen has iwdp_listen, Frames iwdp_on_frame, Requests and Lists
--                    iwdp_on_http_request and its answers
--   Tests            runs on concrete inputs
--
-- How they interact: the WebSocket and the listeners read their input through a CharBuffer, whose window
-- they see as the list of the bytes from in_head to in_tail, and they keep their payload, output and
-- devices in a CharBuffer or a HashTable. What lies outside the sources is a parameter: the allocator
-- says for each size whether it succeeds, and callbacks take and leave a state of their own.
--
-- Numbers are natural numbers; size_t and int keep their wrap-around as % 2 ^ 64 and % 2 ^ 32. Bytes are
-- numbers. An operation that logs an error and returns it is a failure status; the text of the message is
-- not modelled, nor is debug output.
--
-- Loops over a window run on fuel. A WebSocket or a listener takes at most two turns for a byte (see
-- enough in WebSocket.Loop and DeviceListener), a header loop one turn for a byte, and the parser of a
-- port line one turn for a byte.
--
-- Not modelled: the command line; of the proxy the attach and detach of a device, and the files
-- that it serves; of the socket manager the calls that open a socket;
-- the copies of PolarSSL, the generated UTF-8 table and the fallbacks for missing C functions, which are
-- parameters or taken as documented.
pub mod Prelude
pub mod Libc
pub mod HashTable
pub mod CharBuffer
pub mod WebSocket
pub mod Plist
pub mod DeviceListener
pub mod PortConfig
pub mod WebInspector
pub mod SocketManager
pub mod Rpc
pub mod Proxy
pub mod Tests
