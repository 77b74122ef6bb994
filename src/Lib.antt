-- ===== src/Lib.antt =====
-- Verification library of rdesktop for Windows CE, a client of the Remote Desktop Protocol in C.
--
-- The program is a stack of layers. The transport (source/tcp.c) reads and writes octets; the ISO
-- layer (source/iso.c) frames them as TPKT packets; MCS (source/mcs.c) sets up a connection over
-- them and carries the data of channels; the security layer (source/secure.c) signs and encrypts
-- that data, and hands the licence exchange (source/licence.c) its messages; the virtual channels
-- (source/channels.c) cut data into fragments and put it together.
-- All write and read by the macros of source/parse.h. Beside the stack stand the decompression of
-- what the server sends (source/mppc.c), its drawing orders (source/orders.c) with the decompression
-- of bitmaps (source/bitmap.c), and the caches of what it draws (source/cache.c), which the orders
-- fill and use.
--
-- Files and the code they model:
--   * Stream: source/parse.h. `Stream` is the structure, its pointers as offsets into `bytes`. A
--     macro is an action on it; an access outside the allocated octets is the fault `none`.
--     Stream/Emit, Stream/Read and Stream/Takes say which octets a writer emits and a reader takes.
--   * Tcp: tcp_init, tcp_send, tcp_recv, tcp_disconnect and tcp_reset_state. What the calls of the
--     socket or of OpenSSL do is a list of outcomes in the state `Net`, one for each round of a
--     loop, so that the loops are recursions on the list; `wire` is all that has been sent. The two
--     branches for a plain socket and for TLS differ in how they find out an outcome, and are one.
--     `xrealloc` succeeds, and a fresh octet is 0. WITH_SCARD is off, so one buffer is sent from.
--   * Link: the actions of the layers above on `Net`. Link/Keeps has rules for what they preserve.
--   * Iso: the messages of source/iso.c, with the octets of each in Iso/Wire, and the frames.
--     Iso/Connect is iso_connect: a list says for each call of tcp_connect whether it succeeds, what
--     the new socket then does, and whether the TLS handshake succeeds; after the list it fails.
--   * Mcs: source/mcs.c, with its BER headers in Mcs/Ber and the bodies of its PDUs in Mcs/Pdu. What
--     sec_process_mcs_data does with the reply of the server is an argument. Mcs/Initial writes down
--     the elements of MCS_CONNECT_INITIAL, each with the length of its content.
--   * Secure: the keys, the cipher and the MAC of source/secure.c, over a record `Ssl` of the hashes
--     and of RC4; Secure/Packet sends; Secure/Blob is the GCC data of the client; Secure/Receive is
--     sec_recv, for a given number of packets, since a server may send licence messages for ever.
--     Where a theorem relies on the library (RC4 is its own inverse and keeps the length, MD5 has 16
--     octets) it says so.
--   * Licence: source/licence.c. A message is read from the stream that is received and answered by
--     sec_send; Licence/Wire has the octets. The keys of the exchange come from `Ssl`, the stored
--     licence from `Holder`, and what is saved is a list.
--   * Channels: registration and defragmentation in the file itself; Channels/Send is channel_init
--     and channel_send, whose loop runs over the list of lengths and flags that Channels/Send.plan
--     computes, with the length of the data as fuel: each round takes at least one octet. How far
--     the callback of a channel reads is an argument.
--   * Cache: Cache/Bitmap is one bank of the bitmap cache with its doubly linked list; Cache/Chain,
--     Cache/Recency, Cache/Bump, Cache/Put and Cache/Refine relate it to a list of indices by recency.
--     Cache/Desktop is the desktop cache, Cache/Tables the others.
--   * Mppc: mppc_expand, with its bit reader in Mppc/Bits and the tokens in Mppc/Token. `walker` is an
--     int, kept as its 32-bit pattern. The loop runs on fuel, eight rounds for an octet and one
--     more, and a run out of fuel is an outcome of its own.
--     A source behind the dictionary, which the code does not test for, is the fault `none` of `copy`.
--   * Orders: the structures of source/orders.h. The functions of source/orders.c: Orders/Fields reads
--     the fields, Orders/Blt and Orders/Figures an order with the last one of its type, Orders/Draw
--     and Orders/Shape are their handlers, Orders/Points the points of a polygon or a polyline;
--     Orders/Bmpcache and Orders/Caches are the secondary orders; Orders/Process is the loop and
--     Orders/Start the reset. The state `Screen` has the stream, the last orders, the caches and the
--     calls of the user interface in order. `Platform` says what those calls return and what the
--     persistent cache loads, by the calls before. Signed fields are kept as their bit patterns, and
--     what xmalloc gives is 0. The length of a Text2Order is `len`.
--   * Bitmap: source/bitmap.c. A pixel is a list of one, two or three octets, so the three decoders by
--     runs are one, Bitmap/Rle, over the statements and loops of Bitmap/Run; a line is the index of
--     its first pixel. Bitmap/Plane decodes planes. An `Outcome` tells reading behind the input
--     (`overread`) from leaving the output (`outside`). Fuel is the width and one for the loops of
--     REPEAT, the height and two for the lines of a run, the size and one for the codes.
--   * Prelude: the library's names, and lemmas on lists and bits. Samples: data for the Tests modules.
--
-- Numbers are natural numbers with the wrap of their C type written out. Octets are numbers, reduced
-- modulo 256 where they are stored. Tracing and error messages have no effect in the model.
--
-- Not modelled: the connection set-up of sockets and TLS, which is calls of libraries; the parsing of
-- the GCC data of the server; source/rdp.c but for rdp_out_unistr; source/rdp5.c and
-- source/cliprdr.c; the files of source/pstcache.c; source/bsops.c; the user interface, which is calls
-- of the platform; source/ssl_calls.c, which replaces a library.
pub mod Prelude
pub mod Stream
pub mod Tcp
pub mod Link
pub mod Iso
pub mod Mcs
pub mod Mppc
pub mod Orders
pub mod Licence
pub mod Bitmap
pub mod Secure
pub mod Channels
pub mod Cache
pub mod Samples
