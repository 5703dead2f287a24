-- ===== src/Lib.antt =====
-- OKWS, a web server of small processes: the code that reads untrusted input in the HTTP library,
-- the escaping of output, the dispatcher of requests to worker threads, and the values of templates.
--
-- The parts, the code they model, and how they interact:
--
-- Abuf (libahttp/abuf.h, libahttp/abuf.C): `abuf_t`, the buffer that every parser reads from. The
-- object is the record `Abuf`, a method takes it and returns the new one: `get`, `unget`, `peek`,
-- `setlim`, `can_read`, `moredata`, the mirror, and in Abuf/Scan the scanning methods. The source
-- behind it (a network connection or a string) is the list of what its `getdata` returns, so a
-- theorem for all lists holds for every way the network cuts and delays the bytes. Abuf/Stream says
-- which bytes are still to come; Abuf/Gets, Abuf/Drain, Abuf/Limit, Abuf/Left and Abuf/Yields are
-- about `get` in these terms.
--
-- Suiolite (libahttp/suiolite.h, libahttp/suiolite.C): the ring of bytes between a socket and such a
-- source. Its memory is a function from offsets to bytes; Suiolite/Fifo and Suiolite/Load compare it
-- with the list of the bytes that wait.
--
-- Hdr (libahttp/hdr.C) reads words, keys and values of a header from an `Abuf`, and Hdr/Force a
-- given string, whose address it keeps while it waits in the middle of it; Inhdr
-- (libahttp/inhdr.C, libahttp/inhdr.h) is the machine over the request line and the headers, with
-- one function per state; it hands the buffer over to Cgi for query strings and cookies, and keeps
-- the headers in a Pair table. Inhdr/Guts has the loop, the status of the request and what `fixup`
-- reads from the headers.
--
-- Cgi (libahttp/cgi.C, libahttp/okcgi.h): Cgi/Encode is the URL encoding, Cgi/State, Cgi/Loop and
-- Cgi/Guts are `cgi_t`, a parser that can stop at any byte and be resumed. Pair
-- (libahttp/pair.h) is its table of keys and values.
--
-- Kmp (libahttp/kmp.h, libahttp/kmp.C): the matcher of the boundaries in multi-part forms.
--
-- Mpfd (libahttp/mpfd.C, libahttp/mpfd.h): the parser of multi-part forms, first its work on boundaries:
-- `add_boundary`, `match_boundary`, which reads an Abuf through a Kmp matcher, `remove_boundary` and
-- `parse_2dash`. A call that waits returns, and the next one goes on with the same matcher.
-- Mpfd/Contdisp is `contdisp_parser_t`, the machine that reads a part's content disposition: a round
-- per state, of which `parse_guts` takes at most nine. The statements on what it reads are
-- about a buffer that holds the whole text. Mpfd/Files is the table of fields with the files sent for each, and
-- Mpfd/Parts what the states MPFD_EOL1B and MPFD_SEARCH of `cgi_mpfd_t` make of a content disposition and of the text behind it.
--
-- Timehash (libpub/timehash.h), Holdtab (libpub/holdtab.h) and Clist (libpub/clist.h) are containers of
-- the library: the table whose entries expire, the table of callbacks that wait for a result, and the
-- doubly linked list, over a store of links. The hash tables under them are lists of entries (Keyed).
--
-- Escape (libpub/escape.C, libpub/pubutil.C): `xss_escape` with its growing buffer, `json_escape_std`,
-- `htmlspecialchars` and `c_escape`; Escape/Filter is the HTML filter with a table of tags. Stores into a C buffer are modelled by the text written and by
-- `reach`, the number of bytes up to the last one stored, with the zero that `sprintf` stores.
--
-- Dispatch (libamt/mtdispatch.C, libamt/amt.h): `mtdispatch_t`, which hands requests to workers by
-- cells in shared memory, queues them, and passes the answers on; Dispatch/Worker has the answers
-- that a worker stores in its cell. Replies, messages to the workers
-- and calls of `post_db_call` are lists in the state; a failed assertion or a null pointer that is
-- followed is `none`.
--
-- Scalar (libpub/scalar.C, libpub/pscalar.h): `scalar_obj_t`, a value that keeps the numbers it was
-- converted to. `strtoull`, `strtoll`, `strtod`, the printing of numbers and the arithmetic of
-- doubles are the parameter `Clib`; Scalar/Chain and Scalar/Arith have the operators, where an overflow that C leaves
-- undefined is `none`, and Scalar/Samples a library for the tests. Scalar/Kept and Scalar/History are
-- about what is kept, Scalar/Exact and Scalar/Sums compare the operators with the integers.
--
-- Pub3 (libpub/pub3msgpack.C, libpub/pub3msgpack.h, libpub/pub3expr.h): Pub3/Expr has the values of
-- the template language that can be written as MessagePack. Pub3/Msgpack/Pack is the encoder, which
-- makes a list of calls on the buffer of Pub3/Msgpack/Outbuf, and reads the keys of dictionaries by
-- Scalar; Pub3/Msgpack/Unpack is the decoder. Pub3/Msgpack/Values says what comes back of a value,
-- and Ints, Reads, Lengths and Containers beside it are about the parts of a message. The conversion of floats to doubles is
-- the parameter `widen`. Pub3/ListExpr (libpub/pub3expr.C) is the list of the language as a vector of
-- pointers.
--
-- Bounds and fuel. Numbers are natural numbers: no sum in the code modelled here comes near the
-- range of its type, and a subtraction that could pass 0 is written out. Loops that read from a
-- buffer take fuel; a loop gives `none` when it runs out. `skip_ws` and `skip_hws` end with more
-- fuel than bytes left (Abuf/Left), `match_boundary` (Mpfd/Call), `parse_key_or_val` and `cgi_decode` (Cgi/Total) too, reading to
-- the end of a buffer or to the end of a word in Hdr with more fuel than twice the bytes and chunks
-- that are left. `unpack` takes fuel for the depth of the values; the length of the message and one
-- more is enough (Pub3/Msgpack/Total). How much the loops over keys and over the states of a header need
-- (Cgi/Guts, Inhdr/Guts) is not shown. All other loops recurse on the text, on the room in the scratch area or on the
-- queue. The pattern of a Kmp matcher is not empty and holds no zero byte.
--
-- Not modelled: sockets, processes, files and the asynchronous framework (okd, logd, ssld, ezdb,
-- libaok, libweb), the parser and the evaluator of the template language (libpub/pub3*, librfn), the bindings of other libraries
-- (libamysql, libredis, libokssl, libokxml), the RPC compiler and the client tools. Of the parts
-- above: attributes of cookies, the tests on the user
-- agent by regular expressions, the worker's loop, the
-- machine over the parts of a form, the string buffer of a scalar and the sharing of one object by its copies.
pub mod Prelude
pub mod Abuf
pub mod Cgi
pub mod Clist
pub mod Dispatch
pub mod Escape
pub mod Hdr
pub mod Holdtab
pub mod Inhdr
pub mod Keyed
pub mod Kmp
pub mod Mpfd
pub mod Pair
pub mod Pub3
pub mod Scalar
pub mod Suiolite
pub mod Timehash
