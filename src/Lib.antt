-- ===== src/Lib.antt =====
-- xpute, the C++ library under cpp/xpute: what a guest program runs on. A guest lives in a linear
-- memory that its host sees too, and is turned by it. Between the two lie rings of frames
-- (cpp/xpute/guest/ipc/ring), a stream of a turn's calls (cpp/xpute/guest/ipc/stream) and handles
-- that name what the host holds (cpp/xpute/guest/abi/handle); under them lie the collections, the
-- errors and the codecs of kit.
--
--   Status (cpp/xpute/kit/status): errnos and their numbers, errors, results as values, and a
--     broken invariant, which is fatal, as the outcome `bug` of a call (Run). Status.Codes has
--     the numbers and errno_of.
--   Collection.Deque (cpp/xpute/kit/collection/deque.hpp): the ring over a caller's buffer. Spec
--     is the bounded list that it promises, with a client's calls as data; Refine has the
--     invariant and the list that a ring holds; Simulate has the simulation.
--   Collection.Inline (cpp/xpute/kit/collection/list.hpp): the list held inline, its slots as
--     options. Mid has the slots in the middle of a pass, Refine the list that its operations
--     keep.
--   Collection.Heap (cpp/xpute/kit/collection/heap.hpp): the binary heap and heapsort over an
--     array, an element at each index. The loops of heapify and push are given a move for each
--     element and one more; that none runs out is part of each theorem. Order has the heap's
--     order and what it is to hold the same elements, Sift the hole that sinks, Build the root,
--     Sort heapsort, Queue push and pop.
--   Collection.Arena (cpp/xpute/kit/collection/arena.hpp): the pool of slots; a slot is named by
--     its index. Grow has its invariant, Bounds what alloc and reserve come to.
--   Codec.Encoding (cpp/xpute/kit/codec/encoding.cpp): hex and base64url on character codes; Hex
--     and Base64 have their round trips.
--   Codec.Utf8 (cpp/xpute/kit/codec/encoding.hpp): UTF-8 on lists of bytes. Its loops go on by a
--     step's length, so they are given a round for each byte and one more; what a call that is
--     out of rounds answers is none.
--   Wire.Tlv (cpp/xpute/kit/wire/tlv.hpp and tlv.cpp): tagged values as bytes, their writer and
--     their reader. The loop of read_all takes a round for each byte and one more, which
--     read_all_ends shows to be enough. Step has a round that reads a value, RoundTrip the writer
--     against the reader, Ends any bytes at all.
--   Wire.Xtp (cpp/xpute/kit/wire/xtp/spec.hpp): a packet's node types, their tests, and the words
--     that are read of one. Known has the types that the wire carries.
--   Wire.Xtp.Cursor (cpp/xpute/kit/wire/xtp/cursor.hpp and cursor.cpp): cursors over a packet in
--     memory, a span being where it starts and how long it is. Read has what is read of a node,
--     Deep the reads of all children, one level or all levels down: get_deep is given the levels
--     it may go down, and read_tree-get_deep shows that as many as the packet has bytes are
--     enough. Within and Order say where a child lies and that children do not overlap, Total and
--     Spans what reading comes to; Xtp.Alone that it reads the packet alone.
--   Wire.Xtp.Writer (cpp/xpute/kit/wire/xtp/encode.hpp and encode.cpp): the writer of a packet,
--     its buffer a list of bytes. Tree has strings, branches and grafts, and a tree's calls as
--     data. Kept and Entry have the writer's invariant, Safe, Text and Nodes each call, Packet a
--     packet from its start to its end.
--   Guest.Memory (cpp/xpute/guest/mem.hpp): a size and a byte at each offset, passed along; Laws
--     says which bytes a write leaves alone.
--   Guest.Handle (cpp/xpute/guest/abi/handle.hpp): the table of handles. Inv has the free list
--     and the counters; Take and Laws follow insert, Remove and Rollback what they name, Stale a
--     handle's reuse, Since a transaction and Empty a table that nothing was taken of; Pack the
--     handle's own fields.
--   Guest.Frame (cpp/xpute/guest/ipc/frame.hpp): a frame's words.
--   Guest.Ring (cpp/xpute/guest/ipc/ring.hpp and ring.cpp): the ring of frames and payload slots.
--     Inv says where it lies, Queue what it holds as a list of entries, Publish and Append what a
--     push writes, Init, Refine, Take and Packet what init, push, peek, advance and pkt do.
--   Guest.Stream (cpp/xpute/guest/ipc/stream.hpp and stream.cpp): records and transactions; Inv
--     and Transaction follow them.
--   Guest.Section (cpp/xpute/guest/mem/section.hpp): ranges laid end to end; Layout says that
--     they do not meet.
--   Guest.Edge (cpp/xpute/guest/sched/edge.hpp and wake.hpp): the two edges of a turn, the wakers
--     parked between them and the delay that the fall answers, with none for NO_WAKE; Asked has
--     what was asked, as lists, Least the least and the greatest of times, and Turn what the next
--     fall and rise make of it. A waker is handed to the executor, a parameter. Notify and the
--     awaiters, which are of coroutines, are not modelled.
--   Guest.Pass (cpp/xpute/guest/sched/pass.hpp): a turn's budget spent on a list of items, over a
--     clock that the program's state holds and steps that may move it; Items has the loop,
--     Visited which items a run visits and where it stops. Times are whole numbers, and what
--     elapsed is a signed one.
--   Guest.Tick (cpp/xpute/guest/sched/tick.hpp): the steps that are registered for a tick, and a
--     phase over them. Gone has the ids that were asked off, Phases the phase as visits to a
--     list, Registry what registering and taking off keep.
--   Gpu (cpp/xpute/gpu): GPU calls as records of the stream. Enum has the enumerations of
--     enum.spec.hpp and their numbers, Op the words of api.spec.hpp, Descriptor the structs of
--     encode.hpp. Record is its writer, which counts the words and then fills them in: what the
--     source hands it as a lambda is a list of parts. Parts has the parts of each object, Call
--     the calls of encode.cpp, Objects the class Gpu with its handles. Record.Written and
--     Record.Emit say what a record leaves in the memory, Parts.Shape how long it is, Call.Fits
--     what the measured room is enough for, Call.Ticket what a waiting word holds, Objects.Make
--     and Objects.Transaction what making an object, and a transaction of them, comes to.
--   Common: the shared names and lemmas; Tests and Lists the Boolean tests and lists on native
--     numbers, Digits and Bits the bit operations as arithmetic, Tabulate and Range lists and
--     tests over a range, Int the signed numbers.
--
-- Numbers are natural numbers with the source's wrap written out, `uint32_t` as `% 2 ^ 32`. Loops
-- are recursion on what is left of a list or on the rounds left, and only those of Codec.Utf8,
-- Wire.Tlv and Collection.Heap and the reads all levels down of Wire.Xtp.Cursor on a bound that
-- the source does not have. A name of the source that the language or another declaration has
-- taken is near by: `open` is `opened`, the inline `List` is `Inline`, a descriptor's `module` is
-- `shader`, `record` is `put`, `empty` is `is_empty`.
--
-- Not modelled: the numbers and places of a bug's report; the addresses of a native build, for
-- which offsets stand; allocation failure of the standard containers. The rest of cpp/xpute, and
-- what generates cpp/amalgamation from it, is outside this development.
pub mod Common
pub mod Status
pub mod Collection
pub mod Codec
pub mod Wire
pub mod Guest
pub mod Gpu
