-- ===== src/Lib.antt =====
-- CDSA, the C data structure and algorithm library of this repository: verification library.
--
-- The program is a set of containers with opaque handles, each a file of src/ with a header under
-- include/CDSA/, on top of a tracking allocator. The containers call the allocator through the
-- CDSA_MALLOC, CDSA_CALLOC, CDSA_REALLOC and CDSA_FREE macros, report by the status codes of
-- error.h, and build on one another: the stack and the priority queue on the vector, the queue
-- and the deque on the ring buffer. Iterators snapshot a version counter of their container.
--
--   Base           helpers: native numbers with Boolean tests, lists as C arrays, 64-bit size_t
--   Error          include/CDSA/error.h, src/error.c
--   Allocator      src/allocator.c: malloc_track and its companions; the counter and the C library's
--                  answers are the state `Memory`
--     Telemetry    what each call charges to the counter
--     Pool         the block pool; FreeList and Ownership are about its free list and its blocks
--     Arena        the linear arena; Layout is about the blocks that it serves
--     Samples      memories for runs
--   Vector         src/vector.c, with Iterator; Inv, Contents, Oom, Telemetry, Life, Iterator/Walk
--   BoundedDeque   the abstract deque of bounded length
--   RingBuffer     src/ringbuffer.c, with Iterator; Window, Inv, Refine, Life, Iterator/Walk
--   Queue          src/queue.c; Fifo
--   Deque          src/deque.c; Ends
--   Stack          src/stack.c; Lifo
--   LinkedList     src/linkedlist.c, with Iterator; Chain, Life, Iterator/Walk
--   KString        src/kstring.c; Append
--   HashMap        src/hashmap.c, with Iterator; Table, Insert, Held, Kept, Resize, Lost,
--                  Iterator/Walk
--   PriorityQueue  src/priority_queue.c; Cells, Order, Up and Down are about the heap and the sifts, Push,
--                  Pop and Drain about the calls
--   Art            src/art.c: the nodes and the search; Slab the pools, Children the slots, Insertion and
--                  Deletion the calls, Fork and AtLeaf an insertion at a leaf, Drop a deletion that goes too far
--   Text           C strings and strcmp
--   SkipList       src/skiplist.c, with Range and Iterator; Chain is the levels, Search the descent,
--                  Splice, Relink, Bypass and Unlink the rewiring, Order and Delete the abstract sorted
--                  list, View what a list represents, Insert and Remove the calls, Walk and Outdated
--                  the iterator
--   */Tests        runs, and each theorem at a concrete input
--
-- A definition has the name of the C function, without the prefix cdsa_ (and, for the pool, the
-- leading k). A struct is a record; the block that holds it and the blocks it owns are the pointers
-- `handle`, `storage`, `table` and so on, with the size in their hidden header. A pointer argument
-- that may be NULL is an Option, and a function returns its status, what its pointer arguments lead
-- to afterwards, and the memory. A pointer into a container is an index. Contents of storage are
-- lists of cells, `none` where nothing was written yet; a write past the end is lost. size_t is 64
-- bits wide and wraps; records have the sizes of an LP64 platform. The C library's malloc and
-- realloc are the parameter `libc` of `Memory`: what they answer to each request.
--
-- A node of the skip list is named by how many were created before it, and a map leads from the names
-- to the nodes, to nothing once a node is freed. The comparisons of double are the parameter
-- `Doubles`; the theorems suppose a rank that they agree with, which scores that are numbers, not
-- NaN, have. What rand answers is the parameter `Random`.
--
-- A node of the radix tree is a tree with the blocks that its nodes have in the pools, as each node
-- hangs in one place; what a freed block holds is not kept. Its recursion is on the tree.
--
-- Loops run on fuel: the growth loop of the string has 65 rounds, as many doublings as pass every
-- word; the insertion loop of the hash map has one round of the table and one step more; the probe
-- has the high-water mark and two steps; the backward shift has one round and one step; the sifts of
-- the priority queue have the index, or the size, and one step; the walks of the skip list have as
-- many steps as nodes were ever created, and one more. `none` says that fuel ran out.
--
-- Not modelled: the iterator of src/art.c; the print functions, the tests
-- and the benchmarks, which are output and drivers.
pub mod Base
pub mod Text
pub mod Error
pub mod Allocator
pub mod Art
pub mod Vector
pub mod BoundedDeque
pub mod RingBuffer
pub mod Queue
pub mod Deque
pub mod Stack
pub mod LinkedList
pub mod KString
pub mod HashMap
pub mod SkipList
pub mod PriorityQueue
