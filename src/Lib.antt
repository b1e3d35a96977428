-- ===== src/Lib.antt =====
-- A verification library for jml-base, a C++ utility library for machine learning.
--
-- The parts of the program that are modelled, the files that model them, and the code:
--   BitRange    arch/bit_range_ops.h: shrd, maskLower, extract_bit_range, set_bits and set_bit_range on
--               words of any unsigned width, and in BitRange.Signs sign_extend.
--   BitStream   arch/bit_range_ops.h: Bit_Writer, and Bit_Buffer with Bit_Extractor over
--               Simple_Mem_Buffer. They use BitRange on the two words that a field may straddle.
--   Bitops      arch/bitops.h: highest_bit and lowest_bit, by the instructions bsr and bsf and by the
--               ladders of masks that other processors use.
--   Compact     db/compact_size_types.cc: numbers saved in one to nine bytes, by their highest bit, which
--               is Bitops.highest_bit; with a sign in the last bit.
--   Circular    utils/circular_buffer.h: Circular_Buffer, its storage cell by cell.
--   Hash        utils/lightweight_hash.h: LogMemStorage, with its capacity from Bitops.highest_bit, and
--               the search, insertion and growth of Lightweight_Hash_Base with PairOps. Hash.Map has the
--               iterators, the constructors, clear and Lightweight_Hash. Hash.Filling says when a table
--               models a map, and Hash.Map.Refines runs a client's calls on both.
--   Parse       utils/parse_context.h and utils/parse_context.cc: the matchers of Parse_Context on the text
--               that is left, with the rewind of Revert_Token, and integers within bounds (Parse.Numbers).
--   FastInt     utils/fast_int_parsing.h: decimal integers, read with the matchers of Parse; Parse.Numbers
--               calls them.
--   Csv         utils/csv.cc: fields and rows of comma separated values, over Parse, and csv_escape.
--   Json        utils/json_parsing.h and utils/json_parsing.cc: strings and their escape, in
--               Json.Ascii ASCII strings and in Json.Containers arrays and objects, over Parse; a client's callback is an argument.
--   CompactVector  utils/compact_vector.h: compact_vector, its elements inside the object or outside it,
--               cell by cell. CompactVector.Calls has the members that a client calls and
--               CompactVector.Client a client's calls.
--   RingBuffer  utils/ring_buffer.h: rings of requests between threads, each call as it runs alone, and in
--               RingBuffer.Machine the writers and the reader of RingBufferSRMW a shared access at a
--               time, with Spinlock of arch/spinlock.h. RingBuffer.Queue has a client's calls.
--   Common      what these share: lists measured by native numbers, integers, results of functions that
--               may throw, and the laws of `&` and `|` on fields of bits.
-- A module's own file has the definitions, named as in the code; Hash.Walk has those of the iterators' steps,
-- BitRange.Signs, Parse.Numbers, Hash.Map, Json.Ascii, Json.Containers, CompactVector.Calls,
-- CompactVector.Making and RingBuffer.Machine those of their parts, and Circular.Queue, Hash.Map.Client, CompactVector.Client
-- and RingBuffer.Queue a client's calls. The other children have the lemmas and the
-- theorems, named for what they are about, and Tests has examples.
--
-- How the code is read. A word of w bits is a natural number below 2 ^ w, and what wraps is written with
-- `% 2 ^ w`; the widths of the bit ranges are parameters, with the bounds that the code's callers keep as
-- hypotheses. Undefined behaviour (a shift by the width of a type or by a negative count, an access
-- outside an array, a use of a cell with no element) is a failure of the model: `none` in BitRange and
-- BitStream, `bad_shift` in Compact, `bad_access` in Circular, CompactVector, Hash, Parse and
-- RingBuffer, there also `divides_by_zero`, and `overflow` in FastInt, Circular and Hash. An exception
-- is an error value.
-- Memory is a list: in BitStream of words, in Hash of buckets, in RingBuffer of requests, in Circular
-- and CompactVector of cells that hold an element or none, so that constructing and destroying elements
-- shows. A pointer into it is an index, and objects that the code changes in place are passed and
-- returned.
-- Threads are program counters with their live locals, and a step is one access of one thread to shared
-- memory. A wait on a futex is a step that changes nothing, so nothing is said of how long it lasts.
--
-- Bounds and fuel. `bsr` and `bsf` recurse on the width less one, which is enough for every word of
-- that width. The search of Hash has fuel for every bucket and one more, which is proved to be enough;
-- `insert_new` has fuel for the insertions nested in one another, of which 2 is proved to be enough: a
-- table that is filled while another grows does not grow itself.
-- The loop over a field of Csv has fuel for every character and one more, which is proved to be enough;
-- that over a row has its fuel as an argument, since it does not end on every text, and so have those
-- over arrays and objects of Json, whose callback may leave the context where it was. The other loops
-- of Json have fuel for every character and one more.
-- Every other loop recurses on its counter or its data.
-- In Circular the capacity overflows where it does when it is doubled; the theorem on a client's calls
-- bounds what they ask for by 2 ^ 29, so that no capacity is above 2 ^ 30 and no offset overflows. In
-- Hash a bucket's index is converted to an `int` where the code does it, and the theorems take tables
-- whose indexes are an `int`. CompactVector and RingBuffer take sizes below 2 ^ 30 and 2 ^ 31, where no
-- `int` of the code overflows. With `Internal` equal to 0, compact_vector constructs a first element in
-- the bytes of `ext` in its union; CompactVector has no cells for them, and its theorems that
-- construct an element take a storage with a cell.
--
-- Not modelled: Buffered_Mem_Buffer and BitArrayIterator of arch/bit_range_ops.h; rotation
-- and population count of arch/bitops.h; the refilling buffer behind Store_Reader; the iterators,
-- erase_element, resize and the copies of Circular_Buffer, and constructors of its elements that throw;
-- the set, the moves and MemStorage of utils/lightweight_hash.h; RingBufferSWMR between
-- threads, which mirrors RingBufferSRMW with a mutex of the standard library, and memory that is not
-- sequentially consistent; the order and the serialisation of compact_vector, and calls
-- of it with a reference to an element of its own; the numbers of JSON and the worker tasks of
-- utils/; the buffers behind a Parse_Context
-- that reads a stream, and its hexadecimal and floating point numbers. judy/ and gmsl/ are copies of other
-- projects. stats/, math/ and arch/simd_vector.cc are floating point arithmetic, and the rest of arch/
-- is system calls and assembly.
pub mod Common
pub mod BitRange
pub mod BitStream
pub mod Bitops
pub mod Compact
pub mod Circular
pub mod CompactVector
pub mod Hash
pub mod Parse
pub mod RingBuffer
pub mod FastInt
pub mod Csv
pub mod Json
