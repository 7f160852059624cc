-- ===== src/Lib.antt =====
-- Models and proofs for the parts of learning-journey that keep state.
--
-- The repository collects independent C++ exercises and a course database, bustub. The parts that
-- are modelled, each in a file of its name with its proofs in the folder of that name:
--
-- - Sketch: the count-min sketch, bustub/src/primer/count_min_sketch.cpp with its header and the
--   hash of bustub/src/include/common/util/hash_util.h (Sketch/Hash). A `Sketch` is the object's
--   state; `new_sketch`, `insert`, `count`, `merge`, `clear`, `top_k`, `move_construct` and
--   `move_assign` are its methods, each loop a function that recurs on the number of rounds left.
--   Sketch/Threads orders the increments of two threads explicitly: the lock of `Insert` makes one
--   increment a step.
-- - TablePage: the slotted page, bustub/src/storage/page/table_page.cpp with its header, and what
--   it uses of tuple.h and rid.h. Its methods take the page and return it; TablePage/History is the
--   relation that any sequence of calls spans.
-- - TableHeap: the table as a chain of such pages, bustub/src/storage/table/table_heap.cpp, its
--   iterator, table_iterator.cpp, and the loop of `CreateIndex` in bustub/src/include/catalog/catalog.h
--   over it. TableHeap/Pool is the interface of the buffer pool: pages by identifier, and a counter
--   for new ones. TableHeap/Chain says what the chain of a table is, and TableHeap/History which
--   tables calls on a new one can make.
-- - Arena: Allocator/Arena.h, the arena and the allocator over it.
-- - Vector: Containers/vector/Vector.h over Allocator/Allocator.h, with the state of each slot of
--   raw storage, so that a read, a construction or an assignment that C++ leaves undefined is seen.
-- - Types: the SQL values, bustub/src/type. Types has `Value` of value.cpp, Types/Arithmetic the
--   checked arithmetic of integer_parent_type.h, Types/Family what the four classes share up to the
--   width, and Types/Tinyint, Types/Smallint, Types/Integer and Types/Bigint the classes
--   tinyint_type.cpp, smallint_type.cpp, integer_type.cpp and bigint_type.cpp. Types/Values has the
--   calls through `Type::GetInstance`, as value.h makes them, with `min` and `max` of
--   integer_parent_type.cpp. A number is a `ℤ`; a cast wraps it to the width, and a signed result
--   that C++ cannot compute is the error `undefined`. Types/Boolean, Types/Varlen and Types/Decimal
--   are boolean_type.cpp, varlen_type.cpp and decimal_type.cpp; Types/Values does not call them, and a
--   comparison in Expressions calls the first two.
-- - Schema: where the columns of a tuple lie, bustub/src/catalog/schema.cpp with its header and
--   column.h.
-- - Tuples: how a tuple keeps its values by a schema, bustub/src/storage/table/tuple.cpp.
-- - Expressions: bustub/src/include/execution/expressions, with RewriteExpressionForJoin of
--   bustub/src/optimizer/merge_filter_nlj.cpp. A row is what GetValue answers at each index.
-- - Executors: the filter and the projection of bustub/src/execution, filter_executor.cpp and
--   projection_executor.cpp, and PollExecutor of bustub/src/include/execution/execution_engine.h. A
--   child executor is the list of its batches.
-- - Strings: bustub/src/common/util/string_util.cpp; Strings/Search is what its searches find.
-- - Plans, Optimizer: the plan nodes of bustub/src/include/execution/plans and the rules of
--   bustub/src/optimizer that need no catalog. Plans/Meaning says what a plan gives, and Plans/Sound
--   when it fits its schemas.
--
-- TableHeap calls TablePage, Tuples calls Types and Schema, Expressions calls Types, and
-- Optimizer calls Expressions and Strings; the other parts do not call each other. All share
-- Base: numbers below a power of two, lists, and `Outcome`, which is a value or the error thrown.
-- Tests holds a concrete run for each theorem.
--
-- Loops recur on a list or on the number of rounds left, and four kinds on fuel: the loop of
-- `InsertTuple` of a table, for which two rounds are enough, and the loop over a table, for which
-- its number of tuples and one are, and PollExecutor, for which the number of its tuples and one
-- are, and the searches in a string, for which two more than its characters are when the pattern
-- is not empty. Machine integers are natural numbers with the remainder by 2 ^ 16, 2 ^ 32 or 2 ^
-- 64 where the code makes one.
--
-- Parameters: the buffer pool, in the meaning of a plan its tables, the joins that are not INNER
-- and the kinds of nodes that no rule looks at, `LockRow`, `std::hash`, `std::sort`, the contents
-- of memory from `new`, the address of an arena, for which sizes `::operator new` succeeds, and
-- `double` with the conversions between numerals and strings. A hypothesis on `std::sort` says
-- that it returns a rearrangement in order.
--
-- Not modelled: printing; the binder and the planner, which translate between libraries; the
-- other executors and rules of the optimizer, which are stubs or need the catalog; the buffer
-- pool, the indexes and the recovery, whose operations are stubs in this repository; the
-- demonstrations of the standard library under Concurrency, Miscellaneous and
-- Containers/shape_hierarchy.
pub mod Base
pub mod Sketch
pub mod TablePage
pub mod TableHeap
pub mod Arena
pub mod Vector
pub mod Types
pub mod Schema
pub mod Expressions
pub mod Executors
pub mod Plans
pub mod Optimizer
pub mod Strings
pub mod Tuples
mod Tests
