-- ===== src/Lib.antt =====
-- Zown is a stack language for machines to write; `zownc` is its toolchain in Rust. This library
-- models the front of the toolchain, from source text to the intermediate representation, the static
-- checker, and of the virtual machine its arithmetic, its buffers, its collections and
-- the queues of its workers.
--
-- Source text is lexed to tokens (`zownc/crates/zown-lexer`), tokens are parsed to a program of
-- nested nodes (`zown-parser`, `zown-ast`), and a program is lowered to a table of flat blocks
-- (`zown-ir`), which the back ends read. The static checker (`zown-check`) reads the program. `big`
-- values of the virtual machine are the integers of `zownc/crates/zown-vm/src/bigint.rs`.
--
-- Prelude: shared names, tests and lists over the native numbers, integers (Prelude/Int), outcomes
--   of fallible runs (Prelude/Outcome), runs that change a state (Prelude/Action). A text is
--   the list of its code points.
-- Syntax: `Pos`, `TokenKind`, `Token`, `Node`, `NodeKind`. The type `F` stands for `f64`.
-- Lexer: zown-lexer/src/lib.rs. Lexer/State has the cursor (`Lexer`, `advance`), Lexer/Read the
--   methods `read_*`, Lexer/Loop `tokens` and `lex`. The cursor holds `src[i..]` in place of `src`.
--   Lexer/Spelling says what each token is spelled like; Lexer/Took, Found and Sound relate the two.
-- Parser: zown-parser/src/lib.rs. `sequence_round` is a round of the loop of `Parser::sequence`,
--   `parse_node` is `Parser::node`. Parser/Printed is the print of a program as tokens.
-- Ir: zown-ir/src/lib.rs. `lower_node`, `lower_kind` and `lower_nodes` are the loop of `lower_seq`.
-- Check: zown-check/src/lib.rs, and `is_builtin` of zown-vm/src/lib.rs (Check/Words). Check/Sets has the
--   sets of words, Check/State the state and the passes before the walk, Check/Visit what is done at a
--   node, Check/Walk the walk. `use_of` is the choice that `walk_block` makes. The nodes before an
--   index are a list, nearest first. Check/Frame and FrameWalk are about what the walk leaves as it
--   was, Check/Defines, Binds, Uses, Known and Names about names, Check/Source about `check_src`.
-- BigInt: zown-vm/src/bigint.rs. BigInt/Limbs and Compare are about magnitudes, BigInt/Signed about
--   signed numbers.
--   BigInt/Product has `mul`, whose outer loop works on `d[i..]`. BigInt/Shift has `shl`,
--   BigInt/Power `pow_u32`.
--   BigInt/Word is about 32-bit and 64-bit integers, BigInt/Decimal has `parse_dec` and `Display`.
-- Exact: zown-vm/src/exact.rs, the checked arithmetic of decimals and Gaussian integers. Exact/Range is
--   about 128-bit numbers, Exact/Checked about exact results and faults, Exact/Scale and Exact/Order
--   about decimals of two scales. `Fault` has what the code says of a fault.
-- Buf: zown-vm/src/buf.rs, the buffer words `bf`, `bg` and `bp`, and the words of zown-vm/src/lib.rs that
--   copy, move and drop values. An `Rc` is a place in `heap`, and a result boxes a value. A word is an
--   `Action`, which changes the machine also where it ends in a fault. Buf/Safe has what a machine in
--   order is, with the owners counted or not, Buf/Laws the words on it, Buf/Alias the owner and the borrows of an allocation.
-- Coll: zown-vm/src/coll.rs, the collections. Coll/Store is `CollStore` and its parts; a hash map is a
--   list. Coll/Heap is the priority queue, Heap/Rank its order, Heap/Up and Heap/Down its two loops,
--   Heap/Refines the queue as an ascending list. Coll/Tree is the tree of a `te` collection, Tree/Shape
--   its form and its rows, Tree/Refines the tree as a map; Coll/Rows are maps as ascending rows.
--   Coll/Trie is the tree of a `ti` collection, Trie/Walk its texts. Coll/Words has the machine,
--   Words/Changes what the words do with a collection, Words/Show its text, Words/Run the words.
--   Words/Order says what a collection in order is, Words/Kept, Taken, Put and Shown are about what the
--   words do with one, Words/Laws about the words on a machine.
-- Lanes: zown-vm/src/lanes.rs, the workers that the lanes leave free. `Workers` has what `LaneState` has
--   of them, Lanes/Jobs is about the jobs that wait. The count of processors is an argument.
-- Loops that are not structural take fuel. `tokens` is given the length of the source, since a round
-- reads a character at least; `parse_tokens` a unit more than the tokens, since each call of
-- `sequence` has fewer tokens before it; `unlower` the number of blocks, since references of a lowered
-- table go back. Running out is an outcome of its own, which the theorems exclude.
-- `Display` is given the number itself, since a round divides it by 10, and the loop that pushes the
-- carry of a `u128` in `mul` 4, the limbs that it can have.
-- `pow_u32` is given 32 rounds, since each halves the exponent.
-- The loops of `heap_push` and `heap_pop` are given the length of the heap, since a round goes towards
-- the root, or away from it, and `insert_nonfull` the height of the tree, which it goes down. A panic of
-- these routines is `none`, as is running out of fuel.
-- The text of an `i64` is given 20 rounds, a digit each.
-- The counters `line` and `col` are `u32`s that wrap, as in a release build. Error messages and
-- hints are constructors, one for each text of the source. `str::parse::<f64>` is the parameter
-- `parse_f64`, any function.
--
-- Not modelled: the JSON rendering of programs and the listing of the representation; of the integers
-- right shift, bit access, division, square root and floats; the rest of the virtual machine
-- (the rest of its values, bindings, the dropping of collections, the pipes and ticks of lanes, the
--  graph store, ciphers, media, input and
-- output), the back ends, the boot images and the command line.
pub mod Prelude
pub mod Syntax
pub mod Lexer
pub mod Parser
pub mod Ir
pub mod Check
pub mod BigInt
pub mod Exact
pub mod Buf
pub mod Coll
pub mod Lanes
