-- ===== src/Lib.antt =====
-- tsubasa: benchmark kernels for the NEC vector engine. This library models the code below
-- src/main of the repository and the generators of test data below src/experiments, and proves what
-- makes them correct.
--
-- Bitpacking is src/main/algorithms/compression/physical. Bitpacking/Generator.antt is
-- bitpacking_generator.cpp, whose output is a list of statements; Bitpacking/Impl holds the 96
-- bodies of `pack` in bitpacking_impl.h as such lists, and Bitpacking/Code.antt says what a
-- statement does to the local arrays, the two pointers and the memory. Bitpacking/Dispatch.antt and
-- Bitpacking/Pack.antt are `compress_impl` of bitpacking.h with one call of `pack`, and
-- Bitpacking/Column.antt is the constructor of `vertical_bitpacking` with `compress`.
-- The other files there hold proofs: Stream (what packed words mean), Packed and Statements
-- (the invariant of a body), Schedule (whole batches), Column/Ors, Column/Layout, Column/Compress.
--
-- Hash/Murmur3.antt is src/main/algorithms/hash/murmur3.h and, each translated by itself, the two
-- texts of the hash that hash_set.h writes out. HashSet.antt is the counting table of
-- src/main/datastructures/set/hash_set.h with a record for its members: the constructor, the two
-- builds by element, the probes and the counters. Below it, Scan has the loops that stop early,
-- Total the sums of counters, Invariant and Placed the well-formed tables, Insert one key, Build
-- all keys, Counts the way from the constructor to the answers and Probe the probe for an array of
-- keys. The hash function is an argument of the table. HashSet/Batch.antt is the two builds with
-- many keys in flight: Lanes is what holds between two rounds, Gather, Scatter and Tally (with
-- Advance) are the three loops of a round, Turn is the turn of one lane in the last one, Round puts
-- them together, Start and Built are the loops of rounds, and Answers is what the table then
-- answers. The fuel counts rounds; a round looks at a new slot for every key in flight, so the
-- number of keys times the number of slots is enough.
--
-- BitWeaving.antt is src/main/datastructures/common/bitweaving_h_store.h: masks,
-- `create_predicate`, `format` and the sequential comparisons of `bitweaving_h_fitting_store`.
-- Below it, Fields has the arithmetic of fields side by side, Masks and Repeat what the masks and
-- the predicate are, Compare the outcome in one word and Select the loops over all words.
-- Threads.antt is `start_thread_with_pinning`, with the method that it starts as an argument, the
-- body of `cmp_neq_seq_par` and `cmp_neq_par`: one step is one round of the loop of one thread, and
-- a schedule is a list of threads. Parallel says what every schedule leaves if the threads receive
-- their contexts. `cmp_neq_par` calls a member function through a pointer to a function, so that
-- they do not: what they find in place of them is a parameter, and Stray is about that. The
-- language leaves such a call undefined; the model has no trap. Threading.antt is the partition
-- manager of src/main/utils/threading.h, which hands out the chunks; Tiles and Partition prove that
-- they tile the array, which Parallel uses.
--
-- Logical.antt and the files below it are src/main/algorithms/compression/logical: Delta is delta.h,
-- FrameOfReference is for.h and RunLength is rle.h, each with compression, decompression and
-- validator; the children of the last two hold what loops establish and the theorems.
--
-- Datagen.antt and the files below it are src/experiments/BenchmarkFramework/datagen: Distribution
-- is its distributions, Bounds and BitWidth are their theorems, and Generator is
-- ComplexDataGenerator; its children hold what a loop of `generate` keeps (Loop, Sums, Reverse),
-- what checkIfPossible guarantees (Possible) and the theorems (Results). The engines are one state
-- that every draw changes. The fuel of `generate` counts rounds; a round emits at least one value
-- if run lengths are not 0, so one more than the number of values is enough.
--
-- Words are numbers below 2 to the word size, and wrap-around is written out. Memory is a function
-- from addresses, counted in words, to words; input and result do not overlap. The number of lanes
-- of a vector register is a parameter. The machine instruction `ldz` is a parameter with its
-- documented behaviour as a hypothesis (Bitpacking/Column/Width.antt). Fuel: a batch of the
-- generator has at most as many vectors as a word has bits, and a chunk has 64 vectors; a mask has
-- fewer bits than its word.
--
-- Not modelled: the text layout of the code generator, `posix_thread`, timers and hardware counters,
-- which are calls of the system; the setters of the distributions; the buffers of the benchmark
-- framework, the experiments and the memory benchmark, whose results are running times and tables.
pub mod Base
pub mod Bitpacking
pub mod Hash
pub mod BitWeaving
pub mod HashSet
pub mod Threading
pub mod Logical
pub mod Datagen
mod Tests
