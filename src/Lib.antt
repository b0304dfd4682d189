-- ===== src/Lib.antt =====
-- Verification of old-ccv3-pp, a calculator of difficulty and performance for the four modes of osu!.
--
-- A user gives a beatmap or difficulty attributes, settings (`Difficulty`) and what is known of a
-- play: an accuracy, a combo, some hit results. The performance calculator of the mode calculates
-- attributes if it has none, completes the play to a full score state (`generate_state`), and turns
-- both into performance points. The skills behind the attributes collect strains in `StrainsVec` and
-- look back at recent objects through `LimitedQueue`.
--
-- Files and the code that they model:
-- - Util/Queue: src/util/limited_queue.rs. `LimitedQueue<T, N>` is a list of N slots with the indices
--   of the code; `queue[i] = x` is `set`. Queue/Window has the sliding window that it implements,
--   Queue/Iter the iterator over its two slices.
-- - Util/Strains: src/util/strains_vec.rs, compiled without the feature `raw_strains`. Entries are
--   their 64 bits (Strains/Entry), so a float is the number of its bits, and floats that are not
--   negative are in the order of their bits. Strains/Refine has the list of floats that it stands
--   for, Strains/Iter the iterator and `into_vec`, Strains/Sorted the sorted views and the sum.
-- - Util/MapOrAttrs: src/util/map_or_attrs.rs, and the head of each `generate_state`.
-- - Any/Mode, Any/Difficulty, Any/Score: src/model/mode.rs, src/any/difficulty/mod.rs and inspect.rs,
--   and src/any/score_state.rs with the score states of the modes (src/osu/score_state.rs, ...).
-- - Osu/Performance, Taiko/Performance, Catch/Performance, Mania/Performance: `generate_state` and the
--   setters of src/osu/performance/mod.rs, src/taiko/performance/mod.rs, src/catch/performance/mod.rs
--   and src/mania/performance/mod.rs. The large function is cut along its matches: Osu/Search has
--   osu!'s search for the hit results, and of mania Mania/Arms has the arms that search, Mania/Search
--   what they share, and Mania/Completion the match on what was given.
-- - Catch/Counts: the counts of src/catch/attributes.rs, in all or per object; Counts/Prefix compares
--   the two. Catch/Gradual: the iterator of src/catch/difficulty/gradual.rs, where a call that would
--   panic on an index gives `none`; Gradual/Nth compares nth with next. Its skill is a parameter.
-- - Model/ControlPoint: the control points of src/model/control_point and their lookup by time, over a
--   binary search that is a parameter (`BinarySearch`); ControlPoint/Active says which point is found.
-- - Taiko/Objects: the objects of src/taiko/difficulty/object.rs and the lists that index them
--   (Objects/Indices). Taiko/Color: their grouping by src/taiko/difficulty/color/preprocessor.rs into
--   streaks and patterns (Color/Encode, over the cutting of lists of Color/Chunks; Color/Streaks tells
--   streaks by the types of objects), into repeating patterns (Color/Repeats), and how far back a pattern is repeated (Color/Intervals). Color/Whole
--   puts them together. The fuel counts the rounds of a loop that takes at least one pattern each.
-- - Util/Random: the generator of src/util/random.rs (Random/Words: its numbers are words; Random/Bits:
--   its bits). Util/Sort: heap sort and the swaps of src/util/sort/mod.rs (Sort/Swap, Sort/Heap),
--   with the order of the heap (Sort/Order, Trade, Sift) and of what was taken from it (Sort/Sorted,
--   Result); the fuel of its loop is the size of the heap, whose places the loop goes down.
-- - Any/Convert: the conversion of a map in src/model/beatmap/mod.rs, with the changes to its objects as
--   a parameter. Any/Performance: the calculator of any mode of src/any/performance/mod.rs and what
--   makes one of osu! one of another mode; Performance/Modes has its theorem.
-- - Base and Float: lists, words, loops, sorting, and the floating point numbers.
-- - Examples: runs on small inputs.
--
-- Numbers: `u32` and `usize` are naturals with the wrap-around of a release build written out
-- (add32, sub32, mul32; `-` alone is `saturating_sub`). Theorems about sums ask for the bound
-- under which nothing wraps. Floating point numbers are a parameter (`Floats`); `FloatLaws` has
-- what the theorems use of them, all true of IEEE 754 numbers that are not NaN and of Rust's
-- saturating casts, and Examples/FixedPoint has an instance; `IsFloatAdd` is what the sum of
-- strains asks of the addition of floats that are not negative. Mods are the third-party crate
-- rosu_mods: a parameter with what the code asks of them (`Mods`). The calculation of attributes
-- is a parameter of `generate_state`: any function of the settings and the map that may fail.
--
-- Loops: `for i in lo..=hi` is recursion on the number of rounds (Base/Loops). Reading the strain
-- iterator to its end has fuel `len + 1`, which is enough because every call but the last lowers
-- `len` (the theorem about `into_vec` covers it).
--
-- Not modelled: the strain and point formulas, which are floating point throughout; parsing, which
-- is the crate rosu_map; how a conversion changes the objects of a map; the other gradual calculators
-- and the quick sorts, which are left for later.
pub mod Base
pub mod Float
pub mod Util
pub mod Any
pub mod Taiko
pub mod Catch
pub mod Osu
pub mod Mania
pub mod Model
mod Examples
