-- ===== src/Lib.antt =====
-- A verification library for tcvm, a virtual machine for Lua written in Rust.
--
-- The parts that are modelled, each a shallow translation of the Rust source:
--   Utf8      src/builtin/utf8.rs: `decode` and `encode` of the original UTF-8, and in
--             Utf8/Library the functions `char`, `codepoint`, `len`, `codes` and `offset`;
--   Literal   src/parser/lit.rs: the numeric escapes of string literals and the UTF-8 encoder
--             of the parser, which is independent of the one of the library;
--   Pattern   src/builtin/string/pattern.rs: the pattern matcher behind `string.find`, `match`,
--             `gmatch` and `gsub`: classes and sets in Pattern/Class, `MatchState` and its
--             methods in Pattern/Matcher, the search without magic characters in Pattern/Search.
--   Strings   src/builtin/string/mod.rs: `find`, `match` and `gmatch` on top of the matcher, and in
--             Strings/Gsub `gsub` with a template; `byte`, `char`, `sub`, `rep`, `lower`, `upper` in
--             Strings/Basic, the parser of a specification of `format` in Strings/Format. The
--             state of the matcher and of an iterator is passed on, and the values that are
--             pushed are the result.
--   Env       src/env: values in Env/Value, the interner and the symbols in Env/Strings, the hidden
--             classes of src/env/shape/mod.rs in Env/Shape, `TableState` of src/env/table/mod.rs in
--             Env/Table, `Table` with its metatables in Env/World, and the inline caches of
--             src/vm/interp.rs in Env/Cache. Env/World/Steps makes a machine of the operations.
--   Pack      src/builtin/string/pack.rs: the options of a format, `string.packsize`,
--             and the integers of `string.pack`; the padding in Pack/Padding;
--   Num       src/vm/num.rs: `op_arith` and `op_bit` on two operands, with the integer operations
--             and `exact_float_to_int`; the floats and their operations are parameters. Num/Errors is
--             about errors, Num/Division about `//` and `%`, Num/Exact about the bit operations.
-- The helpers that they share are in Common, runs at concrete inputs in Examples.
--
-- Conventions: where the model keeps a width, arithmetic wraps around as in a release build. A byte
-- slice is a list of numbers and an index a number. An unsigned shift or cast
-- has its wrap-around written out. A method that changes `self` takes the state and returns it.
-- An index or a slice out of range, and a subtraction below zero, is the outcome `panic`.
--
-- An object on the heap is a number, its address, and the heap a map from addresses; an allocation
-- takes the next number. A map of hashbrown is a function from keys, since its answers depend on
-- the equality of keys alone. A weak edge finds its shape unless the collector freed it, and the
-- collector frees any shapes at any time. A panic is `none`. A value of the kind nil is the one
-- that `Value::nil` makes, which is a hypothesis on the values that are stored. The conversions
-- between f64 and i64 are parameters. The debug assertions are left out.
--
-- Fuel: a loop of the source runs on fuel where its recursion is not structural, and `stuck` is
-- what it answers where the fuel runs out. The fuel is the length of the text plus one for a loop
-- over a text, and the length of the pattern plus one for the matcher, where every round and
-- every nested match moves forwards in the pattern; `gsub` has two rounds for each byte and three
-- more, since two at most stay at one position. That this is enough is part of the theorems.
--
-- The decimal text of a number is the work of Rust's standard library, and a parameter of `gsub`.
--
-- Not modelled: `gsub` with a table or a function, which calls back into the VM; the formatters of
-- `format`; the walk of `pack` and `unpack` over the values; the generated lexers; input and output; the compiler; of the
-- interpreter everything but the inline caches; the collector, which is a copy of gc-arena.
pub mod Common
pub mod Env
pub mod Examples
pub mod Literal
pub mod Num
pub mod Pack
pub mod Pattern
pub mod Strings
pub mod Utf8
