-- ===== src/Examples.antt =====
-- The theorems at concrete inputs, and runs of the functions.
mod Utf8
mod Env
mod Literal
mod Num
mod Pack
mod Pattern
mod Strings
