-- ===== src/Example.antt =====
-- The programs of src/example, which the loader runs: the library that prints boxes and texts, the
-- garage, the table of functions, and the program that uses them all. They print to `stdout`, which
-- is a FILE over any state of the device. `int` values are 32-bit words, which wrap round.
pub mod Print
pub mod World
pub mod Garage
pub mod Ftable
pub mod DynTest
pub mod HelloWorld
