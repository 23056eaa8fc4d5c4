-- ===== src/Programs.antt =====
-- main3.c and unit_schedlib.c: the programs that test the library. What they print and their timing
-- are left out.
pub mod Threads
pub mod Channels
pub mod Main
pub mod Unit
