-- ===== src/Plist.antt =====
-- libmport/plist.c: the packing list. `Command` has the directives, `File` the lines, `RoundTrip`
-- the proof that a printed list is read back.
pub mod Command
pub mod File
