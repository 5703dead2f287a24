-- ===== src/Cgi.antt =====
-- libahttp/cgi.C and libahttp/okcgi.h: the variables of a form or a cookie. Encode is their writing;
-- State, Loop and Guts are the automaton that reads them from an `Abuf`.
pub mod Encode
pub mod State
pub mod Loop
pub mod Guts
pub mod Total
pub mod Decode
mod Tests
