-- ===== src/Pub3/Msgpack.antt =====
-- libpub/pub3msgpack.C: values as MessagePack. Reading numbers and printing them is left to the C
-- library, whose functions are parameters.
pub mod Outbuf
pub mod Written
pub mod Pack
pub mod Unpack
pub mod Ints
pub mod Reads
pub mod Ends
pub mod Total
pub mod Keys
pub mod Tests
pub mod Lengths
pub mod Containers
pub mod Values
pub mod RoundTrip
use okws.Prelude.{Bool, Bytes, Option}
use okws.Scalar.{Clib}
use okws.Pub3.Expr.{Expr}

-- `g_js_mode`, the C library, and `to_str` of doubles, lists and dictionaries, which prints them by
-- the C library.
pub record Config : Type 0 where
  pub js_mode : Bool
  pub lib : Clib
  pub other_str : Expr → Option Bytes
