-- ===== src/Pub3.antt =====
-- libpub: the values of the template language pub3, and what works on them.
pub mod Expr
pub mod ListExpr
pub mod Msgpack
