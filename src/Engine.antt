-- ===== src/Engine.antt =====
-- src/engine.rs: the in-memory SQL engine.
pub mod Value
pub mod Expr
pub mod Table
pub mod Rows
pub mod Assign
pub mod Compare
pub mod Where
pub mod Date
pub mod Store
pub mod Users
pub mod Alter
pub mod Statements
pub mod Execute
pub mod Dump
pub mod Prepared
pub mod Sample
mod Tests
