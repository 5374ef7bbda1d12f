-- ===== src/App.antt =====
-- The app crate: the commands that change the state of the chain (app/src/command.rs,
-- app/src/input.rs, app/src/actor.rs) and the queries (app/src/query.rs), over the in-memory
-- dependencies of the blockchain crate. Panics are `none`.
pub mod Types
pub mod Queries
pub mod Execute
pub mod Build
