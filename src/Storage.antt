-- ===== src/Storage.antt =====
-- The persistent backends (storage): keys and values as byte strings, the databases that the backends
-- use, and the repositories and queries over them.
pub mod Keys
pub mod Db
pub mod Contents
pub mod Rocks
pub mod Heed
