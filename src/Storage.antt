-- ===== src/Storage.antt =====
-- storage/: the records of the domain, the database, and the ticket repository over it.
pub mod Models
pub mod World
pub mod Columns
pub mod Times
pub mod Repository
pub mod EventLog
pub mod Literals
pub mod Rows
