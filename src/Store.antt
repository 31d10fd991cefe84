-- ===== src/Store.antt =====
-- The database of internal/wg/store.go under scripts/migrate/wg-schema.sql: its tables as lists of
-- rows in the order of their ids, and the statements that the program runs on them, in the modules
-- below. Times are numbers of nanoseconds; a nullable column is an `Option`; a statement that breaks
-- a constraint is the error `violates`, and so leaves no new database.
pub mod Rows
pub mod Hubs
pub mod Links
pub mod Tokens
pub mod Views
pub mod Devices
