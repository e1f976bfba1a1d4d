-- ===== src/Models.antt =====
-- The data model, backend/app/models/, and the transaction of a handler.
pub mod Enums
pub mod Json
pub mod Rows
pub mod Db
pub mod Tx
pub mod Ensures
pub mod Ends
pub mod Reads
pub mod Frames
pub mod Hoare
pub mod Returns
