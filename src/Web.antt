-- ===== src/Web.antt =====
-- app/web: the admission of uploads, and the patch of a row.
pub mod UploadGuard
pub mod RowPatch
pub mod Matrices
pub mod Account
pub mod Restore
