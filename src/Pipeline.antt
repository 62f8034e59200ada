-- ===== src/Pipeline.antt =====
-- app/pipeline: from the text of the pages to the rows of a compliance matrix.
pub mod TextUtils
pub mod Items
pub mod Filter
pub mod Audit
pub mod Chunking
pub mod Mine
pub mod Transform
