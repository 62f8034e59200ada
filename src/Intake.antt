-- ===== src/Intake.antt =====
-- app/pipeline/intake_files.py, app/web/intake_service.py and app/pipeline/pagemap.py: from the bytes of
-- an upload to a stored file, and from a stored file to the texts of its pages.
pub mod Files
pub mod Service
pub mod Zip
pub mod Outcomes
pub mod Pagemap
pub mod Pages
