-- ===== src/Detect.antt =====
-- Project detection: the modules of src/build_engine/detect. A project directory is the test which of
-- its files are there.
pub mod PackageJson
pub mod Lockfiles
pub mod Framework
pub mod Certified
pub mod Plan
