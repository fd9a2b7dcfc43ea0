-- ===== src/Publish.antt =====
-- src/publish: the PIR half, which absorbs balance changes and publishes them.
pub mod Current
pub mod Store
pub mod Directory
pub mod Worker
