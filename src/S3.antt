-- ===== src/S3.antt =====
-- pkg/s3: syncing a local directory with a bucket, in either direction.
pub mod Location
pub mod Objects
pub mod Select
pub mod Disk
pub mod Download
pub mod Upload
pub mod Sync
