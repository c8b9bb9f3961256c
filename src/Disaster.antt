-- ===== src/Disaster.antt =====
-- pkg/disasterrecovery/generic.go and drevent.go: the backup and the restore of an application that
-- a configuration describes.
pub mod Slots
pub mod Config
pub mod Validation
pub mod Destinations
pub mod Events
pub mod Apps
pub mod Backup
pub mod Restore
pub mod Refusals
