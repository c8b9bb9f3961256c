-- ===== src/Stage.antt =====
-- pkg/disasterrecovery/actions/remote/remotestage.go: the stage that runs the actions of a disaster
-- recovery event.
pub mod Model
pub mod Pins
pub mod Trace
pub mod Outcome
