-- ===== src/Tests.antt =====
-- Concrete inputs, and the theorems at them.
mod Names
mod Stage
mod S3
mod Upload
mod Kube
mod Recovery
mod Filters
mod Disaster
mod Procedures
mod Actions
mod Volumes
mod Wal
mod Groups
mod Durations
mod Dump
mod Files
mod Restored
use backup_tool.Base.{ℕ, ◌==◌, nat_eq}
use backup_tool.Errors.{Errors}

-- Errors as numbers: wrapping keeps the number, an aggregate is its first error.
abbrev pub numbered : Errors
numbered = record {
  Error = ℕ;
  errorf = λ _. 1;
  wrap_error = λ e _. e;
  aggregate_error = λ e _. e;
  is = λ e t. e == t;
}
