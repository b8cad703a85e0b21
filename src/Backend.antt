-- ===== src/Backend.antt =====
-- backend/backend.go: the storage abstraction. `Records` has the data, `Contract` the interface with
-- its laws.
mod Records
mod Equality
mod Contract
mod Examples
pub use Records.{Record, deleted_set, Context, clone-id}
unfoldable pub use Records.{is_claimed, clone, with_force_refresh, force_refresh, without_cancel}
pub use Contract.{
  Backend, IsLawful, Written, Unchanged, SameRecord, SameRecord-refl, Stored, Stored-exact,
}
