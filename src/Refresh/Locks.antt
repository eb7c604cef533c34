-- ===== src/Refresh/Locks.antt =====
-- `OriginRefreshLocks` of src/services/origin_refresh.rs: the origins that are being refreshed, as
-- the set behind the lock.
pub mod Exclusion
use rendermesh.Base.{Option, none, some, Text, TextSet, member, add, discard, if◌then◌else◌}

unfoldable pub try_acquire : TextSet → Text → Option TextSet
try_acquire active origin_id = if member origin_id active then none else some (add origin_id active)

-- `drop` of an `OriginRefreshGuard`
unfoldable pub release : TextSet → Text → TextSet
release active origin_id = discard origin_id active
