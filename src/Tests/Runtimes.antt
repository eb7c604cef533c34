-- ===== src/Tests/Runtimes.antt =====
-- The runtime store at a concrete sequence of operations.
use rendermesh.Base.{[], text, All, NodupKeys}
use rendermesh.Runtime.{OriginRuntimeStore, set_error, set_cdn_error}
use rendermesh.Runtime.Snapshots.{IsOwn, empty, after, error_set, cdn_error_set, Reachable-Keeps}

abbrev failed_store : OriginRuntimeStore
failed_store = set_error [] (text "docs") (text "sync failed")

Reachable-Keeps_example :
    NodupKeys (set_cdn_error failed_store (text "docs") (text "purge failed"))
    × All IsOwn (set_cdn_error failed_store (text "docs") (text "purge failed"))
Reachable-Keeps_example = Reachable-Keeps (
    after (after empty (error_set [] (text "docs") (text "sync failed")))
      (cdn_error_set failed_store (text "docs") (text "purge failed")))
