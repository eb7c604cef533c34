-- ===== src/Freshness/Index.antt =====
-- The index that is built from the listing of an origin, src/services/freshness.rs.
use rendermesh.Base.{
  ◌≡◌, refl, subst, List, [], ◌∷◌, Text, TextMap, insert, All, All-insert, NodupKeys,
  NodupKeys-insert, ok, Result-cases, inl, inr, >>=-eq-ok, IfOk, IfOk-eq,
}
use rendermesh.ObjectPaths.{normalize_remote_key}
use rendermesh.ObjectPaths.Keys.{IsKey, normalize_remote_key-IsKey}
use rendermesh.Freshness.{
  RemoteObjectSummary, OriginFileState, OriginFreshnessIndex, state_of, insert_files,
  build_origin_index,
}

module _ {Time : Type 0} where
  -- An entry stands under its own path, which is a key, with the time of the capture.
  unfoldable pub IsEntry : Time → Text × OriginFileState Time → Type 0
  IsEntry captured_at (path, file) =
      (file.path ≡ path) × (file.captured_at ≡ captured_at) × IsKey path

  abbrev pub Indexes : Time → TextMap (OriginFileState Time) → Type 0
  Indexes captured_at files = NodupKeys files × All (IsEntry captured_at) files

  insert_files-Indexes :
      (captured_at : Time) (files : TextMap (OriginFileState Time))
      (summaries : List RemoteObjectSummary)
      → Indexes captured_at files
      → IfOk (Indexes captured_at) (insert_files captured_at files summaries)
  unfolding insert_files IsEntry
  insert_files-Indexes captured_at files [] h = h
  insert_files-Indexes captured_at files (summary ∷ summaries) (u, h) =
      elim (Result-cases (normalize_remote_key summary.key)) [
        | inl (path, e) ↦
            let (same, key) = normalize_remote_key-IsKey summary.key path e in
            let file = state_of captured_at summary path in
            rw (e, insert_files)
              (insert_files-Indexes captured_at (insert path file files) summaries (
                NodupKeys-insert path file files u,
                All-insert (IsEntry captured_at) path file files (refl, refl, key) h,
              ))
        | inr (error, e) ↦ rw (e, insert_files) tt
      ]

  -- If a listing is accepted, then the index is of the origin, no path stands in it twice, and each
  -- file stands under its own path, which is a key, with the time of the capture.
  pub build_origin_index-Indexes :
      (origin_id : Text) (summaries : List RemoteObjectSummary) (captured_at : Time)
      (index : OriginFreshnessIndex Time)
      → build_origin_index origin_id summaries captured_at ≡ ok index
      → (index.origin_id ≡ origin_id)
        × (index.captured_at ≡ captured_at)
        × NodupKeys index.files
        × All (IsEntry captured_at) index.files
  unfolding build_origin_index
  build_origin_index-Indexes origin_id summaries captured_at index h =
      let (files, e, same) = >>=-eq-ok (insert_files captured_at [] summaries) _ h in
      let (u, entries) =
        IfOk-eq (Indexes captured_at) (insert_files-Indexes captured_at [] summaries (tt, tt)) e in
      subst
        (λ r.
          IfOk
            (λ index.
              (index.origin_id ≡ origin_id)
              × (index.captured_at ≡ captured_at)
              × NodupKeys index.files
              × All (IsEntry captured_at) index.files)
            r)
        same (refl, refl, u, entries)
