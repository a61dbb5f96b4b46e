-- ===== src/Cleanup/Laws.antt =====
-- What a cleanup run may remove, and what its statistics count.
use achgateway.Base.{
  base, ℕ, ◌+◌, ◌≤◌, length, Text, txt, join, ok, err, true, false, List, [], ◌∷◌, ◌≡◌, arith,
  Bool-cases, Result-cases, inl, inr, ◌⊎◌, sym, subst,
}
use achgateway.Storage.{Chest, DirEntry}
use achgateway.Cleanup.{
  CleanupService, CleanupStats, CleanupRun, is_isolated, is_candidate, add_stats, timestamp_of,
  has_file, check_uploaded, should_delete_directory, delete_directory, clean_directory,
  clean_entries, run_cleanup, count_entries, get_stats,
}

module _ {S : Type 0} (chest : Chest S) (cs : CleanupService) where
  -- A directory is only to be deleted if the time in its name, with the retention, is not after
  -- now, and its uploaded directory can be read and holds a file.
  pub should_delete_directory_sound :
      (dir : Text) (now : ℕ) (s : S)
      → should_delete_directory chest cs dir now s ≡ ok true
      → (time : ℕ) × (entries : List DirEntry) × (cs.parse_time (timestamp_of chest cs (base dir))
          ≡ ok time)
        × (time + cs.retention ≤ now)
        × (chest.read_dir (join (dir ∷ txt "uploaded" ∷ [])) s ≡ ok entries)
        × (has_file entries ≡ true)
  unfolding should_delete_directory check_uploaded
  should_delete_directory_sound dir now s h =
      elim (Result-cases (cs.parse_time (timestamp_of chest cs (base dir)))) [
        | inr (e, unparsed) ↦ absurd (ground (arith, h, unparsed))
        | inl (time, parsed) ↦
            elim (Result-cases (chest.read_dir (join (dir ∷ txt "uploaded" ∷ [])) s)) [
              | inr (e, unread) ↦ absurd (ground (arith, h, parsed, unread))
              | inl (entries, listed) ↦ (
                time,
                entries,
                parsed,
                ground (arith, h, parsed),
                listed,
                ground (arith, h, parsed, listed),
              )
            ]
      ]

  -- The state after one directory: without it if it is to be deleted, or as it was.
  clean_directory-cases :
      (dir : Text) (now : ℕ) (r : CleanupRun) (s : S)
      → ((should_delete_directory chest cs dir now s ≡ ok true)
          × ((clean_directory chest cs dir now r s).1 ≡ (chest.rmdir_all dir s).1))
        ⊎ ((clean_directory chest cs dir now r s).1 ≡ s)
  unfolding clean_directory delete_directory
  clean_directory-cases dir now r s =
      elim (Result-cases (should_delete_directory chest cs dir now s)) [
        | inr (e, failed) ↦ inr (ground (arith, failed))
        | inl (due, checked) ↦ elim (Bool-cases due) [
          | inl wanted ↦ inl (ground (arith, checked, wanted), ground (arith, checked, wanted))
          | inr unwanted ↦ inr (ground (arith, checked, unwanted))
        ]
      ]

  clean_entries-candidate :
      (entry : DirEntry) (entries : List DirEntry) (now : ℕ) (r : CleanupRun) (s : S)
      → is_candidate chest cs entry ≡ true
      → let (r', t) = clean_directory chest cs entry.name now r s in
        clean_entries chest cs (entry ∷ entries) now r s ≡ clean_entries chest cs entries now r' t
  unfolding clean_entries
  clean_entries-candidate entry entries now r s h = ground (arith, h)

  clean_entries-other :
      (entry : DirEntry) (entries : List DirEntry) (now : ℕ) (r : CleanupRun) (s : S)
      → is_candidate chest cs entry ≡ false
      → clean_entries chest cs (entry ∷ entries) now r s ≡ clean_entries chest cs entries now r s
  unfolding clean_entries
  clean_entries-other entry entries now r s h = ground (arith, h)

  module _ (P : S → Type 0) (now : ℕ)
      (keeps : (dir : Text) (s : S)
        → is_isolated cs.shard dir ≡ true
        → should_delete_directory chest cs dir now s ≡ ok true
        → P s
        → P (chest.rmdir_all dir s).1) where
    clean_directory-keeps :
        (dir : Text) (r : CleanupRun) (s : S)
        → is_isolated cs.shard dir ≡ true
        → P s
        → P (clean_directory chest cs dir now r s).1
    clean_directory-keeps dir r s named p = elim (clean_directory-cases dir now r s) [
      | inl (due, removed) ↦ subst P (sym removed) (keeps dir s named due p)
      | inr same ↦ subst P (sym same) p
    ]

    clean_entries-keeps :
        (entries : List DirEntry) (r : CleanupRun) (s : S)
        → P s
        → P (clean_entries chest cs entries now r s).1
    clean_entries-keeps [] r s p = unfold clean_entries in p
    clean_entries-keeps (entry ∷ entries) r s p = elim (Bool-cases (is_candidate chest cs entry)) [
      | inl candidate ↦
          let (r', t) = clean_directory chest cs entry.name now r s in
          subst (λ x. P x.1) (sym (clean_entries-candidate entry entries now r s candidate))
            (clean_entries-keeps entries r' t
              (clean_directory-keeps entry.name r s (ground (arith, candidate)) p))
      | inr other ↦
          subst (λ x. P x.1) (sym (clean_entries-other entry entries now r s other))
            (clean_entries-keeps entries r s p)
    ]

    -- A cleanup run removes nothing but directories with the name of an isolated directory of the
    -- shard that are to be deleted in the state it finds them in: what such removals keep, a run
    -- keeps.
    pub run_cleanup-keeps : (s : S) → P s → P (run_cleanup chest cs now s).1
    run_cleanup-keeps s p = elim (Result-cases (chest.read_dir (txt ".") s)) [
      | inl (entries, listed) ↦
          let r : CleanupRun = record { deleted = 0; errors = 0 } in
          let same : (run_cleanup chest cs now s).1 ≡ (clean_entries chest cs entries now r s).1 =
            unfold run_cleanup in ground (arith, listed) in
          subst P (sym same) (clean_entries-keeps entries r s p)
      | inr (e, failed) ↦
          let same : (run_cleanup chest cs now s).1 ≡ s =
            unfold run_cleanup in ground (arith, failed) in
          subst P (sym same) p
    ]

  count_entries-bounds :
      (entries : List DirEntry) (now : ℕ) (stats : CleanupStats) (s : S) {out : CleanupStats}
      → count_entries chest cs entries now stats s ≡ ok out
      → stats.eligible_for_deletion ≤ stats.total_directories
      → (out.eligible_for_deletion ≤ out.total_directories)
        × (out.total_directories ≤ stats.total_directories + length entries)
  unfolding count_entries
  count_entries-bounds [] now stats s h small = ground (arith, h, small)
  count_entries-bounds (entry ∷ entries) now stats s {out} h small =
      let size : ℕ = elim (cs.info_size entry) [ ok n ↦ n | err e ↦ 0 ] in
      ground (
        arith,
        h,
        small,
        count_entries-bounds entries now stats s {out = out},
        count_entries-bounds entries now (add_stats chest cs true size stats) s {out = out},
        count_entries-bounds entries now (add_stats chest cs false size stats) s {out = out},
      )

  -- The statistics count no more directories as eligible for deletion than in all, and no more of
  -- these than the storage lists.
  pub get_stats-bounds :
      (now : ℕ) (s : S) {entries : List DirEntry} {stats : CleanupStats}
      → chest.read_dir (txt ".") s ≡ ok entries
      → get_stats chest cs now s ≡ ok stats
      → (stats.eligible_for_deletion ≤ stats.total_directories)
        × (stats.total_directories ≤ length entries)
  unfolding get_stats
  get_stats-bounds now s {entries} {stats} listed h =
      let start : CleanupStats = record {
        total_directories = 0;
        eligible_for_deletion = 0;
        total_size = 0;
      } in
      let counted : count_entries chest cs entries now start s ≡ ok stats =
        ground (arith, listed, h) in
      let counts = count_entries-bounds entries now start s counted (omega arith) in
      (counts.0, omega (arith, counts.1))
