-- ===== src/Merging/Cancel.antt =====
-- What a cancellation does to the pending files, over any lawful storage.
use achgateway.Base.{
  Bool-cases, text_eq, text_eq_iff, inl, inr, is_some, ℕ, Text, txt, trim_suffix, join_slashes,
  IsPlain, NoSlash, IsPlain-append, IsPlain-check, looks_plain, join-plain, last_byte,
  last_byte-append, false, Option, none, some, [], ◌∷◌, ◌++◌, ◌≡◌, ◌≢◌, refl, sym, ap, ◌∙◌, arith,
  length, length-append, append_assoc, ◌<◌,
}
use achgateway.Storage.{Chest}
use achgateway.Storage.Laws.{IsPath, FileView, IsChest, inside, contents_or_empty}
use achgateway.Ach.{AchLib}
use achgateway.Incoming.{AchFile, CancelAchFile, FileCancellationResponse}
use achgateway.Merging.{
  pending_path, canceled_path, handle_cancel, handle_xfer, file_was_found, write_validation,
  write_ach_file,
}
use mathlib.Core.Path.{subst}
use mathlib.Core.Bool.{false≢true}

-- The directory of the shard's pending files.
abbrev pub pending_dir : Text → Text
pending_dir shard = inside (txt "mergable") shard

-- "<fileID>.ach", the name of a pending file.
abbrev pub pending_name : Text → Text
pending_name file_id = trim_suffix file_id (txt ".ach") ++ txt ".ach"

pub mergable-IsPlain : IsPlain (txt "mergable")
unfolding looks_plain
mergable-IsPlain = IsPlain-check (txt "mergable") refl

module _ (shard : Text) (ps : IsPlain shard) where
  pending_path-inside :
      (file_id extension : Text)
      → IsPlain (trim_suffix file_id (txt ".ach") ++ extension)
      → pending_path shard file_id extension
        ≡ inside (pending_dir shard) (trim_suffix file_id (txt ".ach") ++ extension)
  unfolding join_slashes pending_path
  pending_path-inside file_id extension h =
      join-plain (txt "mergable") (shard ∷ (trim_suffix file_id (txt ".ach") ++ extension) ∷ [])
        (mergable-IsPlain, (ps, (h, tt)))

  inside-IsPath : (name : Text) → IsPlain name → IsPath (inside (pending_dir shard) name)
  unfolding join_slashes
  inside-IsPath name h =
      (txt "mergable", shard ∷ name ∷ [], (mergable-IsPlain, (ps, (h, tt))), refl)

  pending_dir-IsPath : IsPath (pending_dir shard)
  unfolding join_slashes
  pending_dir-IsPath = (txt "mergable", shard ∷ [], (mergable-IsPlain, (ps, tt)), refl)

  -- Paths of the shard that end differently are different.
  inside-ne :
      (s t : Text) (c d : ℕ) (x y : Text)
      → last_byte c x ≢ last_byte d y
      → inside (pending_dir shard) (s ++ (c ∷ x)) ≢ inside (pending_dir shard) (t ++ (d ∷ y))
  inside-ne s t c d x y h e =
      h (sym (last_byte-inside s c x) ∙ ap (last_byte 0) e ∙ last_byte-inside t d y)
    where
      last_byte-inside :
          (s : Text) (c : ℕ) (x : Text)
          → last_byte 0 (inside (pending_dir shard) (s ++ (c ∷ x))) ≡ last_byte c x
      last_byte-inside s c x =
          last_byte-append 0 (pending_dir shard) b'/' (s ++ (c ∷ x)) ∙ last_byte-append b'/' s c x

module _ {S : Type 0} (chest : Chest S) (view : FileView S) (L : IsChest chest view) (shard : Text)
    (ps : IsPlain shard) where
  open view use {holds, is_dir}

  abbrev pub ach_path : Text → Text
  ach_path file_id = pending_path shard file_id (txt ".ach")

  module _ (file_id : Text) (named : NoSlash (trim_suffix file_id (txt ".ach"))) where
    pub extension-IsPlain :
        (extension : Text)
        → NoSlash extension
        → 2 < length extension
        → IsPlain (trim_suffix file_id (txt ".ach") ++ extension)
    extension-IsPlain extension h long = IsPlain-append _ extension named h long

    pub pending_name-IsPlain : IsPlain (pending_name file_id)
    pending_name-IsPlain =
        extension-IsPlain (txt ".ach") (refl, (refl, (refl, (refl, tt)))) (omega arith)

    pub canceled_name-IsPlain : IsPlain (pending_name file_id ++ txt ".canceled")
    canceled_name-IsPlain =
        IsPlain-append _ (txt ".canceled") pending_name-IsPlain.no_slash
          (refl, (refl, (refl, (refl, (refl, (refl, (refl, (refl, (refl, tt))))))))) (omega arith)

    pub canceled_path-inside :
        canceled_path (ach_path file_id)
        ≡ inside (pending_dir shard) (pending_name file_id ++ txt ".canceled")
    canceled_path-inside =
        rw (pending_path-inside shard ps file_id (txt ".ach") pending_name-IsPlain)
          (append_assoc (pending_dir shard) (b'/' ∷ pending_name file_id) (txt ".canceled"))

    canceled_path-IsPath : IsPath (canceled_path (ach_path file_id))
    canceled_path-IsPath = rw canceled_path-inside (inside-IsPath shard ps _ canceled_name-IsPlain)

  pending_path-IsPath :
      (id extension : Text)
      → IsPlain (trim_suffix id (txt ".ach") ++ extension)
      → IsPath (pending_path shard id extension)
  pending_path-IsPath id extension plain =
      rw (pending_path-inside shard ps id extension plain) (inside-IsPath shard ps _ plain)

  path-ne-canceled_path : (p : Text) → p ≢ canceled_path p
  path-ne-canceled_path p e = omega (arith, ap length e, length-append p (txt ".canceled"))

  -- Over a storage that keeps its laws, with a plain shard name, a file ID without a slash and no
  -- directory at the path of the pending file: a cancellation that returns no error moves the
  -- pending file, or an empty one if there was none, to its name with ".canceled", leaves nothing
  -- at the old name, and says that it was successful exactly if the file or its canceled version
  -- could be opened before.
  pub handle_cancel_effect :
      (cancel : CancelAchFile) (s : S) {t : S} {out : FileCancellationResponse}
      → NoSlash (trim_suffix cancel.file_id (txt ".ach"))
      → is_dir s (pending_path shard cancel.file_id (txt ".ach")) ≡ false
      → handle_cancel chest shard cancel s ≡ ((out, none), t)
      → let path = pending_path shard cancel.file_id (txt ".ach") in
        (holds t (canceled_path path) ≡ some (contents_or_empty (holds s path)))
        × (holds t path ≡ none)
        × (out.successful ≡ file_was_found chest shard path s)
  unfolding handle_cancel
  handle_cancel_effect cancel s {t} {out} named file h =
      (moved.0, moved.1, ground (arith, ap (λ x. x.0.0.successful) h, ap (λ x. x.0.1) h))
    where
      path : Text
      path = ach_path cancel.file_id

      moved :
          (holds t (canceled_path path) ≡ some (contents_or_empty (holds s path)))
          × (holds t path ≡ none)
      moved =
          L.replace_file-self path (canceled_path path) s
            (pending_path-IsPath cancel.file_id (txt ".ach")
              (pending_name-IsPlain cancel.file_id named))
            (canceled_path-IsPath cancel.file_id named) (path-ne-canceled_path path) file
            (λ i. ((h i).0.1, (h i).1))

  abbrev pub IsCanceled : Text → S → Type 0
  IsCanceled file_id s = (c : Text) × (holds s (canceled_path (ach_path file_id)) ≡ some c)

  module _ (file_id : Text) (named : NoSlash (trim_suffix file_id (txt ".ach"))) where
    canceled : Text
    canceled = canceled_path (ach_path file_id)

    -- A path of the shard with another end is not that of the canceled file.
    other_end :
        (id : Text) (c : ℕ) (x : Text)
        → IsPlain (trim_suffix id (txt ".ach") ++ (c ∷ x))
        → last_byte c x ≢ b'd'
        → pending_path shard id (c ∷ x) ≢ canceled
    unfolding canceled
    other_end id c x plain h e =
        inside-ne shard ps (trim_suffix id (txt ".ach")) (pending_name file_id) c b'.' x
          (txt "canceled") h
          (sym (pending_path-inside shard ps id (c ∷ x) plain)
            ∙ e
            ∙ canceled_path-inside file_id named)

    write-keeps :
        (id extension contents : Text) (s : S)
        → IsPlain (trim_suffix id (txt ".ach") ++ extension)
        → pending_path shard id extension ≢ canceled
        → IsCanceled file_id s
        → IsCanceled file_id (chest.write_file (pending_path shard id extension) contents s).1
    unfolding canceled
    write-keeps id extension contents s plain ne (c, h) = (
      c,
      L.write_file-frame _ contents canceled s (pending_path-IsPath id extension plain)
            (canceled_path-IsPath file_id named) ne
          ∙ h,
    )

    -- Another cancellation, of this file or another one, keeps it canceled.
    pub handle_cancel-IsCanceled :
        (cancel : CancelAchFile) (s : S)
        → NoSlash (trim_suffix cancel.file_id (txt ".ach"))
        → IsCanceled file_id s
        → IsCanceled file_id (handle_cancel chest shard cancel s).1
    unfolding canceled handle_cancel
    handle_cancel-IsCanceled cancel s plain (c, h) =
        elim (Bool-cases (text_eq (canceled_path (ach_path cancel.file_id)) canceled)) [
          | inl same ↦
              subst (λ r. (c' : Text) × (holds (handle_cancel chest shard cancel s).1 r ≡ some c'))
                ((text_eq_iff _ _).0 same)
                (L.replace_file-keeps _ _ c s old_path new_path
                  (subst (λ r. holds s r ≡ some c) (sym ((text_eq_iff _ _).0 same)) h))
          | inr other ↦ (c, stays (λ e. false≢true (sym other ∙ (text_eq_iff _ _).1 e)) ∙ h)
        ]
      where
        old_path : IsPath (ach_path cancel.file_id)
        old_path =
            pending_path-IsPath cancel.file_id (txt ".ach")
              (pending_name-IsPlain cancel.file_id plain)

        new_path : IsPath (canceled_path (ach_path cancel.file_id))
        new_path = canceled_path-IsPath cancel.file_id plain

        other_name : pending_name cancel.file_id ≢ pending_name file_id ++ txt ".canceled"
        other_name e =
            other_end cancel.file_id b'.' (txt "ach") (pending_name-IsPlain cancel.file_id plain)
              (omega arith)
              (pending_path-inside shard ps cancel.file_id (txt ".ach")
                  (pending_name-IsPlain cancel.file_id plain)
                ∙ ap (inside (pending_dir shard)) e
                ∙ sym (canceled_path-inside file_id named))

        stays :
            canceled_path (ach_path cancel.file_id) ≢ canceled
            → holds (handle_cancel chest shard cancel s).1 canceled ≡ holds s canceled
        stays ne =
            let old : ach_path cancel.file_id
                ≡ inside (pending_dir shard) (pending_name cancel.file_id) =
              pending_path-inside shard ps cancel.file_id (txt ".ach")
                (pending_name-IsPlain cancel.file_id plain) in
            let new = canceled_path-inside cancel.file_id plain in
            let held = canceled_path-inside file_id named in
            (λ i. holds (chest.replace_file (old i) (new i) s).1 (held i))
            ∙ L.replace_file-frame (pending_dir shard) (pending_name cancel.file_id) _ _ s
                (pending_dir-IsPath shard ps) (pending_name-IsPlain cancel.file_id plain)
                (canceled_name-IsPlain cancel.file_id plain) (canceled_name-IsPlain file_id named)
                other_name (λ e. ne (new ∙ ap (inside (pending_dir shard)) e ∙ sym held))
            ∙ (λ i. holds s (sym held i))

    module _ (lib : AchLib) (xfer : AchFile lib.File)
        (plain : NoSlash (trim_suffix xfer.file_id (txt ".ach"))) where
      write_ach-IsCanceled :
          (contents : Text) (s : S)
          → IsCanceled file_id s
          → IsCanceled file_id (chest.write_file (ach_path xfer.file_id) contents s).1
      write_ach-IsCanceled contents s h =
          write-keeps xfer.file_id (txt ".ach") contents s (pending_name-IsPlain xfer.file_id plain)
            (other_end xfer.file_id b'.' (txt "ach") (pending_name-IsPlain xfer.file_id plain)
              (omega arith))
            h

      write_validation-IsCanceled :
          (opts : Option lib.ValidateOpts) (s : S)
          → IsCanceled file_id s
          → IsCanceled file_id (write_validation chest shard lib xfer.file_id opts s)
      unfolding write_validation
      write_validation-IsCanceled none s h = h
      write_validation-IsCanceled (some opts) s h =
          write-keeps xfer.file_id (txt ".json") (lib.encode_opts opts).0 s json
            (other_end xfer.file_id b'.' (txt "json") json (omega arith)) h
        where
          json : IsPlain (trim_suffix xfer.file_id (txt ".ach") ++ txt ".json")
          json =
              extension-IsPlain xfer.file_id plain (txt ".json")
                (refl, (refl, (refl, (refl, (refl, tt))))) (omega arith)

      write_ach_file-IsCanceled :
          (s : S)
          → IsCanceled file_id s
          → IsCanceled file_id (write_ach_file chest shard lib xfer s).1
      unfolding write_ach_file
      write_ach_file-IsCanceled s h = elim (Bool-cases (is_some (lib.write xfer.file).1)) [
        | inl bad ↦ rw bad h
        | inr good ↦
            rw good
              (elim (Bool-cases
                (is_some (chest.write_file (ach_path xfer.file_id) (lib.write xfer.file).0 s).0)) [
                  | inl failed ↦ rw failed (write_ach-IsCanceled (lib.write xfer.file).0 s h)
                  | inr written ↦ rw written (
                      write_validation-IsCanceled (lib.get_validation xfer.file) _
                        (write_ach-IsCanceled (lib.write xfer.file).0 s h))
                ])
      ]

      -- A submission, of this file or another one, keeps it canceled.
      pub handle_xfer-IsCanceled :
          (s : S) → IsCanceled file_id s → IsCanceled file_id (handle_xfer chest shard lib xfer s).1
      handle_xfer-IsCanceled s h = rw state (write_ach_file-IsCanceled s h)
        where
          state : (handle_xfer chest shard lib xfer s).1 ≡ (write_ach_file chest shard lib xfer s).1
          state = unfold handle_xfer in ground arith
