-- ===== src/Merging/Canceled.antt =====
-- internal/pipeline/merging.go: canceled files at the cutoff.
use mathlib.Core.Path.{subst}
use achgateway.Base.{
  Text, txt, trim_suffix, trim_suffix-append, join, join_slashes, join-plain, split, split-append,
  contains, contains-map, IsPlain, NoSlash, All, Result, ok, err, true, false, none, some, List, [],
  ◌∷◌, ◌++◌, map, ◌≡◌, refl, sym, ap, ◌∙◌, arith,
}
use achgateway.Storage.{Chest}
use achgateway.Storage.Laws.{IsPath, FileView, IsChest, inside}
use achgateway.Ach.{AchLib, skip_file}
use achgateway.Incoming.{AchFile, CancelAchFile, FileCancellationResponse}
use achgateway.Merging.{
  pending_path, handle_cancel, handle_xfer, isolate_mergable_dir, get_canceled_files, canceled_name,
}
use achgateway.Merging.Accept.{file_acceptor}
use achgateway.Merging.Cancel.{
  pending_dir, pending_name, pending_name-IsPlain, canceled_name-IsPlain, canceled_path-inside,
  IsCanceled, handle_cancel_effect, handle_cancel-IsCanceled, handle_xfer-IsCanceled,
  mergable-IsPlain,
}

-- What reaches the merging of a shard before its cutoff.
pub data Message (F : Type 0) : Type 0 where
  submit : AchFile F → Message F
  cancel : CancelAchFile → Message F

-- The ID of the message's file has no slash.
abbrev pub IsNamed : {F : Type 0} → Message F → Type 0
IsNamed (submit xfer) = NoSlash (trim_suffix xfer.file_id (txt ".ach"))
IsNamed (cancel c) = NoSlash (trim_suffix c.file_id (txt ".ach"))

canceled_name-inside :
    (dir name : Text)
    → NoSlash (name ++ txt ".canceled")
    → canceled_name (inside dir (name ++ txt ".canceled")) ≡ name
canceled_name-inside dir name h =
    ap (λ r. trim_suffix r.1 (txt ".canceled")) (split-append dir (name ++ txt ".canceled") h)
    ∙ trim_suffix-append name (txt ".canceled")

pub file_acceptor_skips :
    (names : List Text) (path : Text)
    → contains names (split path).1 ≡ true
    → file_acceptor names path ≡ skip_file
unfolding file_acceptor
file_acceptor_skips names path h = ground arith

module _ {S : Type 0} (chest : Chest S) (view : FileView S) (L : IsChest chest view) (shard : Text)
    (ps : IsPlain shard) where
  module _ (lib : AchLib) where
    -- The state after a message; an error is reported to the sender and changes nothing here.
    unfoldable pub handle : Message lib.File → S → S
    handle (submit xfer) s = (handle_xfer chest shard lib xfer s).1
    handle (cancel c) s = (handle_cancel chest shard c s).1

    unfoldable pub handle_all : List (Message lib.File) → S → S
    unfolding handle
    handle_all [] s = s
    handle_all (m ∷ ms) s = handle_all ms (handle m s)

    module _ (file_id : Text) (named : NoSlash (trim_suffix file_id (txt ".ach"))) where
      handle-IsCanceled :
          (m : Message lib.File) (s : S)
          → IsNamed m
          → IsCanceled chest view L shard ps file_id s
          → IsCanceled chest view L shard ps file_id (handle m s)
      unfolding handle
      handle-IsCanceled (submit xfer) s plain h =
          handle_xfer-IsCanceled chest view L shard ps file_id named lib xfer plain s h
      handle-IsCanceled (cancel c) s plain h =
          handle_cancel-IsCanceled chest view L shard ps file_id named c s plain h

      handle_all-IsCanceled :
          (ms : List (Message lib.File)) (s : S)
          → All IsNamed ms
          → IsCanceled chest view L shard ps file_id s
          → IsCanceled chest view L shard ps file_id (handle_all ms s)
      unfolding handle_all
      handle_all-IsCanceled [] s plain h = h
      handle_all-IsCanceled (m ∷ ms) s plain h =
          handle_all-IsCanceled ms (handle m s) plain.1 (handle-IsCanceled m s plain.0 h)

  module _ (file_id : Text) (named : NoSlash (trim_suffix file_id (txt ".ach"))) where
    -- The directory that a cutoff isolates holds the canceled file.
    isolated :
        (now dir : Text) (s : S) {t : S}
        → IsPlain (shard ++ txt "-" ++ now)
        → isolate_mergable_dir chest shard now s ≡ ((dir, none), t)
        → IsCanceled chest view L shard ps file_id s
        → (c : Text) × IsPath dir
          × (view.holds t (inside dir (pending_name file_id ++ txt ".canceled")) ≡ some c)
    unfolding isolate_mergable_dir
    isolated now dir s {t} plain h (c, held) = (
      c,
      subst IsPath newdir newdir-IsPath,
      subst (λ d. view.holds t (inside d (pending_name file_id ++ txt ".canceled")) ≡ some c) newdir
          (L.replace_dir-moves (join (txt "mergable" ∷ shard ∷ [])) _ _ c s olddir-IsPath
            newdir-IsPath (canceled_name-IsPlain chest view L shard ps file_id named)
            (λ i. ((h i).0.1, (h i).1)) held_inside),
    )
      where
        newdir : join ((shard ++ txt "-" ++ now) ∷ []) ≡ dir
        newdir = ap (λ x. x.0.0) h

        newdir-IsPath : IsPath (join ((shard ++ txt "-" ++ now) ∷ []))
        newdir-IsPath = (
          shard ++ txt "-" ++ now,
          [],
          (plain, tt),
          join-plain (shard ++ txt "-" ++ now) [] (plain, tt),
        )

        olddir : join (txt "mergable" ∷ shard ∷ []) ≡ pending_dir shard
        olddir =
            unfold join_slashes in
            join-plain (txt "mergable") (shard ∷ []) (mergable-IsPlain, (ps, tt))

        olddir-IsPath : IsPath (join (txt "mergable" ∷ shard ∷ []))
        olddir-IsPath = (
          txt "mergable",
          shard ∷ [],
          (mergable-IsPlain, (ps, tt)),
          join-plain (txt "mergable") (shard ∷ []) (mergable-IsPlain, (ps, tt)),
        )

        held_inside :
            view.holds s (
              inside (join (txt "mergable" ∷ shard ∷ [])) (pending_name file_id ++ txt ".canceled"))
            ≡ some c
        held_inside =
            ap (λ d. view.holds s (inside d (pending_name file_id ++ txt ".canceled"))) olddir
            ∙ ap (view.holds s) (sym (canceled_path-inside chest view L shard ps file_id named))
            ∙ held

    listed :
        (dir c : Text) (t : S) {names : List Text}
        → IsPath dir
        → get_canceled_files chest shard dir t ≡ ok names
        → view.holds t (inside dir (pending_name file_id ++ txt ".canceled")) ≡ some c
        → contains names (pending_name file_id) ≡ true
    unfolding get_canceled_files
    listed dir c t {names} path h held = go (chest.glob (dir ++ txt "/*.canceled") t) refl
      where
        plain : NoSlash (pending_name file_id ++ txt ".canceled")
        plain = (canceled_name-IsPlain chest view L shard ps file_id named).no_slash

        go :
            (r : Result (List Text))
            → chest.glob (dir ++ txt "/*.canceled") t ≡ r
            → contains names (pending_name file_id) ≡ true
        go (ok matches) e =
            let found =
              L.glob-finds dir (pending_name file_id) c t path
                (pending_name-IsPlain chest view L shard ps file_id named).no_slash e held in
            subst (λ r. contains r (pending_name file_id) ≡ true) (ground arith)
              (subst (λ n. contains (map canceled_name matches) n ≡ true)
                (canceled_name-inside dir (pending_name file_id) plain)
                (contains-map canceled_name matches _ found))
        go (err e') e = absurd (ground arith)

    -- Over a storage that keeps its laws, and with file IDs and a shard whose names are plain:
    -- after a cancellation that returns no error, with no directory at the path of the pending
    -- file, and any submissions and cancellations that follow it, the merge of the next cutoff that
    -- isolates and lists its directory with no error skips every path with the name of the canceled
    -- file.
    pub canceled_is_skipped :
        (lib : AchLib) (later : List (Message lib.File)) (now dir path shard_key : Text) (s : S)
        {t u : S} {out : FileCancellationResponse} {names : List Text}
        → view.is_dir s (pending_path shard file_id (txt ".ach")) ≡ false
        → handle_cancel chest shard (record { file_id = file_id; shard_key = shard_key }) s
          ≡ ((out, none), t)
        → All IsNamed later
        → IsPlain (shard ++ txt "-" ++ now)
        → isolate_mergable_dir chest shard now (handle_all lib later t) ≡ ((dir, none), u)
        → get_canceled_files chest shard dir u ≡ ok names
        → (split path).1 ≡ pending_name file_id
        → file_acceptor names path ≡ skip_file
    canceled_is_skipped lib later now dir path shard_key s {t} {u} file done named_later plain moved
          found at =
        let canceled = handle_cancel_effect chest view L shard ps _ s named file done in
        let kept = handle_all-IsCanceled lib file_id named later t named_later (_, canceled.0) in
        let (c, is_path, held) = isolated now dir (handle_all lib later t) plain moved kept in
        file_acceptor_skips _ path (rw at (listed dir c u is_path found held))
