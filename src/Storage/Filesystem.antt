-- ===== src/Storage/Filesystem.antt =====
-- internal/storage/filesystem.go: a storage on the local disk, below a root directory.
pub mod Laws
mod Writes
pub mod Moves
pub mod Globs
pub mod Lawful
pub mod Simulated
mod Tests
use achgateway.Base.{
  Text, txt, join, split, text_contains, has_prefix, trim_prefix, is, not_exist, Error, Result, ok,
  err, new_error, errorf_w, Bool, true, false, ◌||◌, Option, none, some, List, [], ◌∷◌, ◌++◌, map,
  if◌then◌else◌,
}
use achgateway.Storage.{Chest, DirEntry}

-- The calls of packages os and filepath. `open_read` is os.Open with what can be read from the file,
-- `read_dir` the ReadDir of os.DirFS of a directory, and `readdirnames` gives, for a directory that
-- can be opened, what the calls of Readdirnames(512) give, one after the other.
pub record Os (S : Type 0) : Type 0 where
  pub abs : Text → Result Text
  pub open_read : Text → S → Result Text
  pub read_dir : Text → Text → S → Result (List DirEntry)
  pub readdirnames : Text → S → Result (List (List Text × Option Error))
  pub match : Text → Text → Result Bool
  pub stat : Text → S → Option Error
  pub mkdir_all : Text → S → Option Error × S
  pub remove_all : Text → S → Option Error × S
  pub rename : Text → Text → S → Option Error × S
  pub open_trunc : Text → S → Option Error × S
  pub write : Text → Text → S → Option Error × S
  pub sync : Text → S → Option Error × S
  pub close : Text → S → Option Error × S

module _ {S : Type 0} (os : Os S) where
  unfoldable pub write_and_sync : Text → Text → S → Option Error × S
  write_and_sync where_ contents s =
      let (unwritten, t) = os.write where_ contents s in
      let (unsynced, u) = os.sync where_ t in
      elim unwritten [
        | some e ↦ (some (errorf_w (txt "writing " ++ where_ ++ txt " failed: ") e), t)
        | none ↦ (unsynced, u)
      ]

  -- The file is closed at the end, and what that gives is not looked at.
  unfoldable pub write : Text → Text → S → Option Error × S
  unfolding write_and_sync
  write where_ contents s =
      let (failed, t) = os.open_trunc where_ s in
      let (unwritten, u) = write_and_sync where_ contents t in
      elim failed [
        | some e ↦ (some (errorf_w (txt "creating " ++ where_ ++ txt " failed: ") e), t)
        | none ↦ (unwritten, (os.close where_ u).1)
      ]

  -- Where no more names come, an error beside them is not looked at.
  unfoldable pub all_names : List (List Text × Option Error) → Result (List Text)
  all_names [] = ok []
  all_names (([], failed) ∷ chunks) = ok []
  all_names ((n ∷ names, some e) ∷ chunks) = err e
  all_names ((n ∷ names, none) ∷ chunks) = elim (all_names chunks) [
    | err e ↦ err e
    | ok more ↦ ok ((n ∷ names) ++ more)
  ]

  unfoldable pub matches : Text → List Text → Result (List Text)
  matches suffix [] = ok []
  matches suffix (name ∷ names) =
      let rest = matches suffix names in
      elim (os.match suffix name) [
        | err e ↦ err (errorf_w (txt "using " ++ suffix ++ txt " as pattern failed: ") e)
        | ok found ↦ elim rest [
          | err e ↦ err e
          | ok more ↦ ok (if found then name ∷ more else more)
        ]
      ]

  unfoldable pub existing : List Text → S → List Text
  existing [] s = []
  existing (path ∷ paths) s =
      let rest = existing paths s in elim (os.stat path s) [ none ↦ path ∷ rest | some e ↦ rest ]

  unfoldable pub is_missing : Text → S → Bool
  unfolding is
  is_missing path s = elim (os.stat path s) [ none ↦ false | some e ↦ is e not_exist ]

  -- ReplaceFile, ReplaceDir and WriteFile behind the paths that they join.
  unfoldable pub move_file : Text → Text → S → Option Error × S
  unfolding split
  move_file old new s =
      let (failed, t) = os.mkdir_all (split new).0 s in
      elim failed [
        | some e ↦ (some e, t)
        | none ↦ if is_missing old t then write new [] t else os.rename old new t
      ]

  unfoldable pub move_dir : Text → Text → S → Option Error × S
  move_dir old new s = if is_missing old s then os.mkdir_all new s else os.rename old new s

  unfoldable pub write_in : Text → Text → Text → S → Option Error × S
  write_in dir path contents s =
      let (failed, t) = os.mkdir_all dir s in
      let (unwritten, u) = write path contents t in
      elim failed [ some e ↦ (some e, t) | none ↦ (unwritten, u) ]

  module _ (root : Text) where
    unfoldable pub open_file : Text → S → Result Text
    unfolding text_contains has_prefix join
    open_file path s =
        if text_contains path (txt "..") || has_prefix path (txt "/")
        then err (new_error (txt "invalid path"))
        else os.open_read (join (root ∷ path ∷ [])) s

    unfoldable pub relative : List Text → List Text
    unfolding trim_prefix
    relative paths = map (λ p. trim_prefix p (root ++ txt "/")) paths

    unfoldable pub list_matches :
        Text → Text → List (List Text × Option Error) → S → Result (List Text)
    unfolding join
    list_matches subdir suffix chunks s = elim (all_names chunks) [
      | err e ↦ err (
          errorf_w (txt "listing filesnames from " ++ join (root ∷ subdir ∷ []) ++ txt " failed: ")
            e)
      | ok names ↦ elim (matches suffix names) [
        | err e ↦ err e
        | ok found ↦ ok (relative (existing (map (λ n. join (root ∷ subdir ∷ n ∷ [])) found) s))
      ]
    ]

    unfoldable pub glob : Text → S → Result (List Text)
    unfolding split join
    glob pattern s =
        let (subdir, suffix) = split pattern in
        elim (os.readdirnames (join (root ∷ subdir ∷ [])) s) [
          | err e ↦
              err (errorf_w (txt "opening " ++ join (root ∷ subdir ∷ []) ++ txt " failed: ") e)
          | ok chunks ↦ list_matches subdir suffix chunks s
        ]

    unfoldable pub replace_file : Text → Text → S → Option Error × S
    unfolding join
    replace_file oldpath newpath s =
        move_file (join (root ∷ oldpath ∷ [])) (join (root ∷ newpath ∷ [])) s

    unfoldable pub replace_dir : Text → Text → S → Option Error × S
    unfolding join
    replace_dir oldpath newpath s =
        move_dir (join (root ∷ oldpath ∷ [])) (join (root ∷ newpath ∷ [])) s

    unfoldable pub write_file : Text → Text → S → Option Error × S
    unfolding split join
    write_file path contents s =
        let (subdir, name) = split path in
        let dir = join (root ∷ subdir ∷ []) in write_in dir (join (dir ∷ name ∷ [])) contents s

    unfoldable pub filesystem : Chest S
    unfolding join open_file glob replace_file replace_dir write_file
    filesystem = record {
      open_file = open_file;
      glob = glob;
      read_dir = λ name s. os.read_dir root name s;
      replace_file = replace_file;
      replace_dir = replace_dir;
      mkdir_all = λ path s. os.mkdir_all (join (root ∷ path ∷ [])) s;
      rmdir_all = λ path s. os.remove_all (join (root ∷ path ∷ [])) s;
      write_file = write_file;
    }

  unfoldable pub new_filesystem : Text → S → Result (Chest S) × S
  unfolding filesystem
  new_filesystem root s = elim (os.abs root) [
    | err e ↦ (err e, s)
    | ok fullpath ↦
        let (failed, t) = os.mkdir_all fullpath s in
        (elim failed [ some e ↦ err e | none ↦ ok (filesystem fullpath) ], t)
  ]
