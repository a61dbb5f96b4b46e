-- ===== src/Storage.antt =====
-- internal/storage: the interface storage.Chest, over the state that the operations act on.
pub mod Laws
pub mod Rooted
pub mod Filesystem
pub mod Encrypted
pub mod Memory
use achgateway.Base.{
  Text, Result, txt, Bool, Option, none, some, List, Error, ◌≡◌, text_eq, if◌then◌else◌,
}

-- fs.DirEntry
pub record DirEntry : Type 0 where
  pub name : Text
  pub is_dir : Bool

-- A file that is opened comes with its contents; a glob gives the relative paths.
pub record Chest (S : Type 0) : Type 0 where
  pub open_file : Text → S → Result Text
  pub glob : Text → S → Result (List Text)
  pub read_dir : Text → S → Result (List DirEntry)
  pub replace_file : Text → Text → S → Option Error × S
  pub replace_dir : Text → Text → S → Option Error × S
  pub mkdir_all : Text → S → Option Error × S
  pub rmdir_all : Text → S → Option Error × S
  pub write_file : Text → Text → S → Option Error × S
