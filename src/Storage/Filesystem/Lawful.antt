-- ===== src/Storage/Filesystem/Lawful.antt =====
-- The storage on disk of internal/storage/filesystem.go keeps the laws of a storage.
use achgateway.Base.{Text, IsRoot}
use achgateway.Storage.Laws.{FileView, inside}
use achgateway.Storage.Filesystem.{Os}
use achgateway.Storage.Filesystem.Laws.{IsOs, EndsAtEof}

module _ {S : Type 0} (os : Os S) (view : FileView S) (laws : IsOs os view) (ends : EndsAtEof os)
    (root : Text) (rooted : IsRoot root) where
  open view use {holds, is_dir}

  abbrev at : Text → Text
  at p = inside root p
