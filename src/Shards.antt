-- ===== src/Shards.antt =====
-- internal/shards/inmemory_repository.go: the mapping of shard keys to shard names.
pub mod Sql
use achgateway.Base.{
  Text, txt, text_eq, Error, no_rows, Option, none, some, List, [], ◌∷◌, ◌++◌, if◌then◌else◌,
}

-- service.ShardMapping
pub record ShardMapping : Type 0 where
  pub shard_key : Text
  pub shard_name : Text

abbrev unknown_key : Text → Error
unknown_key key = record {
  message = txt "unknown shardKey " ++ (key ++ txt ": sql: no rows in result set");
  wraps = no_rows ∷ [];
}

unfoldable pub lookup : Text → List ShardMapping → Text × Option Error
unfolding text_eq
lookup key [] = ([], some (unknown_key key))
lookup key (m ∷ ms) = if text_eq m.shard_key key then (m.shard_name, none) else lookup key ms

unfoldable pub add : ShardMapping → List ShardMapping → Option Error × List ShardMapping
add m ms = (none, ms ++ (m ∷ []))
