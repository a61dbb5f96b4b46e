-- ===== src/Shards/Sql/Tests.antt =====
-- A mapping that the database does not insert, in a database that counts its rows.
use achgateway.Base.{ℕ, ◌+◌, txt, Error, ok, Option, none, [], ◌≡◌, ◌⊎◌, refl}
use achgateway.Shards.{ShardMapping}
use achgateway.Shards.Sql.{Db, wrap, finish_add, add}
use achgateway.Shards.Sql.Laws.{IsCommitted, IsDropped, add-cases}

abbrev inserts_nothing : Db ℕ
inserts_nothing = record {
  query_names = λ key s. ok (record { scans = []; failed = none });
  query_mappings = λ s. ok (record { scans = []; failed = none });
  begin_tx = λ s. (none, s);
  insert_mapping = λ m s. (ok (ok 0), s);
  commit = λ s. (none, s);
  rollback = λ s. s;
}

abbrev mapping : ShardMapping
mapping = record { shard_key = txt "key"; shard_name = txt "shard" }

abbrev counts : ℕ → Option Error × ℕ
counts s = (none, s + 1)

add-cases_example :
    (v : ℕ) × (3 ≡ v)
    × (IsCommitted inserts_nothing counts (ok (ok 0)) 3 v
        ⊎ IsDropped inserts_nothing (ok (ok 0)) 3 v)
unfolding add finish_add wrap
add-cases_example = add-cases inserts_nothing mapping counts 3 {t = 3} refl
