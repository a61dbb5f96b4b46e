-- ===== src/Shards/Sql/Laws.antt =====
-- When a shard mapping is added with no error, in internal/shards/repository.go.
use achgateway.Base.{
  ℕ, nat_eq, Error, Result, ok, err, Option, none, Option-cases, Bool-cases, ◌≡◌, ◌≢◌, ◌⊎◌, inl,
  inr, refl, arith,
}
use achgateway.Shards.{ShardMapping}
use achgateway.Shards.Sql.{Db, wrap, finish_add, add}

module _ {S : Type 0} (db : Db S) where
  -- What the caller asked for was done in the transaction, and it was committed.
  abbrev pub IsCommitted : (S → Option Error × S) → Result (Result ℕ) → S → S → Type 0
  IsCommitted run res u v =
      (res ≡ ok (ok 1)) × ((run u).0 ≡ none) × (db.commit (run u).1 ≡ (none, v))

  -- The insert did not affect exactly one row, and nothing else was done.
  abbrev pub IsDropped : Result (Result ℕ) → S → S → Type 0
  IsDropped res u v = (n : ℕ) × (res ≡ ok (ok n)) × (n ≢ 1) × (u ≡ v)

  finish_add-cases :
      (run : S → Option Error × S) (res : Result (Result ℕ)) (u : S) {v : S}
      → finish_add db run res u ≡ (none, v)
      → IsCommitted run res u v ⊎ IsDropped res u v
  unfolding finish_add wrap
  finish_add-cases run (err e) u h = absurd (cc h)
  finish_add-cases run (ok (err e)) u h = absurd (cc h)
  finish_add-cases run (ok (ok n)) u {v} h = elim (Bool-cases (nat_eq n 1)) [
    | inl e ↦ elim (Option-cases (run u).0) [
      | inl f ↦ inl (ground (arith, e), f, ground (arith, e, f, h))
      | inr (x, f) ↦ absurd (ground (arith, e, f, h))
    ]
    | inr e ↦ inr (n, refl, (λ f. ground (arith, e, f)), ground (arith, e, h))
  ]

  -- Adding a mapping reports no error in two cases: the mapping was inserted, what the caller asked
  -- for succeeded and all was committed; or the insert affected no row or several, the caller's
  -- part was not run and the transaction was rolled back.
  pub add-cases :
      (create : ShardMapping) (run : S → Option Error × S) (s : S) {t : S}
      → add db create run s ≡ (none, t)
      → (v : S) × (t ≡ db.rollback v)
        × (IsCommitted run
              (db.insert_mapping create (db.begin_tx s).1).0
              (db.insert_mapping create (db.begin_tx s).1).1
              v
            ⊎ IsDropped
                (db.insert_mapping create (db.begin_tx s).1).0
                (db.insert_mapping create (db.begin_tx s).1).1
                v)
  unfolding add wrap
  add-cases create run s {t} h =
      let ins : Result (Result ℕ) × S = db.insert_mapping create (db.begin_tx s).1 in
      let result : Option Error × S = finish_add db run ins.0 ins.1 in
      elim (Option-cases (db.begin_tx s).0) [
        | inr (x, f) ↦ absurd (ground (arith, f, h))
        | inl f ↦ (
          result.1,
          ground (arith, f, h),
          finish_add-cases run ins.0 ins.1 (ground (arith, f, h)),
        )
      ]
