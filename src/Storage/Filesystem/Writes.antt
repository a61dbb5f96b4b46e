-- ===== src/Storage/Filesystem/Writes.antt =====
-- What writing a file on disk leaves at its path, and at the others.
use achgateway.Base.{
  Text, Error, Option, none, some, Option-cases, inl, inr, [], ◌≡◌, ◌≢◌, ap, arith,
}
use achgateway.Storage.Laws.{FileView}
use achgateway.Storage.Filesystem.{Os, write_and_sync, write}
use achgateway.Storage.Filesystem.Laws.{IsOs}

module _ {S : Type 0} (os : Os S) (view : FileView S) (laws : IsOs os view) where
  open view use {holds, is_dir}

  write_and_sync_self :
      (p c : Text) (s : S) {t : S}
      → holds s p ≡ some []
      → write_and_sync os p c s ≡ (none, t)
      → holds t p ≡ some c
  unfolding write_and_sync
  write_and_sync_self p c s {t} empty h =
      let u : S = (os.write p c s).1 in
      elim (Option-cases (os.write p c s).0) [
        | inr (x, e) ↦ absurd (ground (arith, e, h))
        | inl e ↦
            let written : holds u p ≡ some c = laws.write-self p c s empty (λ i. (e i, u)) in
            ground (
              arith,
              e,
              h,
              written,
              laws.sync-frame p p u,
              ap (λ (r : Option Error × S). holds r.1 p) h,
            )
      ]

  write_and_sync-frame :
      (p c r : Text) (s : S) → p ≢ r → holds (write_and_sync os p c s).1 r ≡ holds s r
  unfolding write_and_sync
  write_and_sync-frame p c r s ne =
      ground (arith, laws.write-frame p c r s ne, laws.sync-frame p r (os.write p c s).1)

  -- A write with no error leaves the contents at the path.
  pub write_self : (p c : Text) (s : S) {t : S} → write os p c s ≡ (none, t) → holds t p ≡ some c
  unfolding write
  write_self p c s {t} h =
      let u : S = (os.open_trunc p s).1 in
      let v : S = (write_and_sync os p c u).1 in
      elim (Option-cases (os.open_trunc p s).0) [
        | inr (x, e) ↦ absurd (ground (arith, e, h))
        | inl e ↦ elim (Option-cases (write_and_sync os p c u).0) [
          | inr (x, e') ↦ absurd (ground (arith, e, e', h))
          | inl e' ↦
              let empty : holds u p ≡ some [] = laws.open_trunc-self p s (λ i. (e i, u)) in
              let written : holds v p ≡ some c = write_and_sync_self p c u empty (λ i. (e' i, v)) in
              ground (
                arith,
                e,
                e',
                written,
                laws.close-frame p p v,
                ap (λ (r : Option Error × S). holds r.1 p) h,
              )
        ]
      ]

  pub write-frame : (p c r : Text) (s : S) → p ≢ r → holds (write os p c s).1 r ≡ holds s r
  unfolding write
  write-frame p c r s ne =
      let t : S = (os.open_trunc p s).1 in
      ground (
        arith,
        laws.open_trunc-frame p r s ne,
        write_and_sync-frame p c r t ne,
        laws.close-frame p r (write_and_sync os p c t).1,
      )

  abbrev pub Held : Text → S → Type 0
  Held p s = (c : Text) × (holds s p ≡ some c)

  write_and_sync-keeps :
      (p c d : Text) (s : S) → holds s p ≡ some d → Held p (write_and_sync os p c s).1
  unfolding write_and_sync
  write_and_sync-keeps p c d s held =
      let (d', kept) = laws.write-keeps p c d s held in
      (d', ground (arith, kept, laws.sync-frame p p (os.write p c s).1))

  pub write-keeps : (p c d : Text) (s : S) → holds s p ≡ some d → Held p (write os p c s).1
  unfolding write
  write-keeps p c d s held =
      let u : S = (os.open_trunc p s).1 in
      let (d', kept) = laws.open_trunc-keeps p d s held in
      let (d'', kept') = write_and_sync-keeps p c d' u kept in
      elim (Option-cases (os.open_trunc p s).0) [
        | inr (x, e) ↦ (d', ground (arith, e, kept))
        | inl e ↦ (d'', ground (arith, e, kept', laws.close-frame p p (write_and_sync os p c u).1))
      ]
