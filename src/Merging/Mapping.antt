-- ===== src/Merging/Mapping.antt =====
-- internal/pipeline/merging.go: which input file each entry came from, and the input files that a
-- merged file holds.
use achgateway.Base.{
  ℕ, zero, suc, ◌-◌, Text, txt, text_eq, join, split, trim_suffix, has_suffix, nat_eq, ltb, Error,
  ok, err, errorf_w, Bool, true, false, ◌||◌, Option, none, some, List, [], ◌∷◌, ◌++◌,
  if◌then◌else◌,
}
use achgateway.Storage.{Chest, DirEntry}
use achgateway.Ach.{AchLib, Batch, TreeMap, accept_file, skip_file}
use achgateway.Merging.Accept.{file_acceptor}
use achgateway.Merging.Runes.{rune_count, take_runes}

pub record MergedFile (lib : AchLib) : Type 0 where
  pub input_filepaths : List Text
  pub uploaded_filename : Text
  pub ach_file : lib.File
  pub shard : Text

abbrev spaces : ℕ → Text
spaces zero = []
spaces (suc n) = b' ' ∷ spaces n

-- The verb %87.87s: cut to 87 runes, and filled up with blanks in front.
unfoldable pub fixed_width : Text → Text
unfolding rune_count take_runes
fixed_width s = let cut = take_runes 87 0 s in spaces (87 - rune_count 0 cut) ++ cut

unfoldable pub make_key : Text → Text → Text
unfolding fixed_width
make_key header entry = fixed_width header ++ entry

-- filepath.Ext(p): what stands from the last dot of the last element on.
unfoldable pub dot_suffix : Text → Option Text
dot_suffix [] = none
dot_suffix (c ∷ s) = elim (dot_suffix s) [
  | some e ↦ some e
  | none ↦ if nat_eq c b'.' then some (c ∷ s) else none
]

abbrev or_empty : Option Text → Text
or_empty none = []
or_empty (some e) = e

unfoldable pub ext : Text → Text
unfolding dot_suffix split
ext path = or_empty (dot_suffix (split path).1)

-- s <= t, byte by byte
unfoldable pub text_leb : Text → Text → Bool
text_leb [] t = true
text_leb (c ∷ s) [] = false
text_leb (c ∷ s) (d ∷ t) = if ltb c d then true else if nat_eq c d then text_leb s t else false

unfoldable pub insert_sorted : Text → List Text → List Text
unfolding text_leb
insert_sorted x [] = x ∷ []
insert_sorted x (y ∷ ys) =
    let rest = insert_sorted x ys in if text_leb x y then x ∷ y ∷ ys else y ∷ rest

-- slices.Sort(xs)
unfoldable pub sort : List Text → List Text
unfolding insert_sorted
sort [] = []
sort (x ∷ xs) = insert_sorted x (sort xs)

-- slices.Compact(xs)
unfoldable pub compact : List Text → List Text
unfolding text_eq
compact [] = []
compact (x ∷ []) = x ∷ []
compact (x ∷ y ∷ ys) = let rest = compact (y ∷ ys) in if text_eq x y then rest else x ∷ rest

module _ (lib : AchLib) (T : TreeMap) where
  -- tree.Set for each entry of a batch, and of all batches
  unfoldable pub map_entries : Text → Text → List Text → T.Map → T.Map
  unfolding make_key
  map_entries filename header [] tree = tree
  map_entries filename header (e ∷ es) tree =
      map_entries filename header es (T.put (make_key header e) filename tree)

  unfoldable pub map_batches : Text → List Batch → T.Map → T.Map
  unfolding map_entries
  map_batches filename [] tree = tree
  map_batches filename (b ∷ bs) tree =
      map_batches filename bs (map_entries filename b.header b.entries tree)

  module _ {S : Type 0} (chest : Chest S) where
    -- No options where their file cannot be opened; an error where they cannot be decoded.
    unfoldable pub read_opts : Text → S → Option lib.ValidateOpts × Option Error
    unfolding ext trim_suffix
    read_opts path s = elim (chest.open_file (trim_suffix path (ext path) ++ txt ".json") s) [
      | err _ ↦ (none, none)
      | ok contents ↦ lib.decode_opts contents
    ]

    unfoldable pub accumulate_mappings : T.Map → Text → S → T.Map × Option Error
    unfolding read_opts map_batches split
    accumulate_mappings tree path s = elim (chest.open_file path s) [
      | err e ↦ (tree, some (errorf_w (txt "opening " ++ (path ++ txt " failed: ")) e))
      | ok contents ↦ elim (read_opts path s).1 [
        | some e ↦ (
          tree,
          some (
              errorf_w
                (txt "reading "
                  ++ (trim_suffix path (ext path) ++ txt ".json as validate opts failed: "))
                e),
        )
        | none ↦ elim (lib.read (read_opts path s).0 contents).1 [
          | some e ↦ (tree, some (errorf_w (txt "reading " ++ (path ++ txt " failed: ")) e))
          | none ↦ (
            map_batches (split path).1 (lib.batches (lib.read (read_opts path s).0 contents).0)
                tree,
            none,
          )
        ]
      ]
    ]

    abbrev is_skipped : List Text → DirEntry → Bool
    is_skipped canceled entry =
        entry.is_dir
        || has_suffix entry.name (txt ".json")
        || (elim (file_acceptor canceled entry.name) [ skip_file ↦ true | accept_file ↦ false ])

    -- `none` is the nil map that comes with an error.
    unfoldable pub map_dir :
        Text → List Text → List DirEntry → T.Map → S → Option T.Map × Option Error
    unfolding accumulate_mappings file_acceptor has_suffix join
    map_dir dir canceled [] tree s = (some tree, none)
    map_dir dir canceled (entry ∷ entries) tree s =
        let (tree', failed) = accumulate_mappings tree (join (dir ∷ entry.name ∷ [])) s in
        let skipped = map_dir dir canceled entries tree s in
        let mapped = map_dir dir canceled entries tree' s in
        if is_skipped canceled entry then skipped else (elim failed [
          | some e ↦ (
            none,
            some
                (errorf_w (txt "accumulating mappings from " ++ (entry.name ++ txt " failed: ")) e),
          )
          | none ↦ mapped
        ])

    unfoldable pub build_dir_mapping : Text → List Text → S → Option T.Map × Option Error
    unfolding map_dir
    build_dir_mapping dir canceled s = elim (chest.read_dir dir s) [
      | err e ↦ (none, some e)
      | ok entries ↦ map_dir dir canceled entries T.empty s
    ]

  -- The entries of a merged file take their names out of the map, each key once.
  unfoldable pub claim_entries : Text → List Text → T.Map → List Text × T.Map
  claim_entries header [] tree = ([], tree)
  claim_entries header (e ∷ es) tree =
      let found = claim_entries header es (T.del (make_key header e) tree) in
      let missing = claim_entries header es tree in
      elim (T.get tree (make_key header e)) [
        | some filename ↦ (filename ∷ found.0, found.1)
        | none ↦ missing
      ]

  unfoldable pub claim_batches : List Batch → T.Map → List Text × T.Map
  claim_batches [] tree = ([], tree)
  claim_batches (b ∷ bs) tree =
      let (names, tree') = claim_entries b.header b.entries tree in
      let (names', rest) = claim_batches bs tree' in (names ++ names', rest)

  unfoldable pub claim_files : T.Map → List (MergedFile lib) → List (MergedFile lib)
  claim_files tree [] = []
  claim_files tree (m ∷ ms) =
      let (names, tree') = claim_batches (lib.batches m.ach_file) tree in
      record m { input_filepaths = compact (sort (m.input_filepaths ++ names)) }
      ∷ claim_files tree' ms

  unfoldable pub has_entries : List Batch → Bool
  has_entries [] = false
  has_entries (b ∷ bs) = let rest = has_entries bs in elim b.entries [ [] ↦ rest | _ ∷ _ ↦ true ]

  -- Get of a nil map panics: `none`.
  unfoldable pub claim_nothing : List (MergedFile lib) → Option (List (MergedFile lib))
  claim_nothing [] = some []
  claim_nothing (m ∷ ms) =
      let rest = claim_nothing ms in
      if has_entries (lib.batches m.ach_file) then none else elim rest [
        | none ↦ none
        | some out ↦ some (record m { input_filepaths = compact (sort m.input_filepaths) } ∷ out)
      ]

  unfoldable pub find_input_filepaths :
      Option T.Map → List (MergedFile lib) → Option (List (MergedFile lib))
  find_input_filepaths none merged = claim_nothing merged
  find_input_filepaths (some tree) merged = some (claim_files tree merged)
