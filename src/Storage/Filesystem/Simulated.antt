-- ===== src/Storage/Filesystem/Simulated.antt =====
-- Packages os and filepath over a list of files by absolute path: a directory is there while it has
-- a file in it.
pub mod Laws
use achgateway.Base.{
  Text, txt, text_eq, text_eq_iff, text_eq_refl, text_eq-of_ne, cut_prefix, cut_prefix-append,
  cut_prefix-some, has_suffix, is_some, NoSlash, contains, Error, not_exist, eof, Result, ok, err,
  new_error, Bool-cases, Option-cases, inl, inr, Bool, true, false, ◌||◌, ◌&&◌, Option, none, some,
  List, [], ◌∷◌, ◌++◌, append_assoc, append-nil, length, length-append, has_prefix,
  has_prefix-append, ◌≡◌, ◌≢◌, refl, sym, ap, ◌∙◌, subst, arith, if◌then◌else◌,
}
use mathlib.Core.Bool.{false≢true}
use achgateway.Storage.Laws.{FileView, inside}
use achgateway.Storage.Memory.{
  Files, lookup, remove, rename_dir, under, under-append, lookup-remove, lookup-rename_dir,
  has_suffix-append,
}
use achgateway.Storage.Rooted.{inside-ne, tail}
use achgateway.Storage.Filesystem.{Os, all_names}

unfoldable pub has_files : Text → Files → Bool
unfolding cut_prefix
has_files d [] = false
has_files d ((k, v) ∷ m) = is_some (cut_prefix (under d) k) || has_files d m

unfoldable pub names_in : Text → Files → List Text
unfolding cut_prefix
names_in d [] = []
names_in d ((k, v) ∷ m) =
    let rest = names_in d m in
    elim (cut_prefix (under d) k) [ none ↦ rest | some name ↦ name ∷ rest ]

abbrev missing : Error
missing = record { message = txt "no such file"; wraps = not_exist ∷ [] }

unfoldable pub stat : Text → Files → Option Error
unfolding lookup has_files
stat p s = elim (lookup p s) [ some c ↦ none | none ↦ if has_files p s then none else some missing ]

abbrev move : Text → Text → Files → Option Error × Files
move p q s = elim (lookup p s) [ none ↦ (some missing, s) | some c ↦ (none, (q, c) ∷ remove p s) ]

unfoldable pub rename : Text → Text → Files → Option Error × Files
unfolding lookup remove rename_dir has_files cut_prefix
rename p q s =
    if is_some (cut_prefix (under p) q)
    then (some (new_error (txt "invalid argument")), s)
    else if has_files p s
    then (none, rename_dir p q s)
    else move p q s

abbrev pub end : Error
end = record { message = txt "EOF"; wraps = eof ∷ [] }

-- The names of a directory, one for each call, and then the end.
unfoldable pub one_by_one : List Text → List (List Text × Option Error)
one_by_one [] = ([], some end) ∷ []
one_by_one (n ∷ names) = (n ∷ [], none) ∷ one_by_one names

unfoldable pub simulated : Os Files
unfolding lookup stat rename names_in has_suffix text_eq one_by_one
simulated = record {
  abs = λ p. ok p;
  open_read = λ p s. elim (lookup p s) [ none ↦ err missing | some c ↦ ok c ];
  read_dir = λ d name s. ok [];
  readdirnames = λ d s. ok (one_by_one (names_in d s));
  match =
      λ pattern name. ok (text_eq pattern (txt "*.canceled") && has_suffix name (txt ".canceled"));
  stat = stat;
  mkdir_all = λ d s. (none, s);
  remove_all = λ d s. (none, s);
  rename = rename;
  open_trunc = λ p s. (none, (p, []) ∷ s);
  write = λ p c s. (none, (p, c) ∷ s);
  sync = λ p s. (none, s);
  close = λ p s. (none, s);
}

abbrev pub simulated_view : FileView Files
simulated_view = record { holds = λ s p. lookup p s; is_dir = λ s p. has_files p s }
