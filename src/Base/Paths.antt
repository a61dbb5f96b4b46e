-- ===== src/Base/Paths.antt =====
-- Package path/filepath on Unix, as the repository uses it: Split, Base, Clean and Join.
use Prim.Native.Nat.{ℕ}
use mathlib.Core.Path.{◌≡◌, refl}
use mathlib.Core.Bool.{Bool, true, false}
use mathlib.Core.List.{List, [], ◌∷◌, ◌++◌, reverse}
use achgateway.Base.Tests.{nat_eq, if◌then◌else◌}
use achgateway.Base.Bytes.{Text, txt, text_eq}

-- The parts between the slashes; there is at least one.
abbrev push_byte : ℕ → List Text → List Text
push_byte c [] = (c ∷ []) ∷ []
push_byte c (p ∷ ps) = (c ∷ p) ∷ ps

unfoldable pub split_slashes : Text → List Text
split_slashes [] = [] ∷ []
split_slashes (c ∷ s) =
    let rest = split_slashes s in if nat_eq c b'/' then [] ∷ rest else push_byte c rest

unfoldable pub join_slashes : List Text → Text
join_slashes [] = []
join_slashes (p ∷ []) = p
join_slashes (p ∷ q ∷ ps) = p ++ (b'/' ∷ join_slashes (q ∷ ps))

-- `kept` holds the parts so far, the last one first.
abbrev step_up : Bool → List Text → List Text
step_up true [] = []
step_up false [] = txt ".." ∷ []
step_up rooted (top ∷ kept) = if text_eq top (txt "..") then txt ".." ∷ top ∷ kept else kept

abbrev clean_part : Bool → Text → List Text → List Text
clean_part rooted p kept =
    if text_eq p []
    then kept
    else if text_eq p (txt ".")
    then kept
    else if text_eq p (txt "..")
    then step_up rooted kept
    else p ∷ kept

unfoldable pub clean_parts : Bool → List Text → List Text → List Text
unfolding text_eq
clean_parts rooted [] kept = reverse kept
clean_parts rooted (p ∷ ps) kept = clean_parts rooted ps (clean_part rooted p kept)

abbrev pub is_rooted : Text → Bool
is_rooted [] = false
is_rooted (c ∷ s) = nat_eq c b'/'

abbrev pub or_dot : Text → Text
or_dot [] = txt "."
or_dot (c ∷ s) = c ∷ s

-- filepath.Clean(p)
unfoldable pub clean : Text → Text
unfolding clean_parts split_slashes join_slashes
clean p =
    let parts = clean_parts (is_rooted p) (split_slashes p) [] in
    if is_rooted p then b'/' ∷ join_slashes parts else or_dot (join_slashes parts)

abbrev pub drop_empty : List Text → List Text
drop_empty [] = []
drop_empty ([] ∷ ps) = drop_empty ps
drop_empty ((c ∷ p) ∷ ps) = (c ∷ p) ∷ drop_empty ps

abbrev clean_joined : List Text → Text
clean_joined [] = []
clean_joined (p ∷ ps) = clean (join_slashes (p ∷ ps))

-- filepath.Join(ps...)
unfoldable pub join : List Text → Text
unfolding clean
join ps = clean_joined (drop_empty ps)

-- filepath.Split(p): the text up to the last slash, and the rest.
unfoldable pub split : Text → Text × Text
split [] = ([], [])
split (c ∷ s) =
    let (dir, file) = split s in
    elim dir [
      | [] ↦ if nat_eq c b'/' then (c ∷ [], file) else ([], c ∷ file)
      | d ∷ ds ↦ (c ∷ d ∷ ds, file)
    ]

abbrev last_or : Text → List Text → Text
last_or p [] = p
last_or p (q ∷ ps) = last_or q ps

-- path.Base(p)
unfoldable pub base : Text → Text
unfolding split_slashes
base [] = txt "."
base (c ∷ p) = last_or (txt "/") (drop_empty (split_slashes (c ∷ p)))

join_cleans :
    join (txt "mergable" ∷ txt "SD live" ∷ txt "../x/./y.ach" ∷ []) ≡ txt "mergable/x/y.ach"
unfolding join
join_cleans = refl

split_file : split (txt "a/b/c.ach") ≡ (txt "a/b/", txt "c.ach")
unfolding split
split_file = refl
