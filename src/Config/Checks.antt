-- ===== src/Config/Checks.antt =====
-- Checks of a configuration, one after the other, up to the first problem.
use achgateway.Base.{
  Text, text_eq, Error, errorf_v, new_error, Bool, true, false, Option, none, some, List, [], ◌∷◌,
  All, ◌≡◌, ◌≢◌, ◌↔◌, refl, if◌then◌else◌,
}

-- What Validate does: it passes, gives an error, or panics where it reads a nil pointer.
pub data Checked : Type 0 where
  passed : Checked
  refused : Error → Checked
  panicked : Checked

unfoldable pub first_problem : List Checked → Checked
first_problem [] = passed
first_problem (passed ∷ cs) = first_problem cs
first_problem (refused e ∷ cs) = refused e
first_problem (panicked ∷ cs) = panicked

-- fmt.Errorf("<text>%v", err)
unfoldable pub wrap : Text → Checked → Checked
wrap m passed = passed
wrap m (refused e) = refused (errorf_v m e)
wrap m panicked = panicked

unfoldable pub require : Bool → Text → Checked
require ok_ m = if ok_ then passed else refused (new_error m)

unfoldable pub require_text : Text → Text → Checked
unfolding text_eq
require_text t m = if text_eq t [] then refused (new_error m) else passed

-- A nil pointer that its Validate takes.
unfoldable pub optional : {A : Type 0} → (A → Checked) → Option A → Checked
optional check none = passed
optional check (some a) = check a

-- A nil pointer that its Validate reads.
unfoldable pub pointer : {A : Type 0} → (A → Checked) → Option A → Checked
pointer check none = panicked
pointer check (some a) = check a

unfoldable pub each : {A : Type 0} → (A → Checked) → List A → Checked
each check [] = passed
each check (a ∷ as_) = first_problem (check a ∷ each check as_ ∷ [])

-- A list with at least one element.
unfoldable pub require_some : {A : Type 0} → List A → Text → Checked
require_some [] m = refused (new_error m)
require_some (a ∷ as_) m = passed

abbrev pub Holds : Checked → Type 0 → Type 0
Holds c P = (c ≡ passed) ↔ P

abbrev pub Given : {A : Type 0} → (A → Type 0) → Option A → Type 0
Given P none = Unit
Given P (some a) = P a

-- Each check passes exactly if what it stands for holds.
pub first_problem-cons :
    {P Q : Type 0} (c : Checked) (cs : List Checked)
    → Holds c P
    → Holds (first_problem cs) Q
    → Holds (first_problem (c ∷ cs)) (P × Q)
unfolding first_problem
first_problem-cons passed cs h k = (λ e. (h.0 refl, k.0 e), λ p. k.1 p.1)
first_problem-cons (refused x) cs h k = (λ e. absurd (cc e), λ p. h.1 p.0)
first_problem-cons panicked cs h k = (λ e. absurd (cc e), λ p. h.1 p.0)

pub first_problem_last : {P : Type 0} (c : Checked) → Holds c P → Holds (first_problem (c ∷ [])) P
unfolding first_problem
first_problem_last passed h = h
first_problem_last (refused x) h = h
first_problem_last panicked h = h

pub wrap_iff : {P : Type 0} (m : Text) (c : Checked) → Holds c P → Holds (wrap m c) P
unfolding wrap
wrap_iff m passed h = h
wrap_iff m (refused x) h = (λ e. absurd (cc e), λ p. absurd (cc (h.1 p)))
wrap_iff m panicked h = h

pub require_iff : (b : Bool) (m : Text) → Holds (require b m) (b ≡ true)
unfolding require
require_iff true m = (λ e. refl, λ e. refl)
require_iff false m = (λ e. absurd (cc e), λ e. absurd (cc e))

pub require_text_iff : (t m : Text) → Holds (require_text t m) (t ≢ [])
unfolding require_text text_eq
require_text_iff [] m = (λ e. absurd (cc e), λ h. absurd (h refl))
require_text_iff (c ∷ t) m = (λ e h. cc h, λ h. refl)

pub require_some_iff : {A : Type 0} (xs : List A) (m : Text) → Holds (require_some xs m) (xs ≢ [])
unfolding require_some
require_some_iff [] m = (λ e. absurd (cc e), λ h. absurd (h refl))
require_some_iff (a ∷ as_) m = (λ e h. cc h, λ h. refl)

pub optional_iff :
    {A : Type 0} (check : A → Checked) (P : A → Type 0) (o : Option A)
    → ((a : A) → Holds (check a) (P a))
    → Holds (optional check o) (Given P o)
unfolding optional
optional_iff check P none h = (λ e. tt, λ p. refl)
optional_iff check P (some a) h = h a

pub each_iff :
    {A : Type 0} (check : A → Checked) (P : A → Type 0) (as_ : List A)
    → ((a : A) → Holds (check a) (P a))
    → Holds (each check as_) (All P as_)
unfolding each
each_iff check P [] h = (λ e. tt, λ p. refl)
each_iff check P (a ∷ as_) h =
    first_problem-cons (check a) (each check as_ ∷ []) (h a)
      (first_problem_last (each check as_) (each_iff check P as_ h))
