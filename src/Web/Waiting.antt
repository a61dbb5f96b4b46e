-- ===== src/Web/Waiting.antt =====
-- The requests that wait for a response, of internal/incoming/web/api_files.go: the maps
-- activeQueueFiles and activeCancellations, and the goroutines that listen for responses.
pub mod Laws
pub mod Answers
use achgateway.Base.{
  ℕ, ◌+◌, Text, txt, text_eq, trim_suffix, nat_eq, Option, none, some, List, [], ◌∷◌, ◌++◌,
  if◌then◌else◌,
}

-- The map of waiters, each the number of its channel, what was sent to the channels, and the number
-- of the channels that were made.
pub record Pending (R : Type 0) : Type 0 where
  pub active : List (Text × ℕ)
  pub sent : List (ℕ × R)
  pub made : ℕ

-- active[id]
unfoldable pub find : Text → List (Text × ℕ) → Option ℕ
unfolding text_eq
find id [] = none
find id ((key, w) ∷ rest) = let found = find id rest in if text_eq key id then some w else found

-- delete(active, id)
unfoldable pub remove : Text → List (Text × ℕ) → List (Text × ℕ)
unfolding text_eq
remove id [] = []
remove id ((key, w) ∷ rest) =
    let kept = remove id rest in if text_eq key id then kept else (key, w) ∷ kept

-- What a channel has for its receiver.
unfoldable pub received : {R : Type 0} → ℕ → List (ℕ × R) → Option R
received w [] = none
received w ((v, resp) ∷ rest) =
    let found = received w rest in if nat_eq v w then some resp else found

module _ {R : Type 0} where
  abbrev pub empty : Pending R
  empty = record { active = []; sent = []; made = 0 }

  -- A new channel, which waits for the response to a file ID.
  unfoldable pub register : Text → Pending R → Pending R
  unfolding remove
  register id p = record p { active = (id, p.made) ∷ remove id p.active; made = p.made + 1 }

  -- A response goes to the channel that waits for its file ID, which is then forgotten.
  unfoldable pub respond : Text → R → Pending R → Pending R
  unfolding find remove trim_suffix
  respond id resp p =
      let key = trim_suffix id (txt ".ach") in
      elim (find key p.active) [
        | none ↦ p
        | some w ↦ record p { active = remove key p.active; sent = p.sent ++ ((w, resp) ∷ []) }
      ]

-- What other goroutines do meanwhile.
pub data Step (R : Type 0) : Type 0 where
  requested : Text → Step R
  responded : Text → R → Step R

module _ {R : Type 0} where
  unfoldable pub step : Step R → Pending R → Pending R
  unfolding register respond
  step (requested id) p = register id p
  step (responded id resp) p = respond id resp p

  unfoldable pub run : List (Step R) → Pending R → Pending R
  unfolding step
  run [] p = p
  run (s ∷ steps) p = run steps (step s p)
