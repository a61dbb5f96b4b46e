-- ===== src/Web/Waiting/Laws.antt =====
-- The waiters and the responses that come to them.
use achgateway.Base.{
  ℕ, ◌<◌, ◌≤◌, Text, txt, text_eq, text_eq_iff, trim_suffix, nat_eq, Option-cases, none, some, List,
  [], ◌∷◌, ◌++◌, ◌≡◌, sym, inl, inr, arith, subst, refl, if◌then◌else◌,
}
use achgateway.Web.Waiting.{
  Pending, Step, requested, responded, find, remove, received, register, respond, step, run, empty,
}

pub find-remove :
    (j k : Text) (active : List (Text × ℕ))
    → find j (remove k active) ≡ (if text_eq k j then none else find j active)
unfolding find remove
find-remove j k [] = ground arith
find-remove j k ((key, w) ∷ rest) =
    ground (arith, find-remove j k rest, text_eq_iff key k, text_eq_iff key j, text_eq_iff k j)

module _ {R : Type 0} where
  pub received-append :
      (w v : ℕ) (resp : R) (sent : List (ℕ × R))
      → received w sent ≡ none
      → received w (sent ++ ((v, resp) ∷ [])) ≡ (if nat_eq v w then some resp else none)
  unfolding received
  received-append w v resp [] h = ground arith
  received-append w v resp ((u, r) ∷ sent) h = ground (arith, received-append w v resp sent)

  pub received-kept :
      (w v : ℕ) (resp r : R) (sent : List (ℕ × R))
      → received w sent ≡ some r
      → received w (sent ++ ((v, resp) ∷ [])) ≡ some r
  unfolding received
  received-kept w v resp r [] h = ground arith
  received-kept w v resp r ((u, x) ∷ sent) h = ground (arith, received-kept w v resp r sent)

  -- The channels that wait are made, each for one file ID, and nothing was sent to them yet.
  pub record IsOrderly (p : Pending R) : Type 0 where
    pub active_made : (k : Text) (w : ℕ) → find k p.active ≡ some w → w < p.made
    pub sent_made : (w : ℕ) → p.made ≤ w → received w p.sent ≡ none
    pub one_key : (j k : Text) (w : ℕ) → find j p.active ≡ some w → find k p.active ≡ some w → j ≡ k
    pub unsent : (k : Text) (w : ℕ) → find k p.active ≡ some w → received w p.sent ≡ none

  pub find-register :
      (j k : Text) (p : Pending R)
      → find j (register k p).active ≡ (if text_eq k j then some p.made else find j p.active)
  unfolding register find
  find-register j k p = ground (arith, find-remove j k p.active)

  pub register-IsOrderly : (k : Text) (p : Pending R) → IsOrderly p → IsOrderly (register k p)
  unfolding register
  register-IsOrderly k p h = record {
    active_made = λ j w e. ground (arith, find-register j k p, h.active_made j w);
    sent_made = λ w e. h.sent_made w (omega arith);
    one_key = λ i j w e f. ground (
      arith,
      find-register i k p,
      find-register j k p,
      h.one_key i j w,
      h.active_made i w,
      h.active_made j w,
      text_eq_iff k i,
      text_eq_iff k j,
    );
    unsent = λ j w e. ground (arith, find-register j k p, h.unsent j w, h.sent_made p.made);
  }

  -- What a response does that somebody waits for, under the ID without ".ach".
  pub respond-found :
      (id : Text) (resp : R) (p : Pending R) (v : ℕ)
      → find (trim_suffix id (txt ".ach")) p.active ≡ some v
      → respond id resp p ≡ record p {
        active = remove (trim_suffix id (txt ".ach")) p.active;
        sent = p.sent ++ ((v, resp) ∷ []);
      }
  unfolding respond
  respond-found id resp p v h = rw (h, respond)

  pub respond-missed :
      (id : Text) (resp : R) (p : Pending R)
      → find (trim_suffix id (txt ".ach")) p.active ≡ none
      → respond id resp p ≡ p
  unfolding respond
  respond-missed id resp p h = rw (h, respond)

  sends-IsOrderly :
      (key : Text) (resp : R) (p : Pending R) (v : ℕ)
      → find key p.active ≡ some v
      → IsOrderly p
      → IsOrderly (record p { active = remove key p.active; sent = p.sent ++ ((v, resp) ∷ []) })
  sends-IsOrderly key resp p v f h = record {
    active_made = λ j w e. ground (arith, find-remove j key p.active, h.active_made j w);
    sent_made = λ w e.
        ground (arith, received-append w v resp p.sent, h.sent_made w, h.active_made key v f);
    one_key = λ i j w e g.
        ground (arith, find-remove i key p.active, find-remove j key p.active, h.one_key i j w);
    unsent = λ j w e. ground (
      arith,
      find-remove j key p.active,
      h.unsent j w,
      received-append w v resp p.sent,
      h.one_key j key w,
      text_eq_iff key j,
    );
  }

  pub respond-IsOrderly :
      (id : Text) (resp : R) (p : Pending R) → IsOrderly p → IsOrderly (respond id resp p)
  respond-IsOrderly id resp p h =
      elim (Option-cases (find (trim_suffix id (txt ".ach")) p.active)) [
        | inl e ↦ subst IsOrderly (sym (respond-missed id resp p e)) h
        | inr (v, e) ↦
            subst IsOrderly (sym (respond-found id resp p v e))
              (sends-IsOrderly (trim_suffix id (txt ".ach")) resp p v e h)
      ]

  pub run-IsOrderly :
      (steps : List (Step R)) (p : Pending R) → IsOrderly p → IsOrderly (run steps p)
  unfolding run step
  run-IsOrderly [] p h = h
  run-IsOrderly (requested id ∷ steps) p h =
      run-IsOrderly steps (register id p) (register-IsOrderly id p h)
  run-IsOrderly (responded id resp ∷ steps) p h =
      run-IsOrderly steps (respond id resp p) (respond-IsOrderly id resp p h)

  pub empty-IsOrderly : IsOrderly (empty {R = R})
  unfolding find received
  empty-IsOrderly = record {
    active_made = λ k w e. absurd (cc e);
    sent_made = λ w e. refl;
    one_key = λ j k w e f. absurd (cc e);
    unsent = λ k w e. absurd (cc e);
  }

  -- A channel that waits for a response is empty, after any requests and responses: the goroutine
  -- that sends the response to it does not block while it holds the lock.
  pub sending_never_blocks :
      (steps : List (Step R)) (id : Text) (w : ℕ)
      → find id (run steps empty).active ≡ some w
      → received w (run steps empty).sent ≡ none
  sending_never_blocks steps = (run-IsOrderly steps empty empty-IsOrderly).unsent
