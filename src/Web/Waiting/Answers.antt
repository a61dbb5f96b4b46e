-- ===== src/Web/Waiting/Answers.antt =====
-- Which response comes to a channel.
use achgateway.Base.{
  ℕ, ◌<◌, Text, txt, text_eq_iff, trim_suffix, Option-cases, none, some, List, [], ◌∷◌, ◌++◌, ◌≡◌,
  ◌≢◌, sym, ap, ◌∙◌, subst, inl, inr, arith, All,
}
use achgateway.Web.Waiting.{
  Pending, Step, requested, responded, find, received, register, respond, step, run,
}
use achgateway.Web.Waiting.Laws.{
  find-remove, received-append, received-kept, IsOrderly, find-register, register-IsOrderly,
  respond-IsOrderly, respond-found, respond-missed,
}

-- A step that neither asks for a file ID nor brings a response for it.
abbrev pub IsApart : {R : Type 0} → Text → Step R → Type 0
IsApart id (requested k) = k ≢ id
IsApart id (responded k resp) = trim_suffix k (txt ".ach") ≢ id

-- A step that brings no response for a file ID.
abbrev pub IsUnanswered : {R : Type 0} → Text → Step R → Type 0
IsUnanswered id (requested k) = Unit
IsUnanswered id (responded k resp) = trim_suffix k (txt ".ach") ≢ id

module _ {R : Type 0} where
  -- What was sent stays.
  respond-received :
      (id : Text) (resp r : R) (p : Pending R) (w : ℕ)
      → received w p.sent ≡ some r
      → received w (respond id resp p).sent ≡ some r
  respond-received id resp r p w h =
      elim (Option-cases (find (trim_suffix id (txt ".ach")) p.active)) [
        | inl e ↦ ap (λ (q : Pending R). received w q.sent) (respond-missed id resp p e) ∙ h
        | inr (v, e) ↦
            ap (λ (q : Pending R). received w q.sent) (respond-found id resp p v e)
            ∙ received-kept w v resp r p.sent h
      ]

  pub run-received :
      (steps : List (Step R)) (r : R) (p : Pending R) (w : ℕ)
      → received w p.sent ≡ some r
      → received w (run steps p).sent ≡ some r
  unfolding run step register
  run-received [] r p w h = h
  run-received (requested id ∷ steps) r p w h = run-received steps r (register id p) w h
  run-received (responded id resp ∷ steps) r p w h =
      run-received steps r (respond id resp p) w (respond-received id resp r p w h)

  respond_waits :
      (id k : Text) (resp : R) (p : Pending R)
      → trim_suffix k (txt ".ach") ≢ id
      → find id (respond k resp p).active ≡ find id p.active
  respond_waits id k resp p h = elim (Option-cases (find (trim_suffix k (txt ".ach")) p.active)) [
    | inl e ↦ ap (λ (q : Pending R). find id q.active) (respond-missed k resp p e)
    | inr (v, e) ↦
        ap (λ (q : Pending R). find id q.active) (respond-found k resp p v e)
        ∙ ground (
          arith,
          h,
          find-remove id (trim_suffix k (txt ".ach")) p.active,
          text_eq_iff (trim_suffix k (txt ".ach")) id,
        )
  ]

  pub respond_arrives :
      (id : Text) (resp : R) (p : Pending R) (w : ℕ)
      → IsOrderly p
      → find (trim_suffix id (txt ".ach")) p.active ≡ some w
      → received w (respond id resp p).sent ≡ some resp
  respond_arrives id resp p w h e =
      ap (λ (q : Pending R). received w q.sent) (respond-found id resp p w e)
      ∙ ground (arith, received-append w w resp p.sent (h.unsent (trim_suffix id (txt ".ach")) w e))

  -- The channel of a file ID gets the first response for it, whatever comes between and later.
  pub run_answered :
      (before : List (Step R)) (id : Text) (resp : R) (later : List (Step R)) (p : Pending R)
      (w : ℕ)
      → IsOrderly p
      → find (trim_suffix id (txt ".ach")) p.active ≡ some w
      → All (IsApart (trim_suffix id (txt ".ach"))) before
      → received w (run (before ++ (responded id resp ∷ later)) p).sent ≡ some resp
  unfolding run step
  run_answered [] id resp later p w h e a =
      run-received later resp (respond id resp p) w (respond_arrives id resp p w h e)
  run_answered (requested k ∷ before) id resp later p w h e a =
      run_answered before id resp later (register k p) w (register-IsOrderly k p h)
        (ground (
          arith,
          e,
          a.0,
          find-register (trim_suffix id (txt ".ach")) k p,
          text_eq_iff k (trim_suffix id (txt ".ach")),
        ))
        a.1
  run_answered (responded k r ∷ before) id resp later p w h e a =
      run_answered before id resp later (respond k r p) w (respond-IsOrderly k r p h)
        (respond_waits (trim_suffix id (txt ".ach")) k r p a.0 ∙ e) a.1

  -- A channel that waits for no file ID but one, and got nothing.
  pub record IsQuiet (id : Text) (w : ℕ) (p : Pending R) : Type 0 where
    pub got_nothing : received w p.sent ≡ none
    pub waits_for : (k : Text) → find k p.active ≡ some w → k ≡ id
    pub is_made : w < p.made

  register-IsQuiet :
      (id k : Text) (w : ℕ) (p : Pending R) → IsQuiet id w p → IsQuiet id w (register k p)
  unfolding register
  register-IsQuiet id k w p h = record {
    got_nothing = h.got_nothing;
    waits_for = λ j e. ground (arith, find-register j k p, h.waits_for j, h.is_made);
    is_made = omega (arith, h.is_made);
  }

  respond-IsQuiet :
      (id k : Text) (resp : R) (w : ℕ) (p : Pending R)
      → trim_suffix k (txt ".ach") ≢ id
      → IsQuiet id w p
      → IsQuiet id w (respond k resp p)
  respond-IsQuiet id k resp w p a h =
      elim (Option-cases (find (trim_suffix k (txt ".ach")) p.active)) [
        | inl e ↦ subst (IsQuiet id w) (sym (respond-missed k resp p e)) h
        | inr (v, e) ↦ subst (IsQuiet id w) (sym (respond-found k resp p v e)) (record {
          got_nothing = ground (
            arith,
            a,
            e,
            received-append w v resp p.sent h.got_nothing,
            h.waits_for (trim_suffix k (txt ".ach")),
          );
          waits_for = λ j f.
              ground (arith, find-remove j (trim_suffix k (txt ".ach")) p.active, h.waits_for j);
          is_made = h.is_made;
        })
      ]

  pub run-IsQuiet :
      (steps : List (Step R)) (id : Text) (w : ℕ) (p : Pending R)
      → All (IsUnanswered id) steps
      → IsQuiet id w p
      → IsQuiet id w (run steps p)
  unfolding run step
  run-IsQuiet [] id w p a h = h
  run-IsQuiet (requested k ∷ steps) id w p a h =
      run-IsQuiet steps id w (register k p) a.1 (register-IsQuiet id k w p h)
  run-IsQuiet (responded k resp ∷ steps) id w p a h =
      run-IsQuiet steps id w (respond k resp p) a.1 (respond-IsQuiet id k resp w p a.0 h)

  pub registered-IsQuiet :
      (id : Text) (p : Pending R) → IsOrderly p → IsQuiet id p.made (register id p)
  unfolding register
  registered-IsQuiet id p h = record {
    got_nothing = h.sent_made p.made (omega arith);
    waits_for =
        λ k e. ground (arith, find-register k id p, h.active_made k p.made, text_eq_iff id k);
    is_made = omega arith;
  }
