-- ===== src/Upload/Registry/Laws.antt =====
-- An agent is made once.
use achgateway.Base.{
  Text, text_eq, text_eq_refl, Result, ok, Result-cases, Option-cases, inl, inr, Option, none, some,
  List, [], ◌∷◌, ◌++◌, ◌≡◌, sym, ap, ◌∙◌, arith,
}
use achgateway.Retry.{RetryLib}
use achgateway.Upload.{Agent}
use achgateway.Upload.Registry.{
  UploadAgents, Connect, find_created, find_and_connect, finish_agent, new_agent,
}

module _ (lib : RetryLib) {S : Type 0} (connect : Connect S) where
  find_created_last :
      (id : Text) (created : List (Agent S)) (agent : Agent S)
      → find_created lib connect id created ≡ none
      → agent.id ≡ id
      → find_created lib connect id (created ++ (agent ∷ [])) ≡ some agent
  unfolding find_created
  find_created_last id [] agent h e =
      ground (arith, text_eq_refl id, ap (λ (t : Text). text_eq t id) e)
  find_created_last id (a ∷ created) agent h e =
      ground (arith, h, find_created_last id created agent)

  -- An agent that was given for an ID, and has that ID, is given again for it, whatever the
  -- configuration then says, and nothing changes.
  pub new_agent_once :
      (cfg cfg' : UploadAgents) (id : Text) (created : List (Agent S)) (s : S) {agent : Agent S}
      {later : List (Agent S) × S}
      → new_agent lib connect cfg id (created, s) ≡ (ok agent, later)
      → agent.id ≡ id
      → new_agent lib connect cfg' id later ≡ (ok agent, later)
  unfolding new_agent
  new_agent_once cfg cfg' id created s {agent} {later} h e =
      elim (Option-cases (find_created lib connect id created)) [
        | inr (known, f) ↦
            let same : ◌≡◌ {A = Result (Agent S) × (List (Agent S) × S)} (ok known, (created, s))
                (ok agent, later) =
              ground (arith, f, h) in
            ap (λ (r : Result (Agent S) × (List (Agent S) × S)). new_agent lib connect cfg' id r.1)
              (sym same)
            ∙ ground (arith, f)
            ∙ same
        | inl f ↦
            let made : Result (Option (Agent S)) × S =
              find_and_connect lib connect cfg.agents id s in
            elim (Result-cases (finish_agent lib connect cfg id made.0)) [
              | inr (x, g) ↦ absurd (ground (arith, f, g, h))
              | inl (a, g) ↦
                  let same : ◌≡◌ {A = Result (Agent S) × (List (Agent S) × S)}
                      (ok a, (created ++ (a ∷ []), made.1)) (ok agent, later) =
                    ground (arith, f, g, h) in
                  let known : find_created lib connect id (created ++ (a ∷ [])) ≡ some a =
                    find_created_last id created a f (ground (arith, same, e)) in
                  ap
                    (λ (r : Result (Agent S) × (List (Agent S) × S)).
                      new_agent lib connect cfg' id r.1)
                    (sym same)
                  ∙ ground (arith, known)
                  ∙ same
            ]
      ]
