-- ===== src/Upload/Registry.antt =====
-- New of internal/upload/agent.go: the agents that were made so far are kept, and found by their ID.
pub mod Laws
mod Tests
use achgateway.Base.{
  Text, txt, text_eq, new_error, Error, Result, ok, err, Bool, Option, none, some, List, [], ◌∷◌,
  ◌++◌, if◌then◌else◌,
}
use achgateway.Retry.{RetryLib}
use achgateway.Upload.{Agent}
use achgateway.Upload.Retry.{RetryAgent, UploadRetry, new_retry_agent, as_agent}

-- service.UploadAgent, with the settings of the transfers as the texts that they stand for.
pub record UploadAgent : Type 0 where
  pub id : Text
  pub ftp : Option Text
  pub sftp : Option Text
  pub mock : Bool

pub record UploadAgents : Type 0 where
  pub agents : List UploadAgent
  pub retry : Option UploadRetry

unfoldable pub find : Text → List UploadAgent → Option UploadAgent
unfolding text_eq
find id [] = none
find id (a ∷ agents) = let rest = find id agents in if text_eq a.id id then some a else rest

-- What makes an agent; it connects to the server.
pub record Connect (S : Type 0) : Type 0 where
  pub new_ftp : UploadAgent → S → Result (Agent S) × S
  pub new_sftp : UploadAgent → S → Result (Agent S) × S
  pub mock_agent : Agent S

module _ (lib : RetryLib) {S : Type 0} (connect : Connect S) where
  unfoldable pub find_created : Text → List (Agent S) → Option (Agent S)
  unfolding text_eq
  find_created id [] = none
  find_created id (a ∷ agents) =
      let rest = find_created id agents in if text_eq a.id id then some a else rest

  -- The agent of the settings read last, where there are several.
  unfoldable pub with_mock : UploadAgent → Option (Agent S) → Option (Agent S)
  with_mock conf agent = if conf.mock then some connect.mock_agent else agent

  unfoldable pub with_sftp : UploadAgent → Option (Agent S) → S → Result (Option (Agent S)) × S
  unfolding with_mock
  with_sftp conf agent s =
      let (made, t) = connect.new_sftp conf s in
      elim conf.sftp [
        | none ↦ (ok (with_mock conf agent), s)
        | some cfg ↦ (elim made [ err e ↦ err e | ok a ↦ ok (with_mock conf (some a)) ], t)
      ]

  unfoldable pub connect_agent : UploadAgent → S → Result (Option (Agent S)) × S
  unfolding with_sftp
  connect_agent conf s =
      let (made, t) = connect.new_ftp conf s in
      let plain = with_sftp conf none s in
      elim conf.ftp [
        | none ↦ plain
        | some cfg ↦ elim made [ err e ↦ (err e, t) | ok a ↦ with_sftp conf (some a) t ]
      ]

  unfoldable pub find_and_connect : List UploadAgent → Text → S → Result (Option (Agent S)) × S
  unfolding find connect_agent
  find_and_connect agents id s = elim (find id agents) [
    | none ↦ (ok none, s)
    | some conf ↦ connect_agent conf s
  ]

  -- A nil retry configuration leaves the agent as it is.
  unfoldable pub with_retry : Option UploadRetry → Agent S → Result (Agent S)
  unfolding new_retry_agent as_agent
  with_retry none agent = ok agent
  with_retry (some cfg) agent =
      let (retr, failed) = new_retry_agent agent (some cfg) in
      elim failed [
        | some e ↦ err e
        | none ↦ elim retr [ none ↦ ok agent | some rt ↦ ok (as_agent lib rt) ]
      ]

  unfoldable pub finish_agent : UploadAgents → Text → Result (Option (Agent S)) → Result (Agent S)
  unfolding with_retry
  finish_agent cfg id (err e) = err e
  finish_agent cfg id (ok none) = err (new_error (txt "upload: unknown Agent ID=" ++ id))
  finish_agent cfg id (ok (some agent)) = with_retry cfg.retry agent

  abbrev register : Result (Agent S) → List (Agent S) → List (Agent S)
  register (err e) created = created
  register (ok agent) created = created ++ (agent ∷ [])

  -- The agents made so far are the first part of the state. The liveness check that a new agent gets
  -- is left out.
  unfoldable pub new_agent :
      UploadAgents → Text → List (Agent S) × S → Result (Agent S) × (List (Agent S) × S)
  unfolding find_created find_and_connect finish_agent
  new_agent cfg id (created, s) =
      let (made, t) = find_and_connect cfg.agents id s in
      let agent = finish_agent cfg id made in
      elim (find_created id created) [
        | some known ↦ (ok known, (created, s))
        | none ↦ (agent, (register agent created, t))
      ]
