-- ===== src/Web/Answers.antt =====
-- What the answers to the requests are, in internal/incoming/web/api_files.go.
use achgateway.Base.{
  Text, txt, text_eq_iff, text_eq_refl, trim_suffix, trim_suffix_twice, ok, none, some, List, [],
  ◌∷◌, ◌++◌, ◌≡◌, ◌≢◌, sym, ap, ◌∙◌, subst, arith, All,
}
use achgateway.Incoming.{QueueAchFileResponse, FileCancellationResponse}
use achgateway.Web.{
  HttpConfig, Request, Ports, FilesController, answer_of, read_body, decode_file, publish_file,
  cancel_file, file_timeout, cancel_timeout, submit_file, create_file_handler, submit_cancellation,
  cancel_file_handler,
}
use achgateway.Web.Waiting.{Pending, Step, requested, responded, register, run}
use achgateway.Web.Waiting.Laws.{IsOrderly, find-register, register-IsOrderly}
use achgateway.Web.Waiting.Answers.{
  IsApart, IsUnanswered, run_answered, run-IsQuiet, registered-IsQuiet,
}

-- A request that names a shard and a file.
abbrev pub IsNamed : {B : Type 0} → Request B → Type 0
IsNamed req = (req.shard_key ≢ []) × (req.file_id ≢ [])

-- A step that is no response for a file ID.
abbrev pub IsNotFor : {R : Type 0} → Text → Step R → Type 0
IsNotFor id (requested k) = Unit
IsNotFor id (responded k resp) = k ≢ id

IsUnanswered-once :
    {R : Type 0} (id : Text) (steps : List (Step R))
    → All (IsNotFor ((id ++ txt ".ach") ++ txt ".ach")) steps
    → All (IsUnanswered (id ++ txt ".ach")) steps
IsUnanswered-once id [] a = tt
IsUnanswered-once id (requested k ∷ steps) a = (tt, IsUnanswered-once id steps a.1)
IsUnanswered-once id (responded k resp ∷ steps) a =
    ((λ e. a.0 (trim_suffix_twice k id (txt ".ach") e)), IsUnanswered-once id steps a.1)

module _ {R : Type 0} where
  -- The answer to a request whose response arrives.
  answered :
      (before : List (Step R)) (id : Text) (resp timeout : R) (later : List (Step R))
      (p : Pending R)
      → IsOrderly p
      → All (IsApart (trim_suffix id (txt ".ach"))) before
      → answer_of p.made timeout
          (run (before ++ (responded id resp ∷ later)) (register (trim_suffix id (txt ".ach")) p))
        ≡ record { status = 200; response = some resp }
  unfolding answer_of
  answered before id resp timeout later p h a =
      let key : Text = trim_suffix id (txt ".ach") in
      rw (
        run_answered before id resp later (register key p) p.made (register-IsOrderly key p h)
          (ground (arith, find-register key key p, text_eq_refl key)) a)

  unanswered :
      (steps : List (Step R)) (id : Text) (timeout : R) (p : Pending R)
      → IsOrderly p
      → All (IsUnanswered id) steps
      → answer_of p.made timeout (run steps (register id p))
        ≡ record { status = 200; response = some timeout }
  unfolding answer_of
  unanswered steps id timeout p h a =
      rw ((run-IsQuiet steps id p.made (register id p) a (registered-IsQuiet id p h)).got_nothing)

module _ {F B S : Type 0} (ports : Ports F B S) (cfg : HttpConfig) where
  create-submits :
      (req : Request B) (meanwhile : List (Step QueueAchFileResponse)) (c : FilesController S)
      (bs : Text) (file : F)
      → IsNamed req
      → read_body ports cfg req.body ≡ ok bs
      → decode_file ports cfg bs ≡ some file
      → (publish_file ports cfg req.shard_key req.file_id file c).0 ≡ none
      → (create_file_handler ports cfg req meanwhile c).0
        ≡ answer_of c.queue_files.made
            (file_timeout req.shard_key req.file_id)
            (run meanwhile (register req.file_id c.queue_files))
  unfolding create_file_handler submit_file publish_file
  create-submits req meanwhile c bs file n r d e =
      ground (arith, n.0, n.1, r, d, e, text_eq_iff req.shard_key [], text_eq_iff req.file_id [])

  -- A file that can be read and is published is answered with the first response that comes for its
  -- ID, or for its ID with ".ach", whatever other requests and responses come before, and whatever
  -- comes later, where no other request asks for that ID before.
  pub create_is_answered :
      (req : Request B) (before later : List (Step QueueAchFileResponse))
      (resp : QueueAchFileResponse) (c : FilesController S) {bs : Text} {file : F}
      → IsOrderly c.queue_files
      → IsNamed req
      → read_body ports cfg req.body ≡ ok bs
      → decode_file ports cfg bs ≡ some file
      → (publish_file ports cfg req.shard_key req.file_id file c).0 ≡ none
      → trim_suffix resp.file_id (txt ".ach") ≡ req.file_id
      → All (IsApart req.file_id) before
      → (create_file_handler ports cfg req (before ++ (responded resp.file_id resp ∷ later)) c).0
        ≡ record { status = 200; response = some resp }
  create_is_answered req before later resp c {bs} {file} h n r d e t a =
      let steps : List (Step QueueAchFileResponse) =
        before ++ (responded resp.file_id resp ∷ later) in
      let timeout : QueueAchFileResponse = file_timeout req.shard_key req.file_id in
      create-submits req steps c bs file n r d e
      ∙ ap
          (λ (id : Text).
            answer_of c.queue_files.made timeout (run steps (register id c.queue_files)))
          (sym t)
      ∙ answered before resp.file_id resp timeout later c.queue_files h
          (subst (λ (id : Text). All (IsApart id) before) (sym t) a)

  -- A file that is submitted under an ID with ".ach" behind it, can be read and is published is
  -- answered with "timeout exceeded", whatever responses come for it: only a response for the ID
  -- with another ".ach" would arrive.
  pub suffixed_times_out :
      (req : Request B) (id : Text) (meanwhile : List (Step QueueAchFileResponse))
      (c : FilesController S) {bs : Text} {file : F}
      → IsOrderly c.queue_files
      → IsNamed req
      → req.file_id ≡ id ++ txt ".ach"
      → read_body ports cfg req.body ≡ ok bs
      → decode_file ports cfg bs ≡ some file
      → (publish_file ports cfg req.shard_key req.file_id file c).0 ≡ none
      → All (IsNotFor (req.file_id ++ txt ".ach")) meanwhile
      → (create_file_handler ports cfg req meanwhile c).0
        ≡ record { status = 200; response = some (file_timeout req.shard_key req.file_id) }
  suffixed_times_out req id meanwhile c {bs} {file} h n t r d e a =
      let timeout : QueueAchFileResponse = file_timeout req.shard_key req.file_id in
      create-submits req meanwhile c bs file n r d e
      ∙ unanswered meanwhile req.file_id timeout c.queue_files h (
          subst (λ (k : Text). All (IsUnanswered k) meanwhile) (sym t)
            (IsUnanswered-once id meanwhile
              (subst (λ (k : Text). All (IsNotFor (k ++ txt ".ach")) meanwhile) t a)))

  cancel-submits :
      (req : Request B) (meanwhile : List (Step FileCancellationResponse)) (c : FilesController S)
      → IsNamed req
      → (cancel_file ports cfg req.shard_key (trim_suffix req.file_id (txt ".ach")) c).0 ≡ none
      → (cancel_file_handler ports cfg req meanwhile c).0
        ≡ answer_of c.cancellations.made
            (cancel_timeout req.shard_key (trim_suffix req.file_id (txt ".ach")))
            (run meanwhile (register (trim_suffix req.file_id (txt ".ach")) c.cancellations))
  unfolding cancel_file_handler submit_cancellation cancel_file
  cancel-submits req meanwhile c n e =
      ground (arith, n.0, n.1, e, text_eq_iff req.shard_key [], text_eq_iff req.file_id [])

  -- A cancellation that is published is answered with the first response for its ID, where both may
  -- have an ".ach" behind it, and no other request asks for that ID before.
  pub cancel_is_answered :
      (req : Request B) (before later : List (Step FileCancellationResponse))
      (resp : FileCancellationResponse) (c : FilesController S)
      → IsOrderly c.cancellations
      → IsNamed req
      → (cancel_file ports cfg req.shard_key (trim_suffix req.file_id (txt ".ach")) c).0 ≡ none
      → trim_suffix resp.file_id (txt ".ach") ≡ trim_suffix req.file_id (txt ".ach")
      → All (IsApart (trim_suffix req.file_id (txt ".ach"))) before
      → (cancel_file_handler ports cfg req (before ++ (responded resp.file_id resp ∷ later)) c).0
        ≡ record { status = 200; response = some resp }
  cancel_is_answered req before later resp c h n e t a =
      let steps : List (Step FileCancellationResponse) =
        before ++ (responded resp.file_id resp ∷ later) in
      let key : Text = trim_suffix req.file_id (txt ".ach") in
      let timeout : FileCancellationResponse = cancel_timeout req.shard_key key in
      cancel-submits req steps c n e
      ∙ ap
          (λ (id : Text).
            answer_of c.cancellations.made timeout (run steps (register id c.cancellations)))
          (sym t)
      ∙ answered before resp.file_id resp timeout later c.cancellations h
          (subst (λ (id : Text). All (IsApart id) before) (sym t) a)
