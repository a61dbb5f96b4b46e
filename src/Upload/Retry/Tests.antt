-- ===== src/Upload/Retry/Tests.antt =====
-- The theorems on uploads at concrete agents.
use achgateway.Base.{
  ℕ, ◌+◌, ◌≤◌, ◌≡◌, refl, Text, txt, is, inl, Error, new_error, timeout, Option, none, some, List,
  [], ◌∷◌, arith,
}
use achgateway.Retry.Loop.{counted_retry, counted_retry-IsRetryLib}
use achgateway.Upload.{Agent, File}
use achgateway.Upload.Retry.{RetryAgent, should_retry, upload_file}
use achgateway.Upload.Retry.Laws.{
  upload_file-swallows, upload_file-recovers, upload_file-bounded, now, later,
}

-- A server that answers from a script, and counts the calls.
record Server : Type 0 where
  calls : ℕ
  got : List Text
  answers : List Error

abbrev next_answer : List Error → Option Error × List Error
next_answer [] = (none, [])
next_answer (e ∷ es) = (some e, es)

abbrev answer : Server → Option Error × Server
answer s =
    let (e, rest) = next_answer s.answers in
    (e, record { calls = s.calls + 1; got = s.got; answers = rest })

-- An upload reads all that there is.
abbrev take_all : File → Server → Option Error × (Text × Server)
take_all f s = let (e, t) = answer s in (e, ([], record t { got = f.contents ∷ t.got }))

abbrev scripted : Agent Server
scripted = record {
  id = txt "sftp";
  hostname = txt "bank";
  inbound_path = txt "inbound";
  outbound_path = txt "outbound";
  reconciliation_path = txt "reconciliation";
  return_path = txt "returned";
  get_inbound_files = λ s. (([], none), s);
  get_reconciliation_files = λ s. (([], none), s);
  get_return_files = λ s. (([], none), s);
  upload_file = take_all;
  delete = λ path. answer;
  read_file = λ path s. let (e, t) = answer s in ((none, e), t);
  ping = λ s. (none, s);
  close = λ s. (none, s);
}

abbrev agent : RetryAgent Server
agent = record { cfg = record { interval = 5; max_retries = 2 }; underlying = scripted }

abbrev file : File
file = record { filepath = txt "A.ach"; contents = txt "101" }

abbrev denied : Error
denied = new_error (txt "permission denied")

abbrev slow : Error
slow = record { message = txt "i/o"; wraps = timeout ∷ [] }

abbrev server : List Error → Server
server es = record { calls = 0; got = []; answers = es }

-- The upload was refused, and the agent says that it went well.
upload_file-swallows_example :
    upload_file counted_retry agent file (server (denied ∷ []))
    ≡ (none, ([], record { calls = 1; got = txt "101" ∷ []; answers = [] }))
unfolding should_retry
upload_file-swallows_example =
    upload_file-swallows counted_retry counted_retry-IsRetryLib agent (omega arith) file
      (server (denied ∷ [])) ([], record { calls = 1; got = txt "101" ∷ []; answers = [] }) denied
      refl refl

-- The attempt that succeeds was given no contents.
abbrev after : ℕ → List Text → List Error → Text × Server
after n got es = ([], record { calls = n; got = got; answers = es })

upload_file-recovers_example :
    upload_file counted_retry agent file (server (slow ∷ slow ∷ []))
    ≡ (none, after 3 ([] ∷ [] ∷ txt "101" ∷ []) [])
unfolding is
upload_file-recovers_example =
    upload_file-recovers counted_retry counted_retry-IsRetryLib agent (omega arith) file
      (server (slow ∷ slow ∷ [])) (after 3 ([] ∷ [] ∷ txt "101" ∷ []) []) 2
      (later (txt "101", server (slow ∷ slow ∷ [])) (after 1 (txt "101" ∷ []) (slow ∷ [])) slow refl
        (inl refl)
        (later (after 1 (txt "101" ∷ []) (slow ∷ [])) (after 2 ([] ∷ txt "101" ∷ []) []) slow refl
          (inl refl)
          (now (after 2 ([] ∷ txt "101" ∷ []) []) (after 3 ([] ∷ [] ∷ txt "101" ∷ []) []) refl)))
      (omega arith)

upload_file-bounded_example :
    (upload_file counted_retry agent file (server (slow ∷ slow ∷ slow ∷ slow ∷ []))).1.1.calls
    ≤ 0 + 2 + 1
upload_file-bounded_example =
    upload_file-bounded counted_retry counted_retry-IsRetryLib agent (omega arith) file
      (λ s. s.calls) (λ g s. refl) (server (slow ∷ slow ∷ slow ∷ slow ∷ []))
