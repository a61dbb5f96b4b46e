-- ===== src/Web/Tests.antt =====
-- Submissions to a controller that counts the messages that were published.
use achgateway.Base.{
  ℕ, ◌+◌, Text, txt, trim_suffix, new_error, ok, none, some, List, [], ◌∷◌, ◌++◌, ◌≡◌, refl, true,
  false,
}
use achgateway.Compliance.{Codecs}
use achgateway.Incoming.{QueueAchFileResponse, FileCancellationResponse}
use achgateway.Web.{
  HttpConfig, Request, Ports, FilesController, file_timeout, read_body, decode_file, publish_file,
  cancel_file, create_file_handler, cancel_file_handler,
}
use achgateway.Web.Answers.{create_is_answered, suffixed_times_out, cancel_is_answered}
use achgateway.Web.Waiting.{
  Step, requested, responded, empty, find, received, register, respond, step, run,
}
use achgateway.Web.Waiting.Laws.{empty-IsOrderly, sending_never_blocks}

abbrev codecs : Codecs
codecs = record {
  Block = Text;
  Gcm = Text;
  new_cipher = λ key. ok key;
  new_gcm = λ key. ok key;
  nonce_size = λ key. 0;
  random = λ n. ok [];
  seal = λ key nonce bytes. bytes;
  unseal = λ key nonce message. ok message;
  gzip_write = λ bytes. none;
  gzip_close = λ bytes. none;
  gzip_bytes = λ bytes. bytes;
  gzip_open = λ bytes. none;
  is_header_error = λ e. false;
  gzip_read = λ bytes. (bytes, none);
  base64_encode = λ bytes. bytes;
  base64_decode = λ bytes. ok bytes;
}

-- Every text is a file in the Nacha format.
abbrev ports : Ports Text Text ℕ
ports = record {
  codecs = codecs;
  read_all = λ limit body. ok body;
  read_ach = λ bs. ok bs;
  file_from_json = λ bs. (none, some (new_error (txt "no JSON")));
  marshal = λ event. ok (txt "event");
  send = λ message s. (none, s + 1);
}

abbrev cfg : HttpConfig
cfg = record { max_body_bytes = 0; transform = none }

abbrev controller : FilesController ℕ
controller = record { queue_files = empty; cancellations = empty; services = 0 }

abbrev request : Text → Request Text
request id = record { shard_key = txt "s"; file_id = id; body = txt "101" }

abbrev queued : Text → QueueAchFileResponse
queued id = record { file_id = id; shard_key = txt "s"; error = [] }

abbrev canceled : Text → FileCancellationResponse
canceled id = record { file_id = id; shard_key = txt "s"; successful = true }

-- Another file is submitted and answered before.
abbrev others : {R : Type 0} → (Text → R) → List (Step R)
others answer = requested (txt "fg") ∷ responded (txt "fg") (answer (txt "fg")) ∷ []

create_is_answered_example :
    (create_file_handler ports cfg
      (request (txt "f"))
      (others queued ++ (responded (txt "f") (queued (txt "f")) ∷ []))
      controller).0
    ≡ record { status = 200; response = some (queued (txt "f")) }
unfolding read_body decode_file publish_file trim_suffix
create_is_answered_example =
    create_is_answered ports cfg (request (txt "f")) (others queued) [] (queued (txt "f"))
      controller {bs = txt "101"} {file = txt "101"} empty-IsOrderly ((λ e. cc e), (λ e. cc e)) refl
      refl refl refl ((λ e. cc e), ((λ e. cc e), tt))

suffixed_times_out_example :
    (create_file_handler ports cfg
      (request (txt "f.ach"))
      (responded (txt "f.ach") (queued (txt "f.ach")) ∷ [])
      controller).0
    ≡ record { status = 200; response = some (file_timeout (txt "s") (txt "f.ach")) }
unfolding read_body decode_file publish_file trim_suffix
suffixed_times_out_example =
    suffixed_times_out ports cfg (request (txt "f.ach")) (txt "f")
      (responded (txt "f.ach") (queued (txt "f.ach")) ∷ []) controller {bs = txt "101"}
      {file = txt "101"} empty-IsOrderly ((λ e. cc e), (λ e. cc e)) refl refl refl refl
      ((λ e. cc e), tt)

cancel_is_answered_example :
    (cancel_file_handler ports cfg
      (request (txt "f.ach"))
      (others canceled ++ (responded (txt "f") (canceled (txt "f")) ∷ []))
      controller).0
    ≡ record { status = 200; response = some (canceled (txt "f")) }
unfolding cancel_file trim_suffix
cancel_is_answered_example =
    cancel_is_answered ports cfg (request (txt "f.ach")) (others canceled) [] (canceled (txt "f"))
      controller empty-IsOrderly ((λ e. cc e), (λ e. cc e)) refl refl
      ((λ e. cc e), ((λ e. cc e), tt))

-- A response that comes while two files wait.
sending_never_blocks_example :
    received 1
      (run
        (requested (txt "f") ∷ requested (txt "fg") ∷ responded (txt "f") (queued (txt "f")) ∷ [])
        empty).sent
    ≡ none
unfolding run step register respond find
sending_never_blocks_example =
    sending_never_blocks
      (requested (txt "f") ∷ requested (txt "fg") ∷ responded (txt "f") (queued (txt "f")) ∷ [])
      (txt "fg") 1 refl
