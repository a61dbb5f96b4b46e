-- ===== src/Upload/Registry/Tests.antt =====
-- An SFTP agent that is asked for twice.
use achgateway.Base.{
  ℕ, ◌+◌, txt, text_eq, ok, err, new_error, false, none, some, [], ◌∷◌, ◌≡◌, refl,
}
use achgateway.Retry.Loop.{counted_retry}
use achgateway.Upload.{Agent}
use achgateway.Upload.Registry.{
  UploadAgent, UploadAgents, Connect, find, find_created, with_mock, with_sftp, connect_agent,
  find_and_connect, with_retry, finish_agent, new_agent,
}
use achgateway.Upload.Registry.Laws.{new_agent_once}

abbrev sftp : Agent ℕ
sftp = record {
  id = txt "bank";
  hostname = txt "sftp.bank.com";
  inbound_path = txt "inbound";
  outbound_path = txt "outbound";
  reconciliation_path = txt "reconciliation";
  return_path = txt "returned";
  get_inbound_files = λ s. (([], none), s);
  get_reconciliation_files = λ s. (([], none), s);
  get_return_files = λ s. (([], none), s);
  upload_file = λ f s. (none, ([], s));
  delete = λ path s. (none, s);
  read_file = λ path s. ((none, none), s);
  ping = λ s. (none, s);
  close = λ s. (none, s);
}

-- The state counts the connections.
abbrev connect : Connect ℕ
connect = record {
  new_ftp = λ conf s. (err (new_error (txt "refused")), s);
  new_sftp = λ conf s. (ok sftp, s + 1);
  mock_agent = sftp;
}

abbrev bank : UploadAgent
bank = record { id = txt "bank"; ftp = none; sftp = some (txt "sftp.bank.com"); mock = false }

abbrev cfg : UploadAgents
cfg = record { agents = bank ∷ []; retry = none }

new_agent_once_example :
    new_agent counted_retry connect cfg (txt "bank") (sftp ∷ [], 1) ≡ (ok sftp, (sftp ∷ [], 1))
unfolding new_agent find_created find_and_connect find connect_agent with_sftp with_mock
    finish_agent with_retry text_eq
new_agent_once_example = new_agent_once counted_retry connect cfg cfg (txt "bank") [] 0 refl refl
