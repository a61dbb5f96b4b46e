-- ===== src/Notify/Tests.antt =====
-- The notification theorems at a notifier that is always refused. The state counts the calls.
use achgateway.Base.{
  ℕ, ◌+◌, Text, txt, Error, new_error, false, none, some, [], ◌∷◌, ◌≡◌, refl, arith,
}
use achgateway.Retry.Loop.{counted_retry, counted_retry-IsRetryLib}
use achgateway.Notify.{Sender, MultiSender, should_retry, critical}
use achgateway.Notify.Laws.{critical-swallows}

abbrev denied : Error
denied = new_error (txt "401 unauthorized")

abbrev refused : Sender ℕ
refused = record { info = λ msg n. (some denied, n + 1); critical = λ msg n. (some denied, n + 1) }

abbrev show : ℕ → Text
show n = txt "5s"

abbrev retrying : MultiSender ℕ
retrying = record {
  senders = refused ∷ refused ∷ [];
  retry_config = some (record { interval = 5; max_retries = 3 });
}

abbrev plain : MultiSender ℕ
plain = record { senders = refused ∷ refused ∷ []; retry_config = none }

denied-permanent : should_retry denied ≡ false
unfolding should_retry
denied-permanent = refl

critical-swallows_example : (critical counted_retry show retrying (txt "A.ach") 0).0 ≡ none
critical-swallows_example =
    critical-swallows counted_retry counted_retry-IsRetryLib show retrying (txt "A.ach") refl
      (omega arith)
      ((λ s. (denied, refl, denied-permanent)), ((λ s. (denied, refl, denied-permanent)), tt)) 0
