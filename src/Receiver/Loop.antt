-- ===== src/Receiver/Loop.antt =====
-- internal/pipeline/file_receiver.go, Start and the methods that it runs: messages come from two
-- subscriptions until the context is done.
pub mod Laws
mod Tests
use achgateway.Base.{
  Text, txt, text_contains, Error, errorf_v, is, canceled, Result, ok, err, Bool, true, false,
  Option, none, some, List, [], ◌∷◌, if◌then◌else◌,
}
use achgateway.Receiver.{Config, Receiver, is_network_error, set_services}
use achgateway.Receiver.Process.{process_message}
use achgateway.Receiver.Services.{Ports}

-- The calls of internal/incoming/stream. A subscription that is opened may be nil: `ok false`.
pub record Streams (S : Type 0) : Type 0 where
  pub has_http : Bool
  pub shutdown_http : S → Option Error × S
  pub shutdown_stream : S → Option Error × S
  pub open_subscription : S → Result Bool × S

-- The receiver, and whether its stream subscription is not nil.
pub record Running (S : Type 0) : Type 0 where
  pub receiver : Receiver S
  pub has_stream : Bool

-- What ends the select of a round: what Receive of a subscription gave (an error, and the body of a
-- message that is not nil), or the end of the context. The other subscription of the round may have
-- received a message by then: it is `dropped` where handleMessage finds its context cancelled, and
-- `late` where it is handled already, with a result that nobody reads.
pub data Wakeup : Type 0 where
  http : Option Error → Option Text → Wakeup
  stream : Option Error → Option Text → Wakeup
  dropped : Text → Wakeup
  late : Text → Wakeup
  done : Wakeup

module _ {F S : Type 0} (ports : Ports F S) (cfg : Config) (streams : Streams S) where
  unfoldable pub receive_message : Option Text → Receiver S → Option Error × Receiver S
  unfolding process_message
  receive_message none r = (none, r)
  receive_message (some body) r = process_message ports cfg body r

  -- What comes out of the channel of handleMessage: `none` while nothing does.
  unfoldable pub handle_message :
      Option Error → Option Text → Receiver S → Option (Option Error) × Receiver S
  unfolding receive_message is text_contains is_network_error
  handle_message none msg r = let (failed, r') = receive_message msg r in (some failed, r')
  handle_message (some e) msg r =
      let (failed, r') = receive_message msg r in
      if is e canceled
      then (none, r)
      else if text_contains e.message (txt "Subscription has been Shutdown")
      then (none, r)
      else if is_network_error e
      then (some (some e), r)
      else (some failed, r')

  unfoldable pub reconnect : Running S → Option Error × Running S
  reconnect l =
      let closed =
        if l.has_stream
        then (streams.shutdown_stream l.receiver.services).1
        else l.receiver.services in
      let (opened, t) = streams.open_subscription closed in
      let r = set_services ports cfg l.receiver t in
      elim opened [
        | err e ↦
            (some (errorf_v (txt "creating stream subscription: ") e), record l { receiver = r })
        | ok there ↦ (none, record { receiver = r; has_stream = there })
      ]

  -- A network error of the stream leads to a new subscription.
  unfoldable pub after_stream : Option (Option Error) → Running S → Running S
  unfolding is_network_error reconnect
  after_stream none l = l
  after_stream (some none) l = l
  after_stream (some (some e)) l = if is_network_error e then (reconnect l).1 else l

  unfoldable pub wake : Wakeup → Running S → Running S
  unfolding handle_message after_stream
  wake (http e msg) l = record l { receiver = (handle_message e msg l.receiver).1 }
  wake (stream e msg) l =
      let (out, r) = handle_message e msg l.receiver in after_stream out (record l { receiver = r })
  wake (dropped body) l = l
  wake (late body) l = record l { receiver = (process_message ports cfg body l.receiver).1 }
  wake done l = l

  unfoldable pub shut_down : Running S → Running S
  shut_down l =
      let s = l.receiver.services in
      let t = if streams.has_http then (streams.shutdown_http s).1 else s in
      let u = if l.has_stream then (streams.shutdown_stream t).1 else t in
      record l { receiver = set_services ports cfg l.receiver u }

  -- The loop of Start, over what its rounds meet and what goes on beside them.
  unfoldable pub start : List Wakeup → Running S → Running S
  unfolding wake shut_down
  start [] l = l
  start (done ∷ ws) l = shut_down l
  start (http e msg ∷ ws) l = start ws (wake (http e msg) l)
  start (stream e msg ∷ ws) l = start ws (wake (stream e msg) l)
  start (dropped body ∷ ws) l = start ws (wake (dropped body) l)
  start (late body ∷ ws) l = start ws (wake (late body) l)
