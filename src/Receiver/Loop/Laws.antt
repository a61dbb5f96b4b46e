-- ===== src/Receiver/Loop/Laws.antt =====
-- How often the loop of the file receiver acknowledges messages.
use achgateway.Base.{ℕ, ◌+◌, ◌≤◌, Text, Error, Option, none, some, List, [], ◌∷◌, ◌≡◌, refl, arith}
use achgateway.Receiver.{Config, Receiver}
use achgateway.Receiver.Acks.{acks-process_message}
use achgateway.Receiver.Services.{Ports}
use achgateway.Receiver.Loop.{
  Streams, Running, Wakeup, http, stream, dropped, late, done, receive_message, handle_message,
  reconnect, after_stream, wake, shut_down, start,
}

abbrev pub message_count : Option Text → ℕ
message_count none = 0
message_count (some body) = 1

-- The messages that are handled before the context is done.
abbrev pub handled : List Wakeup → ℕ
handled [] = 0
handled (http e msg ∷ ws) = message_count msg + handled ws
handled (stream e msg ∷ ws) = message_count msg + handled ws
handled (dropped body ∷ ws) = handled ws
handled (late body ∷ ws) = 1 + handled ws
handled (done ∷ ws) = 0

module _ {F S : Type 0} (ports : Ports F S) (cfg : Config) (streams : Streams S) where
  acks-receive_message :
      (msg : Option Text) (r : Receiver S)
      → (receive_message ports cfg streams msg r).1.acks ≤ r.acks + message_count msg
  unfolding receive_message
  acks-receive_message none r = omega arith
  acks-receive_message (some body) r = ground (arith, acks-process_message ports cfg body r)

  acks-handle_message :
      (e : Option Error) (msg : Option Text) (r : Receiver S)
      → (handle_message ports cfg streams e msg r).1.acks ≤ r.acks + message_count msg
  unfolding handle_message
  acks-handle_message none msg r = acks-receive_message msg r
  acks-handle_message (some e) msg r = ground (arith, acks-receive_message msg r)

  acks-after_stream :
      (out : Option (Option Error)) (l : Running S)
      → (after_stream ports cfg streams out l).receiver.acks ≡ l.receiver.acks
  unfolding after_stream reconnect
  acks-after_stream none l = refl
  acks-after_stream (some none) l = refl
  acks-after_stream (some (some e)) l = ground arith

  acks-stream :
      (e : Option Error) (msg : Option Text) (l : Running S)
      → (wake ports cfg streams (stream e msg) l).receiver.acks
        ≤ l.receiver.acks + message_count msg
  unfolding wake
  acks-stream e msg l =
      let r : Option (Option Error) × Receiver S =
        handle_message ports cfg streams e msg l.receiver in
      omega (
        arith,
        acks-handle_message e msg l.receiver,
        acks-after_stream r.0 (record l { receiver = r.1 }),
      )

  -- The file receiver acknowledges no more often than there are messages that it handles, errors
  -- and new connections included: what it dropped because the other subscription ended the round,
  -- and what arrives once the context is done, does not count.
  pub acks-start :
      (ws : List Wakeup) (l : Running S)
      → (start ports cfg streams ws l).receiver.acks ≤ l.receiver.acks + handled ws
  unfolding start wake shut_down
  acks-start [] l = omega arith
  acks-start (done ∷ ws) l = omega arith
  acks-start (http e msg ∷ ws) l = omega (
    arith,
    acks-start ws (wake ports cfg streams (http e msg) l),
    acks-handle_message e msg l.receiver,
  )
  acks-start (stream e msg ∷ ws) l =
      omega (arith, acks-start ws (wake ports cfg streams (stream e msg) l), acks-stream e msg l)
  acks-start (dropped body ∷ ws) l = acks-start ws l
  acks-start (late body ∷ ws) l = omega (
    arith,
    acks-start ws (wake ports cfg streams (late body) l),
    acks-receive_message (some body) l.receiver,
  )
