-- ===== src/Session/Broker/Sessions/Steps.antt =====
-- The steps that receive and send within a session leave the links as they are.
use pbns.Common.{◌^◌, ◌*◌, ◌<◌, ℕ, ◌+◌, Bool, Option, none, some, List, arith}
use pbns.Common.Memory.{View, Pointer}
use pbns.Common.Actions.Keeps.{Keeps}
use pbns.Wire.Frame.{Frame, Decoded}
use pbns.Session.Broker.Types.{Transport, Platform, ErrorCodec}
use pbns.Session.Broker.RemoteError.{decode_remote_error}
use pbns.Session.Broker.RemoteError.Leaving.{decode_remote_error-Leaving}
use pbns.Session.Broker.Receive.{
  push_unread, decoded_frame, decode_frame, accept_frame, deliver, take_response, receive,
}
use pbns.Session.Broker.Bulk.{count_bulk, take_bulk, fail_bulk, bulk_round, send_ack}
use pbns.Session.Broker.Sessions.Rounds.{read_record-Keeps}
use pbns.Session.Broker.Upload.{upload_frames, upload_answer}
use pbns.Session.Broker.Sessions.{
  Promises, Holds, session_rules, remaining_timeout-Keeps, emit-Keeps, encode_frame-Keeps,
  send_encoded-Keeps,
}

module _ {W : Type 0} {links : W → ℕ} {o a : Bool} {n : ℕ} where
  decode_remote_error-Keeps :
      {A : Type 0} (c : ErrorCodec) (payload : List ℕ) (s : ℕ)
      → Keeps (Holds links o a n) (decode_remote_error c {A = A} payload s)
  decode_remote_error-Keeps c payload s =
      decode_remote_error-Leaving
        (λ d u k. record {
          initialized = k.initialized;
          opened = k.opened;
          active = k.active;
          counted = k.counted;
          filled = k.filled;
          bounded = k.bounded;
        })
        c payload s

  pub push_unread-Keeps : Keeps (Holds links o a n) push_unread
  unfolding push_unread
  push_unread-Keeps = record { triple = record { at = λ s k. ground arith } }

  decoded_frame-Keeps : (d : Option Decoded) → Keeps (Holds links o a n) (decoded_frame d)
  unfolding decoded_frame
  decoded_frame-Keeps none = search session_rules
  decoded_frame-Keeps (some d) = search session_rules

  decode_frame-Keeps : (r : View) → Keeps (Holds links o a n) (decode_frame r)
  unfolding decode_frame
  decode_frame-Keeps r = search (session_rules, decoded_frame-Keeps)

  accept_frame-Keeps : (f : Frame) (v : View) → Keeps (Holds links o a n) (accept_frame f v)
  unfolding accept_frame
  accept_frame-Keeps f v = search session_rules

  deliver-Keeps : (f : Frame) (v : View) → Keeps (Holds links o a n) (deliver f v)
  unfolding deliver
  deliver-Keeps f v = search session_rules

  pub take_response-Keeps :
      (c : ErrorCodec) (r : View) → Keeps (Holds links o a n) (take_response c r)
  unfolding take_response
  take_response-Keeps c r =
      search
        (
          session_rules, decode_frame-Keeps, accept_frame-Keeps, decode_remote_error-Keeps,
          deliver-Keeps,
        )
        depth 12

  count_bulk-Keeps : (f : Frame) (v : View) → Keeps (Holds links o a n) (count_bulk f v)
  unfolding count_bulk
  count_bulk-Keeps f v = search session_rules depth 8

  pub fail_bulk-Keeps : Keeps (Holds links o a n) fail_bulk
  unfolding fail_bulk
  fail_bulk-Keeps = search session_rules

  pub take_bulk-Keeps : (c : ErrorCodec) (r : View) → Keeps (Holds links o a n) (take_bulk c r)
  unfolding take_bulk
  take_bulk-Keeps c r =
      search
        (
          session_rules, decode_frame-Keeps, accept_frame-Keeps, decode_remote_error-Keeps,
          count_bulk-Keeps, deliver-Keeps,
        )
        depth 12

module _ {W : Type 0} {links ticks : W → ℕ} {rate : ℕ} {o a : Bool} {n : ℕ} {t : Transport W}
    {p : Platform W} (c : Promises t p links ticks rate) where
  pub send_ack-Keeps : (f : Frame) (v : View) → Keeps (Holds links o a n) (send_ack t p f v)
  unfolding send_ack
  send_ack-Keeps f v =
      search (session_rules, remaining_timeout-Keeps, encode_frame-Keeps, send_encoded-Keeps)

  pub upload_frames-Keeps :
      (v : View) (final : Bool) → Keeps (Holds links o a n) (upload_frames t p v final)
  unfolding upload_frames
  upload_frames-Keeps v final = search (session_rules, emit-Keeps) depth 10

  module _ {fuel : ℕ} (enough : rate * 2 ^ 64 + 1 < fuel) where
    pub receive-Keeps :
        (codec : ErrorCodec) (r : Pointer) → Keeps (Holds links o a n) (receive t p codec fuel r)
    unfolding receive
    receive-Keeps codec r =
        search (session_rules, read_record-Keeps c fuel enough, take_response-Keeps) depth 8

    pub bulk_round-Keeps :
        (codec : ErrorCodec) → Keeps (Holds links o a n) (bulk_round t p codec fuel)
    unfolding bulk_round
    bulk_round-Keeps codec =
        search (session_rules, read_record-Keeps c fuel enough, take_bulk-Keeps)

    pub upload_answer-Keeps :
        (codec : ErrorCodec) → Keeps (Holds links o a n) (upload_answer t p codec fuel)
    unfolding upload_answer
    upload_answer-Keeps codec = search (session_rules, receive-Keeps)
