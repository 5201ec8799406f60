-- ===== src/Session/Broker/RemoteError/Leaving.antt =====
-- The reading of a remote error changes nothing but the storage of the decoded payload.
use pbns.Common.{ℕ, Option, none, some, List, Error}
use pbns.Common.Memory.{Buffer}
use pbns.Common.Actions.Triples.{Contract, Triple-gets, Triple-change, Triple-bind, Triple-raise}
use pbns.Common.Actions.Keeps.{Leaving, keeps_rules}
use pbns.Session.Broker.Types.{ErrorCodec, Broker, Live, the_broker, update}
use pbns.Session.Broker.RemoteError.{
  expect, next_labeled_item, compare_canonical, remote_error_code, decode_remote_error,
}

module _ {W : Type 0} {U P : Live W → Type 0} where
  expect-Leaving : {A : Type 0} (o : Option A) (e : Error) → Leaving U P (expect o e)
  unfolding expect
  expect-Leaving none e = search keeps_rules
  expect-Leaving (some a) e = search keeps_rules

  read-Leaving : Leaving U P the_broker
  unfolding the_broker
  read-Leaving = record { triple = Triple-gets _ (λ s h. h) }

  next_labeled_item-Leaving :
      (c : ErrorCodec) (payload : List ℕ) (i l : ℕ) → Leaving U P (next_labeled_item c payload i l)
  unfolding next_labeled_item
  next_labeled_item-Leaving c payload i l = search (keeps_rules, expect-Leaving)

module _ {W : Type 0} {U P : Live W → Type 0}
    (stable : (d : Buffer) (s : Live W)
      → P s
      → P (record s { broker = record s.broker { decoded = d } })) where
  decoded-Leaving : (f : Broker → Buffer) → Leaving U P (update λ c. record c { decoded = f c })
  unfolding update
  decoded-Leaving f = record { triple = Triple-change _ (λ s h. stable (f s.broker) s h) }

  compare_canonical-Leaving :
      (c : ErrorCodec) (payload : List ℕ) (code service : ℕ) (detail : List ℕ)
      → Leaving U P (compare_canonical c payload code service detail)
  unfolding compare_canonical
  compare_canonical-Leaving c payload code service detail =
      search (keeps_rules, expect-Leaving, read-Leaving, decoded-Leaving)

  remote_error_code-Leaving :
      (c : ErrorCodec) (payload : List ℕ) (s : ℕ) → Leaving U P (remote_error_code c payload s)
  unfolding remote_error_code
  remote_error_code-Leaving c payload s =
      search (keeps_rules, expect-Leaving, next_labeled_item-Leaving, compare_canonical-Leaving)
        depth 16

  pub decode_remote_error-Leaving :
      {A : Type 0} (c : ErrorCodec) (payload : List ℕ) (s : ℕ)
      → Leaving U P (decode_remote_error c {A = A} payload s)
  unfolding decode_remote_error
  decode_remote_error-Leaving c payload s = search (keeps_rules, remote_error_code-Leaving)

  -- It never returns.
  pub decode_remote_error-raises :
      {A : Type 0} (c : ErrorCodec) (payload : List ℕ) (s : ℕ)
      → Contract P (decode_remote_error c {A = A} payload s) (λ _ _. ⊥) (λ _ s. P s) U
  unfolding decode_remote_error
  decode_remote_error-raises c payload s =
      Triple-bind (remote_error_code-Leaving c payload s).triple
        λ code. Triple-raise code (λ s h. h)
