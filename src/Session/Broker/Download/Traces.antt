-- ===== src/Session/Broker/Download/Traces.antt =====
-- The chunks of a download, with its acknowledgements in any order.
use pbns.Common.{
  subst, ℕ, ◌+◌, ◌^◌, ◌<◌, ◌≡◌, refl, sym, ◌∙◌, Bool, true, false, not, ◌||◌, Option, some, ok,
  List, [], ◌∷◌, ◌==◌, state, arith, Bool-cases, inl, inr,
}
use pbns.Common.Memory.{View, given}
use pbns.Session.Broker.Storage
use pbns.Session.Broker.Sessions.Calls.{Call, run}
use pbns.Session.Broker.Download.Begins.{run-Begun}
use pbns.Common.Actions.{Answer, returns, fails, unfinished, settle}
use pbns.Common.Actions.Triples.{Leaves}
use pbns.Session.Broker.Types.{
  Transport, Platform, ErrorCodec, BrokerStorage, Broker, Live, Response, the_broker,
}
use pbns.Session.Broker.Bulk.{bulk_begin, bulk_receive, bulk_ack, bulk_finish}
use pbns.Session.Broker.Download.Exact.{data_bytes}
use pbns.Session.Broker.Download.{fails-ne-returns}
use pbns.Session.Broker.Download.Counting.{Counting, bulk_receive-Counting, bulk_ack-Counting}

left_Counting :
    {W : Type 0} (n total : ℕ) (a : Answer Unit) (u : Live W)
    → Leaves (λ _ v. Counting n total v) (λ _ v. Counting n total v) (λ v. Counting n total v) a u
    → Counting n total u
left_Counting n total (returns x) u h = h
left_Counting n total (fails e) u h = h
left_Counting n total unfinished u h = h

-- The guard of `bulk_finish`.
abbrev cannot_finish : Broker → Bool
cannot_finish b =
    not b.initialized
    || not b.active
    || not b.bulk_mode
    || b.bulk_failed
    || not b.stream.complete
    || not (b.bulk_received_data_size == b.bulk_exact_data_size)

-- The calls of a download.
pub data DownloadCall : Type 0 where
  take_chunk : DownloadCall
  acknowledge : ℕ → ℕ → ℕ → DownloadCall

abbrev delivered : Answer Response → List Response → List Response
delivered (returns r) rs = r ∷ rs
delivered _ rs = rs

-- The data in what was delivered.
abbrev pub data_total : List Response → ℕ
data_total [] = 0
data_total (r ∷ rs) = data_bytes r.frame r.payload + data_total rs

module _ {W : Type 0} (t : Transport W) (p : Platform W) (codec : ErrorCodec) (fuel : ℕ) where
  -- What a sequence of calls delivers, and the state after it.
  unfoldable pub download : List DownloadCall → Live W → List Response × Live W
  download [] s = ([], s)
  download (take_chunk ∷ cs) s =
      let (a, u) = bulk_receive t p codec fuel given s in
      let (rs, v) = download cs u in (delivered a rs, v)
  download (acknowledge next window ptr ∷ cs) s = download cs (bulk_ack t p next window ptr s).1

  bulk_finish_refused :
      (s : Live W) → cannot_finish s.broker ≡ true → bulk_finish t p s ≡ (fails state, s)
  unfolding bulk_finish settle the_broker
  bulk_finish_refused s refused = rw (refused, bulk_finish, settle) refl

  -- A download that can be finished with OK has come to its last frame, and counts what it should.
  bulk_finish-counts :
      (s : Live W)
      → (bulk_finish t p s).0 ≡ returns tt
      → (s.broker.bulk_failed ≡ false)
        × (s.broker.bulk_received_data_size ≡ s.broker.bulk_exact_data_size)
        × (s.broker.stream.complete ≡ true)
  unfolding bulk_finish settle the_broker
  bulk_finish-counts s h = elim (Bool-cases (cannot_finish s.broker)) [
    | inl refused ↦
        let e = bulk_finish_refused s refused in
        let answered : (bulk_finish t p s).0 ≡ fails state = rw e refl in
        absurd (fails-ne-returns (sym answered ∙ h))
    | inr free ↦ ground (arith, free)
  ]

  delivered-Counting :
      (n total : ℕ) (a : Answer Response) (u : Live W)
      → Leaves
          (λ r v. Counting n (total + data_bytes r.frame r.payload) v)
          (λ _ v. Counting n total v)
          (λ v. Counting n total v)
          a
          u
      → (rs : List Response)
      → (k : ℕ) × Counting n (total + k) u × (data_total (delivered a rs) ≡ k + data_total rs)
  delivered-Counting n total (returns r) u h rs = (data_bytes r.frame r.payload, h, refl)
  delivered-Counting n total (fails e) u h rs =
      (0, let e : total + 0 ≡ total = omega arith in rw e h, omega arith)
  delivered-Counting n total unfinished u h rs =
      (0, let e : total + 0 ≡ total = omega arith in rw e h, omega arith)

  download-Counting :
      (n total : ℕ) (calls : List DownloadCall) (s : Live W)
      → n < 2 ^ 64
      → Counting n total s
      → Counting n (total + data_total (download calls s).0) (download calls s).1
  unfolding download
  download-Counting n total [] s small k = let e : total + 0 ≡ total = omega arith in rw e k
  download-Counting n total (take_chunk ∷ cs) s small k =
      let (a, u) = bulk_receive t p codec fuel given s in
      let (rs, v) = download cs u in
      let (more, counting, same) =
        delivered-Counting n total a u (bulk_receive-Counting n total t p codec fuel s small k)
          rs in
      let rest = download-Counting n (total + more) cs u small counting in
      let sum : total + data_total (delivered a rs) ≡ total + more + data_total rs =
        omega (arith, same) in
      subst (λ x. Counting n x v) (sym sum) rest
  download-Counting n total (acknowledge next window ptr ∷ cs) s small k =
      download-Counting n total cs _ small (
        left_Counting n total (bulk_ack t p next window ptr s).0 _
          ((bulk_ack-Counting n total t p next window ptr).triple.at s k))

  -- A broker is set up and makes any calls, of other downloads too. Then a download of `n` bytes begins
  -- with OK, and makes any sequence of its calls for chunks and for acknowledgements. If it can be
  -- finished with OK after them, then the data of the frames that these calls have delivered is
  -- exactly `n` bytes, and the last frame of the stream has come.
  pub download_exact :
      (storage : BrokerStorage) (w : W) (earlier : List Call) (u s : Live W) (service_id : ℕ)
      (id : Option (List ℕ)) (body : View) (n ms : ℕ) (calls : List DownloadCall)
      → n < 2 ^ 64
      → (Storage.init (some t) (some p) storage).0 ≡ ok
      → run t p codec fuel earlier
          (record { broker = (Storage.init (some t) (some p) storage).1; world = w })
        ≡ some u
      → bulk_begin t p service_id id body n ms u ≡ (returns tt, s)
      → (bulk_finish t p (download calls s).1).0 ≡ returns tt
      → (data_total (download calls s).0 ≡ n) × ((download calls s).1.broker.stream.complete ≡ true)
  download_exact storage w earlier u s service_id id body n ms calls small set_up ran begins h =
      let begun =
        run-Begun t p codec fuel storage w earlier u s service_id id body n ms set_up ran begins in
      let (free, all, last) = bulk_finish-counts (download calls s).1 h in
      let start : Counting n 0 s = record { exact = begun.exact; counted = λ _. begun.received } in
      let counting = download-Counting n 0 calls s small start in
      (omega (arith, counting.exact, counting.counted free, all), last)
