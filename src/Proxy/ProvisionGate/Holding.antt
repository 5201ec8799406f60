-- ===== src/Proxy/ProvisionGate/Holding.antt =====
-- The gate opens only for a button that was seen pressed for long enough.
use pbns.Common.{
  ℕ, ◌+◌, ◌-◌, ◌%◌, ◌^◌, ◌≤◌, ◌<◌, ◌≡◌, refl, sym, subst, All, Bool, true, false, ◌&&◌, List, [],
  ◌∷◌, ltb, leb, if◌then◌else◌, arith, inl, inr, Bool-cases, leb→le,
}
use pbns.Common.Memory.{given}
use pbns.Proxy.ProvisionGate.{
  hold_ms, GateState, idle, press_pending, latched, Gate, init, sample_due, sampled, press,
  take_sample, observe,
}

-- What is seen of the button at a time.
pub record Sample : Type 0 where
  pub now_ms : ℕ
  pub pressed : Bool

abbrev pub sample : ℕ → Bool → Sample
sample now_ms pressed = record { now_ms = now_ms; pressed = pressed }

-- The latest samples, the newest one at `now` first and the oldest one at `start`, all saw the button
-- pressed, and the time did not go back between them.
pub data Held (start : ℕ) : ℕ → List Sample → Type 0 where
  held_from : {rest : List Sample} → Held start start (sample start true ∷ rest)
  held_on :
      {last now : ℕ} {rest : List Sample}
      → Held start last rest
      → last ≤ now
      → Held start now (sample now true ∷ rest)

-- A press that is pending has been held.
record Pending (g : Gate) (now : ℕ) (seen : List Sample) : Type 0 where
  pub held : g.state ≡ press_pending → Held g.press_started_ms now seen
  pub since : g.state ≡ press_pending → g.press_started_ms ≤ now
  pub sampled_once : g.state ≡ press_pending → g.has_sample ≡ true

-- The gate after the observations, the newest one first, and the samples that it took.
unfoldable pub watch : List Sample → Gate × List Sample
unfolding observe sample_due
watch [] = (init, [])
watch (x ∷ earlier) =
    let (g, seen) = watch earlier in
    ((observe g x.now_ms x.pressed given).gate, if sample_due g x.now_ms then x ∷ seen else seen)

-- What is meant by a hold that opens the gate at `now`.
abbrev pub HeldLong : ℕ → List Sample → Type 0
HeldLong now seen = (start : ℕ) × Held start now seen × (start + hold_ms ≤ now)

press-Held :
    (g : Gate) (now last : ℕ) (seen : List Sample) (s : GateState)
    → g.state ≡ s
    → now < 2 ^ 64
    → last ≤ now
    → g.has_sample ≡ true
    → Pending g last seen
    → let r = press g s now in
      Pending r.gate now (sample now true ∷ seen)
      × (r.activated ≡ true → HeldLong now (sample now true ∷ seen))
unfolding press
press-Held g now last seen idle e small later once k = (
  record { held = λ q. held_from; since = λ q. omega arith; sampled_once = λ q. once },
  λ q. absurd (ground (arith, q)),
)
press-Held g now last seen press_pending e small later once k =
    let elapsed = (now + 2 ^ 64 - g.press_started_ms) % 2 ^ 64 in
    elim (Bool-cases (leb hold_ms elapsed)) [
      | inl long ↦ rw long (
        record {
          held = λ q. absurd (ground (arith, q));
          since = λ q. absurd (ground (arith, q));
          sampled_once = λ q. once;
        },
        λ q. (
          g.press_started_ms,
          held_on (k.held e) later,
          omega (arith, leb→le hold_ms elapsed long, k.since e),
        ),
      )
      | inr short ↦ rw short (
        record {
          held = λ q. held_on (k.held q) later;
          since = λ q. omega (arith, k.since q);
          sampled_once = λ q. once;
        },
        λ q. absurd (ground (arith, q)),
      )
    ]
press-Held g now last seen latched e small later once k = (
  record {
    held = λ q. absurd (ground (arith, e, q));
    since = λ q. absurd (ground (arith, e, q));
    sampled_once = λ q. once;
  },
  λ q. absurd (ground (arith, q)),
)

sampled-Pending :
    (g : Gate) (now : ℕ) (seen : List Sample)
    → Pending g g.last_sample_ms seen
    → (last : ℕ) × (last ≤ now) × Pending (sampled g now) last seen
unfolding sampled
sampled-Pending g now seen k = elim (Bool-cases (g.has_sample && ltb now g.last_sample_ms)) [
  | inl back ↦ rw back (
    now,
    omega arith,
    record {
      held = λ q. absurd (ground (arith, q));
      since = λ q. absurd (ground (arith, q));
      sampled_once = λ q. refl;
    },
  )
  | inr on ↦ elim (Bool-cases (g.has_sample)) [
    | inl once ↦
        let later : g.last_sample_ms ≤ now = ground (arith, on, once) in
        rw on (
          g.last_sample_ms,
          later,
          record { held = k.held; since = k.since; sampled_once = λ q. refl },
        )
    | inr never ↦ rw on (
      now,
      omega arith,
      record {
        held = λ q. absurd (ground (arith, k.sampled_once q, never));
        since = λ q. absurd (ground (arith, k.sampled_once q, never));
        sampled_once = λ q. refl;
      },
    )
  ]
]

press-last :
    (g : Gate) (s : GateState) (now : ℕ) → (press g s now).gate.last_sample_ms ≡ g.last_sample_ms
unfolding press
press-last g idle now = refl
press-last g press_pending now = ground arith
press-last g latched now = refl

take_sample-Held :
    (g : Gate) (now : ℕ) (pressed : Bool) (seen : List Sample)
    → now < 2 ^ 64
    → Pending g g.last_sample_ms seen
    → let r = take_sample g now pressed in
      Pending r.gate now (sample now pressed ∷ seen)
      × (r.activated ≡ true → HeldLong now (sample now pressed ∷ seen))
      × (r.gate.last_sample_ms ≡ now)
unfolding take_sample
take_sample-Held g now false seen small k = (
  record {
    held = λ q. absurd (ground (arith, q));
    since = λ q. absurd (ground (arith, q));
    sampled_once = λ q. refl;
  },
  λ q. absurd (ground (arith, q)),
  refl,
)
take_sample-Held g now true seen small k =
    let (last, later, before) = sampled-Pending g now seen k in
    let s = sampled g now in
    let (pending, long) = press-Held s now last seen s.state refl small later refl before in
    (pending, long, press-last s s.state now)

observe-due :
    (g : Gate) (now : ℕ) (pressed : Bool)
    → sample_due g now ≡ true
    → observe g now pressed given ≡ take_sample g now pressed
unfolding observe sample_due
observe-due g now pressed due = ground (arith, due)

observe-not_due :
    (g : Gate) (now : ℕ) (pressed : Bool)
    → sample_due g now ≡ false
    → ((observe g now pressed given).gate ≡ g) × ((observe g now pressed given).activated ≡ false)
unfolding observe sample_due
observe-not_due g now pressed early = ground (arith, early)

observe-Held :
    (g : Gate) (x : Sample) (seen : List Sample)
    → x.now_ms < 2 ^ 64
    → Pending g g.last_sample_ms seen
    → let r = observe g x.now_ms x.pressed given in
      Pending r.gate r.gate.last_sample_ms (if sample_due g x.now_ms then x ∷ seen else seen)
      × (r.activated ≡ true → HeldLong x.now_ms (x ∷ seen))
observe-Held g x seen small k = elim (Bool-cases (sample_due g x.now_ms)) [
  | inl due ↦
      let (pending, long, same) = take_sample-Held g x.now_ms x.pressed seen small k in
      rw (due, observe-due g x.now_ms x.pressed due)
        (
          subst (λ n. Pending (take_sample g x.now_ms x.pressed).gate n (x ∷ seen)) (sym same)
              pending,
          long,
        )
  | inr early ↦
      let (same, shut) = observe-not_due g x.now_ms x.pressed early in
      rw (early, same, shut) (k, λ q. absurd (ground (arith, q)))
]

watch-Pending :
    (xs : List Sample)
    → All (λ x. x.now_ms < 2 ^ 64) xs
    → Pending (watch xs).0 (watch xs).0.last_sample_ms (watch xs).1
unfolding watch
watch-Pending [] all = record {
  held = λ q. absurd (ground (arith, q));
  since = λ q. omega arith;
  sampled_once = λ q. absurd (ground (arith, q));
}
watch-Pending (x ∷ xs) (small, all) =
    (observe-Held (watch xs).0 x (watch xs).1 small (watch-Pending xs all)).0

-- From its start, and at times of 64 bits, the gate tells that it has been activated only by a sample
-- that ends a hold: the latest samples that the gate has taken, from one that lies at least 2000 ms
-- before, have all seen the button pressed, and the clock has not gone back between them.
pub observe-HeldLong :
    (earlier : List Sample) (now : ℕ) (pressed : Bool)
    → All (λ x. x.now_ms < 2 ^ 64) earlier
    → now < 2 ^ 64
    → (observe (watch earlier).0 now pressed given).activated ≡ true
    → HeldLong now (sample now pressed ∷ (watch earlier).1)
observe-HeldLong earlier now pressed all small opened =
    (observe-Held (watch earlier).0 (sample now pressed) (watch earlier).1 small
        (watch-Pending earlier all)).1
      opened
