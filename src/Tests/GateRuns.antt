-- ===== src/Tests/GateRuns.antt =====
-- pico/src/provision_gate.c with a button that is held for two seconds.
use pbns.Common.{◌≡◌, refl, true, List, [], ◌∷◌, arith}
use pbns.Common.Memory.{given}
use pbns.Proxy.ProvisionGate.{observe, next_sample_deadline}
use pbns.Proxy.ProvisionGate.Holding.{Sample, sample, watch, HeldLong, observe-HeldLong}

-- The newest sample is the first one; the gate does not take the one at 20 ms.
abbrev samples : List Sample
samples = sample 1020 true ∷ sample 20 true ∷ sample 0 true ∷ []

opens : (observe (watch samples).0 2000 true given).activated ≡ true
unfolding observe watch next_sample_deadline
opens = refl

observe-HeldLong_example : HeldLong 2000 (sample 2000 true ∷ (watch samples).1)
observe-HeldLong_example =
    observe-HeldLong samples 2000 true (omega arith, (omega arith, (omega arith, tt))) (omega arith)
      opens
