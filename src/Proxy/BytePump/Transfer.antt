-- ===== src/Proxy/BytePump/Transfer.antt =====
-- Whole steps and batches of the pump.
use pbns.Common.{
  subst, ℕ, zero, suc, ◌+◌, ◌≤◌, ◌≡◌, sym, ap, ◌∙◌, inl, inr, Bool, false, not, ◌||◌, some, List,
  ◌++◌, arith, Bool-cases, ok, Status-cases,
}
use pbns.Common.Memory.{given}
use pbns.Proxy.BytePump.{BytePump, Endpoint, Policy, process_direction, is_complete}
use pbns.Proxy.ByteRing.{ByteRing}
use pbns.Proxy.ByteRing.Layout.{contents}
use pbns.Proxy.BytePump.Step.{
  refused, step, step_directions, usb_to_tls_direction, tls_to_usb_direction, store_usb_to_tls,
  store_tls_to_usb, batch_loop, batch_with_policy, next_policy, batch_max_steps,
}
use pbns.Proxy.BytePump.Contract.{Carries}
use pbns.Proxy.BytePump.Conserves.{Balanced, process_direction-Kept}

module _ {W : Type 0} (usb tls : Endpoint W) (usb_in usb_out tls_in tls_out : W → List ℕ)
    (up : Carries usb tls usb_in tls_out (λ w. (tls_in w, usb_out w)))
    (down : Carries tls usb tls_in usb_out (λ w. (usb_in w, tls_out w))) where
  -- Both rings hold exactly what one endpoint has given and the other has not taken.
  abbrev pub Flows : BytePump → W → Type 0
  Flows pump w =
      Balanced usb_in tls_out pump.usb_to_tls w × Balanced tls_in usb_out pump.tls_to_usb w

  -- A balance only reads its own two counts.
  Balanced-other :
      (pump : BytePump) (w w' : W)
      → Balanced tls_in usb_out pump.tls_to_usb w
      → tls_in w' ≡ tls_in w
      → usb_out w' ≡ usb_out w
      → Balanced tls_in usb_out pump.tls_to_usb w'
  Balanced-other pump w w' b e f = record {
    valid = b.valid;
    small = b.small;
    kept = e ∙ b.kept ∙ ap (λ x. x ++ contents pump.tls_to_usb) (sym f);
  }

  Balanced-this :
      (ring : ByteRing) (w w' : W)
      → Balanced usb_in tls_out ring w
      → usb_in w' ≡ usb_in w
      → tls_out w' ≡ tls_out w
      → Balanced usb_in tls_out ring w'
  Balanced-this ring w w' b e f = record {
    valid = b.valid;
    small = b.small;
    kept = e ∙ b.kept ∙ ap (λ x. x ++ contents ring) (sym f);
  }

  step_directions-ok :
      (policy : Policy) (pump : BytePump) (w : W)
      → (step_directions usb tls policy pump w).status ≡ ok
      → let first = process_direction usb tls (usb_to_tls_direction pump policy) false w in
        let after = store_usb_to_tls pump first.direction in
        let second =
          process_direction tls usb
            (tls_to_usb_direction after policy)
            first.made_progress
            first.world in
        (first.status ≡ ok)
        × (second.status ≡ ok)
        × ((step_directions usb tls policy pump w).pump ≡ store_tls_to_usb after second.direction)
        × ((step_directions usb tls policy pump w).world ≡ second.world)
  unfolding step_directions
  step_directions-ok policy pump w h =
      let first = process_direction usb tls (usb_to_tls_direction pump policy) false w in
      let after = store_usb_to_tls pump first.direction in
      let second =
        process_direction tls usb (tls_to_usb_direction after policy) first.made_progress
          first.world in
      elim (Status-cases first.status) [
        | inl e ↦ elim (Status-cases second.status) [
          | inl f ↦ ground arith
          | inr (x, f) ↦ absurd (ground arith)
        ]
        | inr (x, e) ↦ absurd (ground arith)
      ]

  step_directions-Flows :
      (policy : Policy) (pump : BytePump) (w : W)
      → Flows pump w
      → (step_directions usb tls policy pump w).status ≡ ok
      → let r = step_directions usb tls policy pump w in Flows r.pump r.world
  step_directions-Flows policy pump w (there, back) h =
      let first = process_direction usb tls (usb_to_tls_direction pump policy) false w in
      let after = store_usb_to_tls pump first.direction in
      let second =
        process_direction tls usb (tls_to_usb_direction after policy) first.made_progress
          first.world in
      let (first_ok, second_ok, pumped, moved) = step_directions-ok policy pump w h in
      let (there', untouched) =
        process_direction-Kept usb tls usb_in tls_out (λ v. (tls_in v, usb_out v)) up
          (usb_to_tls_direction pump policy) false w there first_ok in
      let back' =
        Balanced-other pump w first.world back (ap (λ x. x.0) untouched)
          (ap (λ x. x.1) untouched) in
      let (back'', untouched') =
        process_direction-Kept tls usb tls_in usb_out (λ v. (usb_in v, tls_out v)) down
          (tls_to_usb_direction after policy) first.made_progress first.world back' second_ok in
      let there'' =
        Balanced-this first.direction.ring first.world second.world there'
          (ap (λ x. x.0) untouched') (ap (λ x. x.1) untouched') in
      rw (pumped, moved) (there'', back'')

  -- A step that returns OK leaves each ring with exactly the bytes, in order, that one endpoint has
  -- given and the other has not taken, if it found them so.
  pub step-Flows :
      (policy : Policy) (pump : BytePump) (w : W)
      → Flows pump w
      → (step usb tls policy pump w).status ≡ ok
      → let r = step usb tls policy pump w in Flows r.pump r.world
  unfolding step
  step-Flows policy pump w flows h =
      elim (Bool-cases (not pump.initialized || pump.cancelled || pump.failed)) [
        | inl dead ↦ absurd (ground arith)
        | inr live ↦ elim (Bool-cases (is_complete pump)) [
          | inl over ↦
              let e : step usb tls policy pump w ≡ refused ok pump w = ground arith in
              subst (λ r. Flows r.pump r.world) (sym e) flows
          | inr on ↦
              let e : step usb tls policy pump w ≡ step_directions usb tls policy pump w =
                ground arith in
              subst (λ r. Flows r.pump r.world) (sym e)
                (step_directions-Flows policy pump w flows (sym (ap (λ r. r.status) e) ∙ h))
        ]
      ]

  batch_loop-Flows :
      (left generation : ℕ) (policy : Policy) (count : ℕ) (progress : Bool) (pump : BytePump)
      (w : W)
      → Flows pump w
      → (batch_loop left usb tls generation policy count progress pump w).status ≡ ok
      → let r = batch_loop left usb tls generation policy count progress pump w in
        Flows r.pump r.world × (r.steps ≤ count + left)
  unfolding batch_loop
  batch_loop-Flows zero generation policy count progress pump w flows h = (flows, omega arith)
  batch_loop-Flows (suc left) generation policy count progress pump w flows h =
      let r = step usb tls policy pump w in
      let so_far = progress || r.made_progress in
      let policy' = next_policy generation policy r.pump in
      let next = batch_loop left usb tls generation policy' (count + 1) so_far r.pump r.world in
      let all = batch_loop (suc left) usb tls generation policy count progress pump w in
      elim (Status-cases r.status) [
        | inl e ↦
            let held = step-Flows policy pump w flows e in
            elim (Bool-cases (not r.made_progress || is_complete r.pump)) [
              | inl stop ↦
                  let same : all ≡ record r { steps = count + 1; made_progress = so_far } =
                    ground arith in
                  subst (λ x. Flows x.pump x.world × (x.steps ≤ count + suc left)) (sym same)
                    (held, omega arith)
              | inr go ↦
                  let same : all ≡ next = ground arith in
                  let (flows', few) =
                    batch_loop-Flows left generation policy' (count + 1) so_far r.pump r.world held
                      (sym (ap (λ x. x.status) same) ∙ h) in
                  subst (λ x. Flows x.pump x.world × (x.steps ≤ count + suc left)) (sym same)
                    (flows', omega arith)
            ]
        | inr (x, e) ↦ absurd (ground arith)
      ]

  -- With endpoints that keep their promises on the bytes that they report, a batch that returns OK
  -- makes at most eight steps and leaves each ring with exactly the bytes, in order, that one
  -- endpoint has given and the other has not taken, if it found them so: nothing is lost, added or
  -- reordered on the way.
  pub batch-Flows :
      (policy : Policy) (pump : BytePump) (w : W)
      → Flows pump w
      → (batch_with_policy pump (some usb) (some tls) (some policy) given given w).status ≡ ok
      → let r = batch_with_policy pump (some usb) (some tls) (some policy) given given w in
        (r.steps ≤ 8)
        × (usb_in r.world ≡ tls_out r.world ++ contents r.pump.usb_to_tls)
        × (tls_in r.world ≡ usb_out r.world ++ contents r.pump.tls_to_usb)
  unfolding batch_with_policy
  batch-Flows policy pump w flows h =
      let loop =
        batch_loop batch_max_steps usb tls pump.usb_to_tls_write_generation policy 0 false pump w in
      elim (Bool-cases (not pump.initialized || pump.cancelled || pump.failed)) [
        | inl dead ↦ absurd (ground arith)
        | inr live ↦
            let e : batch_with_policy pump (some usb) (some tls) (some policy) given given w
                ≡ loop =
              ground arith in
            let ((there, back), few) =
              batch_loop-Flows batch_max_steps pump.usb_to_tls_write_generation policy 0 false pump
                w flows (sym (ap (λ r. r.status) e) ∙ h) in
            subst
              (λ r.
                (r.steps ≤ 8)
                × (usb_in r.world ≡ tls_out r.world ++ contents r.pump.usb_to_tls)
                × (tls_in r.world ≡ usb_out r.world ++ contents r.pump.tls_to_usb))
              (sym e) (few, there.kept, back.kept)
      ]
