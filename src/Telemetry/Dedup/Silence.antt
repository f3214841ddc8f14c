-- ===== src/Telemetry/Dedup/Silence.antt =====
-- Why the filter of server/src/telemetry.rs drops an event.
use geocoder.Prelude.{
  ℕ, ◌+◌, ◌-◌, ◌<◌, ◌≡◌, sym, ap, ◌∙◌, subst, Bool, true, false, List, [], ◌∷◌, Option, some, arith,
  ltb, ◌==◌, ==_iff, Bool-cases, Option-cases, inl, inr, ◌⊎◌,
}
use geocoder.Telemetry.Dedup.{
  Event, LastEmitted, last_of, insert_last, is_recent, should_emit, emitted, state_after,
}
use geocoder.Telemetry.Dedup.Spacing.{
  emit_other, emit_recent, emit_new, emitted_passes, emitted_dropped,
}

-- One of the events is of the callsite, at the time.
abbrev pub Holds : ℕ → ℕ → List Event → Type 0
Holds id t [] = ⊥
Holds id t (event ∷ events) =
    ((event.in_target ≡ true) × (event.callsite ≡ id) × (event.now ≡ t)) ⊎ Holds id t events

some_inj : (a b : ℕ) → ◌≡◌ {A = Option ℕ} (some a) (some b) → a ≡ b
some_inj a b h = cc

module _ (window : ℕ) where
  near : (t now : ℕ) → ltb (now - t) window ≡ true → now < t + window
  near t now h = ground arith

  after_passes :
      (event : Event) (events : List Event) (state state' : LastEmitted) (b : Bool)
      → should_emit window event state ≡ (b, state')
      → state_after window (event ∷ events) state ≡ state_after window events state'
  unfolding state_after
  after_passes event events state state' b h = ap (λ r. state_after window events r.1) h

  -- What the state knows of a callsite passed before, or is among what passed since.
  state_after-Holds :
      (events : List Event) (state : LastEmitted) (id t : ℕ)
      → last_of (state_after window events state) id ≡ some t
      → (last_of state id ≡ some t) ⊎ Holds id t (emitted window events state)
  state_after-Holds [] state id t h = inl (unfold state_after in h)
  state_after-Holds (event ∷ events) state id t h = elim (Bool-cases event.in_target) [
    | inr out ↦
        let q = emit_other window event state out in
        elim (state_after-Holds events state id t
          (ap (λ s. last_of s id) (sym (after_passes event events state state true q)) ∙ h)) [
            | inl known ↦ inl known
            | inr later ↦ inr (
                subst (Holds id t) (sym (emitted_passes window event events state state q))
                  (inr later))
          ]
    | inl inside ↦ elim (Bool-cases (is_recent window (last_of state event.callsite) event.now)) [
      | inl recent ↦
          let q = emit_recent window event state inside recent in
          elim (state_after-Holds events state id t
            (ap (λ s. last_of s id) (sym (after_passes event events state state false q)) ∙ h)) [
              | inl known ↦ inl known
              | inr later ↦ inr (
                  subst (Holds id t) (sym (emitted_dropped window event events state state q))
                    later)
            ]
      | inr old ↦
          let new = insert_last event.callsite event.now state in
          let q = emit_new window event state inside old in
          let there = λ (x : Holds id t (event ∷ emitted window events new)).
            subst (Holds id t) (sym (emitted_passes window event events state new q)) x in
          elim (state_after-Holds events new id t
            (ap (λ s. last_of s id) (sym (after_passes event events state new true q)) ∙ h)) [
              | inl known ↦ elim (Bool-cases (event.callsite == id)) [
                | inl same ↦ inr (
                    there (
                      inl (
                        inside,
                        (==_iff event.callsite id).0 same,
                        some_inj event.now t (rw same at known),
                      )))
                | inr other ↦ inl (rw other at known)
              ]
              | inr later ↦ inr (there (inr later))
            ]
    ]
  ]

  dropped_recent :
      (event : Event) (state : LastEmitted)
      → (should_emit window event state).0 ≡ false
      → (t : ℕ) × (last_of state event.callsite ≡ some t) × (event.now < t + window)
  dropped_recent event state h = elim (Bool-cases event.in_target) [
    | inr out ↦ absurd (cc (ap (λ r. r.0) (emit_other window event state out)))
    | inl inside ↦ elim (Bool-cases (is_recent window (last_of state event.callsite) event.now)) [
      | inr old ↦ absurd (cc (ap (λ r. r.0) (emit_new window event state inside old)))
      | inl recent ↦ elim (Option-cases (last_of state event.callsite)) [
        | inl e ↦ absurd (cc (rw e at recent))
        | inr (t, e) ↦ (t, e, near t event.now (rw e at recent))
      ]
    ]
  ]

  -- An event is dropped only less than a window after one of its callsite that passed; so the first
  -- of a callsite passes, and each that comes a window after the last that passed.
  pub should_emit-Holds :
      (before : List Event) (event : Event)
      → (should_emit window event (state_after window before [])).0 ≡ false
      → (t : ℕ) × Holds event.callsite t (emitted window before []) × (event.now < t + window)
  should_emit-Holds before event h =
      let (t, known, near) = dropped_recent event (state_after window before []) h in
      elim (state_after-Holds before [] event.callsite t known) [
        | inl never ↦ absurd (cc)
        | inr there ↦ (t, there, near)
      ]
