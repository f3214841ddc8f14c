-- ===== src/Telemetry/Dedup/Spacing.antt =====
-- How far apart the events of one callsite pass the filter of server/src/telemetry.rs.
use geocoder.Prelude.{
  ℕ, ◌+◌, ◌≤◌, ◌≡◌, refl, sym, ap, ◌∙◌, subst, ==_iff, ==_refl, Bool, true, false, ◌&&◌, List, [],
  ◌∷◌, some, arith, ◌==◌, Bool-cases, inl, inr,
}
use geocoder.Telemetry.Dedup.{
  Event, LastEmitted, last_of, insert_last, is_recent, should_emit, emitted,
}

-- The clock does not go back.
abbrev pub InTime : ℕ → List Event → Type 0
InTime now [] = Unit {0}
InTime now (event ∷ events) = (now ≤ event.now) × InTime event.now events

-- An event that the filter is for, of the callsite.
abbrev pub is_from : ℕ → Event → Bool
is_from id event = event.in_target && (event.callsite == id)

-- The events of the callsite stand at a time or behind it.
abbrev pub NotBefore : ℕ → ℕ → List Event → Type 0
NotBefore id t [] = Unit {0}
NotBefore id t (event ∷ events) = (is_from id event ≡ true → t ≤ event.now) × NotBefore id t events

NotBefore-later :
    (id s t : ℕ) → s ≤ t → (events : List Event) → NotBefore id t events → NotBefore id s events
NotBefore-later id s t h [] n = tt
NotBefore-later id s t h (event ∷ events) (k, n) =
    (λ e. omega (arith, k e), NotBefore-later id s t h events n)

apart_target : (id : ℕ) (event : Event) → event.in_target ≡ false → is_from id event ≡ false
apart_target id event h = ground arith

apart_site : (id : ℕ) (event : Event) → (event.callsite == id) ≡ false → is_from id event ≡ false
apart_site id event h = ground arith

module _ (window : ℕ) where
  -- Two events of one callsite are a window apart, whatever stands between them.
  abbrev pub Spaced : List Event → Type 0
  Spaced [] = Unit {0}
  Spaced (event ∷ events) =
      (event.in_target ≡ true → NotBefore event.callsite (event.now + window) events)
      × Spaced events

  pub emit_other :
      (event : Event) (state : LastEmitted)
      → event.in_target ≡ false
      → should_emit window event state ≡ (true, state)
  unfolding should_emit
  emit_other event state h = ground arith

  pub emit_recent :
      (event : Event) (state : LastEmitted)
      → event.in_target ≡ true
      → is_recent window (last_of state event.callsite) event.now ≡ true
      → should_emit window event state ≡ (false, state)
  unfolding should_emit
  emit_recent event state h k = ground arith

  pub emit_new :
      (event : Event) (state : LastEmitted)
      → event.in_target ≡ true
      → is_recent window (last_of state event.callsite) event.now ≡ false
      → should_emit window event state ≡ (true, insert_last event.callsite event.now state)
  unfolding should_emit
  emit_new event state h k = ground arith

  -- What passes behind an event, by how the filter decided.
  pub emitted_passes :
      (event : Event) (events : List Event) (state state' : LastEmitted)
      → should_emit window event state ≡ (true, state')
      → emitted window (event ∷ events) state ≡ event ∷ emitted window events state'
  unfolding emitted
  emitted_passes event events state state' h = rw h refl

  pub emitted_dropped :
      (event : Event) (events : List Event) (state state' : LastEmitted)
      → should_emit window event state ≡ (false, state')
      → emitted window (event ∷ events) state ≡ emitted window events state'
  unfolding emitted
  emitted_dropped event events state state' h = rw h refl

  not_recent :
      (last now : ℕ) → is_recent window (some last) now ≡ false → last ≤ now → last + window ≤ now
  not_recent last now h k = ground arith

  emitted-NotBefore :
      (events : List Event) (state : LastEmitted) (id t now : ℕ)
      → InTime now events
      → t ≤ now
      → last_of state id ≡ some t
      → NotBefore id (t + window) (emitted window events state)
  emitted-NotBefore [] state id t now order h s = unfold emitted in tt
  emitted-NotBefore (event ∷ events) state id t now (h', order) h s =
      elim (Bool-cases event.in_target) [
        | inr out ↦
            subst (NotBefore id (t + window))
              (sym (emitted_passes event events state state (emit_other event state out)))
              (
                λ e. absurd (cc (apart_target id event out)),
                emitted-NotBefore events state id t event.now order (omega arith) s,
              )
        | inl inside ↦
            elim (Bool-cases (is_recent window (last_of state event.callsite) event.now)) [
              | inl recent ↦
                  subst (NotBefore id (t + window))
                    (sym (
                      emitted_dropped event events state state
                        (emit_recent event state inside recent)))
                    (emitted-NotBefore events state id t event.now order (omega arith) s)
              | inr old ↦
                  let new = insert_last event.callsite event.now state in
                  subst (NotBefore id (t + window))
                    (sym (emitted_passes event events state new (emit_new event state inside old)))
                    (elim (Bool-cases (event.callsite == id)) [
                      | inl same ↦
                          let e : event.callsite ≡ id = (==_iff event.callsite id).0 same in
                          let last : last_of state event.callsite ≡ some t =
                            ap (last_of state) e ∙ s in
                          let due : t + window ≤ event.now =
                            not_recent t event.now
                              (ap (λ o. is_recent window o event.now) (sym last) ∙ old)
                              (omega arith) in
                          (
                            λ _. due,
                            NotBefore-later id (t + window) (event.now + window) (omega arith)
                                (emitted window events new)
                                (emitted-NotBefore events new id event.now event.now order
                                  (omega arith) (rw same refl)),
                          )
                      | inr other ↦ (
                        λ e. absurd (cc (apart_site id event other)),
                        emitted-NotBefore events new id t event.now order (omega arith)
                            (rw other s),
                      )
                    ])
            ]
      ]

  emitted-Spaced_from :
      (events : List Event) (state : LastEmitted) (now : ℕ)
      → InTime now events
      → Spaced (emitted window events state)
  emitted-Spaced_from [] state now order = unfold emitted in tt
  emitted-Spaced_from (event ∷ events) state now (h', order) = elim (Bool-cases event.in_target) [
    | inr out ↦
        subst Spaced (sym (emitted_passes event events state state (emit_other event state out)))
          (λ e. absurd (cc), emitted-Spaced_from events state event.now order)
    | inl inside ↦ elim (Bool-cases (is_recent window (last_of state event.callsite) event.now)) [
      | inl recent ↦
          subst Spaced
            (sym (emitted_dropped event events state state (emit_recent event state inside recent)))
            (emitted-Spaced_from events state event.now order)
      | inr old ↦
          let new = insert_last event.callsite event.now state in
          subst Spaced
            (sym (emitted_passes event events state new (emit_new event state inside old)))
            (
              λ _.
                  emitted-NotBefore events new event.callsite event.now event.now order
                    (omega arith) (rw (==_refl event.callsite) refl),
              emitted-Spaced_from events new event.now order,
            )
    ]
  ]

  -- While the clock does not go back, two events of one callsite that pass the filter are a window
  -- apart, whatever stands between them.
  pub emitted-Spaced : (events : List Event) → InTime 0 events → Spaced (emitted window events [])
  emitted-Spaced events order = emitted-Spaced_from events [] 0 order
