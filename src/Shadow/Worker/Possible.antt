-- ===== src/Shadow/Worker/Possible.antt =====
-- When an event of the worker of server/src/shadow.rs is possible, and what it leads to.
use geocoder.Prelude.{
  ℕ, zero, suc, ◌<◌, ◌≡◌, refl, List, [], ◌∷◌, none, some, ◌⊎◌, inl, inr, ltb, ltb→lt, Bool-cases,
  Option-cases,
}
use geocoder.Shadow.Worker.{
  ShadowConfig, Reply, State, gate, taken, called, answered, receive, dispatch, finish,
}
use geocoder.Shadow.Worker.Steps.{receives, dispatches, finishes, after}

list_cases : {A : Type 0} (s : List A) → (s ≡ []) ⊎ ((a : A) × (t : List A) × (s ≡ a ∷ t))
list_cases [] = inl refl
list_cases (a ∷ t) = inr (a, t, refl)

zero_cases : (n : ℕ) → (n ≡ 0) ⊎ ((m : ℕ) × (n ≡ suc m))
zero_cases zero = inl refl
zero_cases (suc n) = inr (n, refl)

module _ {Job : Type 0} (cfg : ShadowConfig) where
  pub received :
      (now : ℕ) (s : State Job) {t : State Job}
      → after cfg (receives now) s ≡ some t
      → (job : Job) × (queue : List Job) × (s.waiting ≡ none)
        × (s.queue ≡ job ∷ queue)
        × (taken (gate cfg now s) job queue s ≡ t)
  unfolding receive
  received now s {t} h = elim (Option-cases s.waiting) [
    | inl w ↦ elim (list_cases s.queue) [
      | inl q ↦ let g : none ≡ some t = rw (after, receive, w, q) at h in cc
      | inr (job, queue, q) ↦
          let g : some (taken (gate cfg now s) job queue s) ≡ some t =
            rw (after, receive, w, q) at h in
          (job, queue, w, q, cc)
    ]
    | inr (job, w) ↦ let g : none ≡ some t = rw (after, receive, w) at h in cc
  ]

  pub dispatched_one :
      (s : State Job) {t : State Job}
      → after cfg dispatches s ≡ some t
      → (job : Job) × (s.waiting ≡ some job) × (s.inflight < cfg.inflight_cap) × (called s ≡ t)
  unfolding dispatch
  dispatched_one s {t} h = elim (Option-cases s.waiting) [
    | inl w ↦ let g : none ≡ some t = rw (after, dispatch, w) at h in cc
    | inr (job, w) ↦ elim (Bool-cases (ltb s.inflight cfg.inflight_cap)) [
      | inl lt ↦
          let g : some (called s) ≡ some t = rw (after, dispatch, w, lt) at h in
          (job, w, ltb→lt s.inflight cfg.inflight_cap lt, cc)
      | inr ge ↦ let g : none ≡ some t = rw (after, dispatch, w, ge) at h in cc
    ]
  ]

  pub finished :
      (now : ℕ) (reply : Reply) (s : State Job) {t : State Job}
      → after cfg (finishes now reply) s ≡ some t
      → (n : ℕ) × (s.inflight ≡ suc n) × (answered cfg now reply n s ≡ t)
  unfolding finish
  finished now reply s {t} h = elim (zero_cases s.inflight) [
    | inl z ↦ let g : none ≡ some t = rw (after, finish, z) at h in cc
    | inr (n, z) ↦
        let g : some (answered cfg now reply n s) ≡ some t = rw (after, finish, z) at h in
        (n, z, cc)
  ]
