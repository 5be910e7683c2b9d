-- ===== src/Container/Order.antt =====
-- src/c/container.c: the order of the calls at start and stop, and the wait for running components.
use iotech_c_utils.Common.{
  ℕ, zero, suc, ◌+◌, ◌≤◌, ◌<◌, ◌≡◌, refl, ap, sym, ◌∙◌, ◌↔◌, arith, Bool, true, false, List, [],
  ◌∷◌, ◌++◌, ◌==◌, append-nil, Bool-cases, inl, inr, All, All-append,
}
use mathlib.Core.List.{reverse, reverse-cons}
use iotech_c_utils.Container.{
  Component, Event, starting, started, stopping, stopped, running, each_next, each_prev,
  all_running, run_retries, wait_running, if_has, container_running, container_start,
  container_stop,
}

-- The components that are started, and those that are stopped, in the order of the calls.
abbrev pub started_in : List Event → List Component
started_in [] = []
started_in (started c ∷ es) = c ∷ started_in es
started_in (e ∷ es) = started_in es

abbrev pub stopped_in : List Event → List Component
stopped_in [] = []
stopped_in (stopped c ∷ es) = c ∷ stopped_in es
stopped_in (e ∷ es) = stopped_in es

-- What a call of `running_fn` says of a timeout.
abbrev pub TimesOut : Bool → Event → Type 0
TimesOut timeout (running c b) = b ≡ timeout
TimesOut timeout e = Unit

-- No try sees all components running.
abbrev pub NeverRuns : (ℕ → Component → Bool) → List Component → Type 0
NeverRuns sees cs = (k : ℕ) → k < run_retries → all_running (sees k) cs ≡ false

waited :
    (sees : ℕ → Component → Bool) (cs : List Component) (left tries : ℕ)
    → wait_running sees cs left tries ≡ tries + left
    → (k : ℕ) → tries ≤ k
    → k < tries + left
    → all_running (sees k) cs ≡ false
unfolding wait_running
waited sees cs zero tries e k a b = absurd (omega (arith, a, b))
waited sees cs (suc left) tries e k a b = elim (Bool-cases (all_running (sees tries) cs)) [
  | inl t ↦ absurd (ground (arith, e, t))
  | inr f ↦ elim (Bool-cases (k == tries)) [
    | inl same ↦ let same' : k ≡ tries = ground (arith, same) in rw same' f
    | inr other ↦
        waited sees cs left (tries + 1) (ground (arith, e, f)) k (ground (arith, a, other))
          (omega (arith, b))
  ]
]

waits :
    (sees : ℕ → Component → Bool) (cs : List Component) (left tries : ℕ)
    → ((k : ℕ) → tries ≤ k → k < tries + left → all_running (sees k) cs ≡ false)
    → wait_running sees cs left tries ≡ tries + left
unfolding wait_running
waits sees cs zero tries h = omega arith
waits sees cs (suc left) tries h =
    let now = h tries (omega arith) (omega arith) in
    let rest =
      waits sees cs left (tries + 1) (λ k a b. h k (omega (arith, a)) (omega (arith, b))) in
    ground (arith, now, rest)

wait_running-le :
    (sees : ℕ → Component → Bool) (cs : List Component) (left tries : ℕ)
    → wait_running sees cs left tries ≤ tries + left
unfolding wait_running
wait_running-le sees cs zero tries = omega arith
wait_running-le sees cs (suc left) tries = ground (arith, wait_running-le sees cs left (tries + 1))

started_in-append : (as' bs : List Event) → started_in (as' ++ bs) ≡ started_in as' ++ started_in bs
started_in-append [] bs = refl
started_in-append (started c ∷ es) bs = ap (◌∷◌ c) (started_in-append es bs)
started_in-append (starting c ∷ es) bs = started_in-append es bs
started_in-append (stopping c ∷ es) bs = started_in-append es bs
started_in-append (stopped c ∷ es) bs = started_in-append es bs
started_in-append (running c b ∷ es) bs = started_in-append es bs

stopped_in-append : (as' bs : List Event) → stopped_in (as' ++ bs) ≡ stopped_in as' ++ stopped_in bs
stopped_in-append [] bs = refl
stopped_in-append (stopped c ∷ es) bs = ap (◌∷◌ c) (stopped_in-append es bs)
stopped_in-append (starting c ∷ es) bs = stopped_in-append es bs
stopped_in-append (stopping c ∷ es) bs = stopped_in-append es bs
stopped_in-append (started c ∷ es) bs = stopped_in-append es bs
stopped_in-append (running c b ∷ es) bs = stopped_in-append es bs

-- Calls that start nothing, and calls that start each component once.
each_next-none :
    (call : Component → List Event) (cs : List Component)
    → ((c : Component) → started_in (call c) ≡ [])
    → started_in (each_next call cs) ≡ []
each_next-none call [] h = refl
each_next-none call (c ∷ cs) h =
    rw (started_in-append (each_next call cs) (call c), each_next-none call cs h) (h c)

each_next-one : (cs : List Component) → started_in (each_next (λ c. started c ∷ []) cs) ≡ reverse cs
each_next-one [] = refl
each_next-one (c ∷ cs) =
    started_in-append (each_next (λ c. started c ∷ []) cs) (started c ∷ [])
    ∙ rw (each_next-one cs) (sym (reverse-cons c cs))

each_prev-none :
    (call : Component → List Event) (cs : List Component)
    → ((c : Component) → stopped_in (call c) ≡ [])
    → stopped_in (each_prev call cs) ≡ []
each_prev-none call [] h = refl
each_prev-none call (c ∷ cs) h =
    rw (stopped_in-append (call c) (each_prev call cs), h c) (each_prev-none call cs h)

each_prev-one : (cs : List Component) → stopped_in (each_prev (λ c. stopped c ∷ []) cs) ≡ cs
each_prev-one [] = refl
each_prev-one (c ∷ cs) = ap (◌∷◌ c) (each_prev-one cs)

no_start : (b : Bool) (c : Component) → started_in (if_has b (starting c)) ≡ []
no_start true c = refl
no_start false c = refl

no_stop : (b : Bool) (c : Component) → stopped_in (if_has b (stopping c)) ≡ []
no_stop true c = refl
no_stop false c = refl

no_run : (b : Bool) (c : Component) (t : Bool) → started_in (if_has b (running c t)) ≡ []
no_run true c t = refl
no_run false c t = refl

stopped_in-container_stop : (cs : List Component) → stopped_in (container_stop cs) ≡ cs
unfolding container_stop
stopped_in-container_stop cs =
    stopped_in-append (each_prev (λ c. if_has c.has_stopping (stopping c)) cs)
      (each_prev (λ c. stopped c ∷ []) cs)
    ∙ rw
        (each_prev-none (λ c. if_has c.has_stopping (stopping c)) cs
          (λ c. no_stop c.has_stopping c))
        (each_prev-one cs)

started_in-container_start :
    (sees : ℕ → Component → Bool) (cs : List Component)
    → started_in (container_start sees cs) ≡ reverse cs
unfolding container_start container_running
started_in-container_start sees cs =
    let timeout = wait_running sees cs run_retries 0 == run_retries in
    started_in-append (each_next (λ c. if_has c.has_starting (starting c)) cs)
      (each_next (λ c. started c ∷ []) cs ++ container_running sees cs)
    ∙ rw
        (
          each_next-none (λ c. if_has c.has_starting (starting c)) cs
              (λ c. no_start c.has_starting c),
          started_in-append (each_next (λ c. started c ∷ []) cs) (container_running sees cs),
          each_next-none (λ c. if_has c.has_running (running c timeout)) cs
              (λ c. no_run c.has_running c timeout),
          each_next-one cs,
        )
        (append-nil (reverse cs))

All-each_next :
    (P : Event → Type 0) (call : Component → List Event) (cs : List Component)
    → ((c : Component) → All P (call c))
    → All P (each_next call cs)
All-each_next P call [] h = tt
All-each_next P call (c ∷ cs) h =
    All-append P (each_next call cs) (call c) (All-each_next P call cs h) (h c)

All-if_has : (P : Event → Type 0) (b : Bool) (e : Event) → P e → All P (if_has b e)
All-if_has P true e p = (p, tt)
All-if_has P false e p = tt

-- `iot_container_stop` stops the components in the reverse of the order in which `iot_container_start`
-- starts them, the last one created first; and each running callback is told of a timeout exactly if
-- none of the 25 tries sees all components running.
pub container_start-container_stop :
    (sees : ℕ → Component → Bool) (cs : List Component)
    → (stopped_in (container_stop cs) ≡ cs)
      × (started_in (container_start sees cs) ≡ reverse (stopped_in (container_stop cs)))
      × (timeout : Bool) × All (TimesOut timeout) (container_start sees cs)
      × ((timeout ≡ true) ↔ NeverRuns sees cs)
unfolding container_start container_running
container_start-container_stop sees cs =
    let timeout = wait_running sees cs run_retries 0 == run_retries in
    let starts =
      All-each_next (TimesOut timeout) (λ c. if_has c.has_starting (starting c)) cs
        (λ c. All-if_has (TimesOut timeout) c.has_starting (starting c) tt) in
    let started' = All-each_next (TimesOut timeout) (λ c. started c ∷ []) cs (λ c. (tt, tt)) in
    let runs =
      All-each_next (TimesOut timeout) (λ c. if_has c.has_running (running c timeout)) cs
        (λ c. All-if_has (TimesOut timeout) c.has_running (running c timeout) refl) in
    (
      stopped_in-container_stop cs,
      started_in-container_start sees cs ∙ ap reverse (sym (stopped_in-container_stop cs)),
      timeout,
      All-append (TimesOut timeout) (each_next (λ c. if_has c.has_starting (starting c)) cs)
          (each_next (λ c. started c ∷ []) cs ++ container_running sees cs) starts
          (All-append (TimesOut timeout) (each_next (λ c. started c ∷ []) cs)
            (container_running sees cs) started' runs),
      (
        λ t k l. waited sees cs run_retries 0 (ground (arith, t)) k (omega arith) l,
        λ h. let w = waits sees cs run_retries 0 (λ k a l. h k l) in ground (arith, w),
      ),
    )
