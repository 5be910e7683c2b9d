-- ===== src/Queue/Fifo.antt =====
-- src/c/queue.c: the order of the elements and the bound of the queue.
use mathlib.Core.Path.{subst}
use mathlib.Core.List.{reverse, reverse-append}
use iotech_c_utils.Common.{
  ◌^◌, ◌<◌, ◌≤◌, ◌≡◌, ◌⊎◌, refl, sym, ap, ◌∙◌, inl, inr, arith, true, false, not, ◌||◌, ◌&&◌, List,
  [], ◌∷◌, ◌++◌, Option, none, some, if◌then◌else◌, ◌==◌, ltb, leb, append_assoc, Bool-cases,
  Option-cases,
}
use iotech_c_utils.Map.{Hashed}
use iotech_c_utils.DataList.{DataList, values, tail_pop}
use iotech_c_utils.DataList.Laws.{IsWf, Pops, head_push-IsWf, tail_pop-Pops}
use iotech_c_utils.Queue.{
  Queue, waits, returns, size, push, try_enqueue, enqueue, try_dequeue, dequeue, Runs, allocs,
  tries, enqueues, tries_out, dequeues, stops, resizes,
}

module _ {ℓ} {A : Type ℓ} ⦃h : Hashed A⦄ where
  -- What went in is what came out and then what is there, the tail first.
  abbrev pub Fifo : Queue A → List A → List A → Type ℓ
  Fifo q ins outs = IsWf q.queue × (ins ≡ outs ++ reverse (values q.queue))

  push-Fifo :
      (q : Queue A) (v : A) (ins outs : List A)
      → Fifo q ins outs
      → Fifo (push q v) (ins ++ (v ∷ [])) outs
  push-Fifo q v ins outs (wf, e) = (
    (head_push-IsWf q.queue v wf).0,
    ap (λ xs. xs ++ (v ∷ [])) e
        ∙ append_assoc outs (reverse (values q.queue)) (v ∷ [])
        ∙ ap (λ xs. outs ++ xs) (sym (reverse-append (v ∷ []) (values q.queue))),
  )

  try_enqueue_cases :
      (q : Queue A) (v : A) → (try_enqueue q v ≡ (push q v, true)) ⊎ (try_enqueue q v ≡ (q, false))
  try_enqueue_cases q v = elim (Bool-cases ((q.maxsize == 0) || ltb (size q) q.maxsize)) [
    | inl e ↦ inl (rw (try_enqueue, e))
    | inr e ↦ inr (rw (try_enqueue, e))
  ]

  try_enqueue-Fifo :
      (q : Queue A) (v : A) (ins outs : List A)
      → Fifo q ins outs
      → Fifo (try_enqueue q v).0 (if (try_enqueue q v).1 then ins ++ (v ∷ []) else ins) outs
  try_enqueue-Fifo q v ins outs f = elim (try_enqueue_cases q v) [
    | inl e ↦
        subst (λ r. Fifo r.0 (if r.1 then ins ++ (v ∷ []) else ins) outs) (sym e)
          (push-Fifo q v ins outs f)
    | inr e ↦ subst (λ r. Fifo r.0 (if r.1 then ins ++ (v ∷ []) else ins) outs) (sym e) f
  ]

  enqueue_cases :
      (q : Queue A) (v : A)
      → ((enqueue q v).0 ≡ (try_enqueue q v).0) × ((enqueue q v).1 ≡ (try_enqueue q v).1)
  enqueue_cases q v = elim (Bool-cases ((q.maxsize == 0) || ltb (size q) q.maxsize)) [
    | inl e ↦
        let open_place : (not (q.maxsize == 0) && leb q.maxsize (size q)) ≡ false =
          ground (arith, e) in
        (rw (enqueue, try_enqueue, open_place, e), rw (enqueue, try_enqueue, open_place, e))
    | inr e ↦
        let full : (not (q.maxsize == 0) && leb q.maxsize (size q)) ≡ true = ground (arith, e) in
        (rw (enqueue, try_enqueue, full, e), rw (enqueue, try_enqueue, full, e))
  ]

  -- One turn of the waiting function puts the element in where the other one does; where it does not,
  -- the queue is full, and the turn waits only if the queue runs. After a push into a bounded queue
  -- the size is within the bound.
  pub enqueue-try_enqueue :
      (q : Queue A) (v : A)
      → q.maxsize < 2 ^ 32
      → ((enqueue q v).0 ≡ (try_enqueue q v).0)
        × ((enqueue q v).1 ≡ (try_enqueue q v).1)
        × ((((enqueue q v).1 ≡ true)
              × ((enqueue q v).2 ≡ returns)
              × ((q.maxsize ≡ 0) ⊎ (size (enqueue q v).0 ≤ q.maxsize)))
            ⊎ (((enqueue q v).1 ≡ false)
                × ((enqueue q v).0 ≡ q)
                × (q.maxsize ≤ size q)
                × ((enqueue q v).2 ≡ (if q.running then waits else returns))))
  enqueue-try_enqueue q v m = elim (Bool-cases ((q.maxsize == 0) || ltb (size q) q.maxsize)) [
    | inl e ↦
        let open_place : (not (q.maxsize == 0) && leb q.maxsize (size q)) ≡ false =
          ground (arith, e) in
        (
          (enqueue_cases q v).0,
          (enqueue_cases q v).1,
          inl (
            rw (enqueue, open_place),
            rw (enqueue, open_place),
            rw (enqueue, open_place) (ground (arith, e, m)),
          ),
        )
    | inr e ↦
        let full : (not (q.maxsize == 0) && leb q.maxsize (size q)) ≡ true = ground (arith, e) in
        (
          (enqueue_cases q v).0,
          (enqueue_cases q v).1,
          inr (rw (enqueue, full), rw (enqueue, full), ground (arith, full), rw (enqueue, full)),
        )
  ]

  popped-Fifo :
      (q : Queue A) (r : DataList A × Option A) (ins outs : List A)
      → Fifo q ins outs
      → Pops (λ v vs. vs ++ (v ∷ [])) q.queue r
      → Fifo (record q { queue = r.0 }) ins (elim r.1 [ some v ↦ outs ++ (v ∷ []) | none ↦ outs ])
  popped-Fifo q (l, none) ins outs f (inl p) =
      subst (λ l. Fifo (record q { queue = l }) ins outs) (sym p.2) f
  popped-Fifo q (l, none) ins outs f (inr p) = absurd (ground (arith, p.1))
  popped-Fifo q (l, some v) ins outs f (inl p) = absurd (ground (arith, p.0))
  popped-Fifo q (l, some v) ins outs (wf, e) (inr (w, s, vs, wf')) =
      let same : v ≡ w = ground (arith, s) in
      (
        wf',
        e
            ∙ ap (λ xs. outs ++ reverse xs) vs
            ∙ ap (λ xs. outs ++ xs) (reverse-append (values l) (w ∷ []))
            ∙ sym (append_assoc outs (w ∷ []) (reverse (values l)))
            ∙ ap (λ x. (outs ++ (x ∷ [])) ++ reverse (values l)) (sym same),
      )

  dequeue_lem :
      (q : Queue A) → ((dequeue q).0 ≡ (try_dequeue q).0) × ((dequeue q).1 ≡ (try_dequeue q).1)
  dequeue_lem q = elim (Option-cases (tail_pop q.queue).1) [
    | inl e ↦ (rw (dequeue, e), rw (dequeue, e))
    | inr (v, e) ↦ (rw (dequeue, e), rw (dequeue, e))
  ]

  same_state-Fifo :
      (ins outs : List A) {x y : Queue A} {r s : Option A}
      → x ≡ y
      → r ≡ s
      → Fifo y ins (elim s [ some v ↦ outs ++ (v ∷ []) | none ↦ outs ])
      → Fifo x ins (elim r [ some v ↦ outs ++ (v ∷ []) | none ↦ outs ])
  same_state-Fifo ins outs e d f = rw (e, d) f

  try_dequeue-Fifo :
      (q : Queue A) (ins outs : List A)
      → Fifo q ins outs
      → Fifo
          (try_dequeue q).0
          ins
          (elim (try_dequeue q).1 [ some v ↦ outs ++ (v ∷ []) | none ↦ outs ])
  try_dequeue-Fifo q ins outs f =
      popped-Fifo q (tail_pop q.queue) ins outs f (tail_pop-Pops q.queue f.0)

  enqueue-Fifo :
      (q : Queue A) (v : A) (ins outs : List A)
      → Fifo q ins outs
      → Fifo (enqueue q v).0 (if (enqueue q v).1 then ins ++ (v ∷ []) else ins) outs
  enqueue-Fifo q v ins outs f =
      let (e, d) = enqueue_cases q v in
      subst (λ x. Fifo x (if (enqueue q v).1 then ins ++ (v ∷ []) else ins) outs) (sym e)
        (subst (λ b. Fifo (try_enqueue q v).0 (if b then ins ++ (v ∷ []) else ins) outs) (sym d)
          (try_enqueue-Fifo q v ins outs f))

  -- Whatever is done with a queue, in whatever order, the elements put in are, first to last, those
  -- taken out and then those in the queue from its tail to its head, and the list is well-formed.
  pub Runs-Fifo : {q : Queue A} {ins outs : List A} → Runs q ins outs → Fifo q ins outs
  Runs-Fifo (allocs maxsize) = (record { sized = refl; hashed = inr refl }, refl)
  Runs-Fifo (tries {q = q} {ins = ins} {outs = outs} v s) =
      try_enqueue-Fifo q v ins outs (Runs-Fifo s)
  Runs-Fifo (enqueues {q = q} {ins = ins} {outs = outs} v s) =
      enqueue-Fifo q v ins outs (Runs-Fifo s)
  Runs-Fifo (tries_out {q = q} {ins = ins} {outs = outs} s) =
      try_dequeue-Fifo q ins outs (Runs-Fifo s)
  Runs-Fifo (dequeues {q = q} {ins = ins} {outs = outs} s) =
      let (e, d) = dequeue_lem q in
      same_state-Fifo ins outs e d (try_dequeue-Fifo q ins outs (Runs-Fifo s))
  Runs-Fifo (stops s) = Runs-Fifo s
  Runs-Fifo (resizes maxsize s) = Runs-Fifo s
