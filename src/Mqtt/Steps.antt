-- ===== src/Mqtt/Steps.antt =====
-- The steps of the jobs, one by one.
use flowio_waveshare_qwiic.Prelude.{
  ℕ, Bool, true, false, some, ◌≡◌, ◌||◌, leb, not, if◌then◌else◌, get_elem?, inl, inr, refl, sym,
  ap, subst, ◌∙◌, arith, get_elem?-lt, get_elem?-set_self, Bool-cases, Option-cases,
}
use flowio_waveshare_qwiic.Mqtt.Types.{Job, Item, Capacities, Jobs}
use flowio_waveshare_qwiic.Mqtt.Queues.{
  queue_push, put_job, invalidated, queued_as, push_job, queue_slot,
}
use flowio_waveshare_qwiic.Mqtt.Keeps.{
  IsJob, SameKey, Keeps, Keeps-refl, Keeps-trans, put_job-Keeps, queue_push-jobs, queue_push-Keeps,
}

module _ (c : Capacities) where
  pub Keeps-if :
      {A : Type 0} (b : Bool) (q : Jobs) (x y : Jobs × A)
      → (b ≡ true → Keeps c q x.0)
      → (b ≡ false → Keeps c q y.0)
      → Keeps c q (if b then x else y).0
  Keeps-if true q x y hx hy = hx refl
  Keeps-if false q x y hx hy = hy refl

  pub Keeps-if_plain :
      (b : Bool) (q x y : Jobs)
      → (b ≡ true → Keeps c q x)
      → (b ≡ false → Keeps c q y)
      → Keeps c q (if b then x else y)
  Keeps-if_plain true q x y hx hy = hx refl
  Keeps-if_plain false q x y hx hy = hy refl

  pub get_put :
      (slot : ℕ) (old j : Job) (q : Jobs)
      → get_elem? q.jobs slot ≡ some old
      → get_elem? (put_job c slot j q).jobs slot ≡ some j
  get_put slot old j q e = get_elem?-set_self q.jobs slot j (get_elem?-lt q.jobs slot old e)

  -- Two writes of the same job.
  put_twice-Keeps :
      (slot : ℕ) (old j k : Job) (q r : Jobs)
      → get_elem? q.jobs slot ≡ some old
      → r.jobs ≡ (put_job c slot j q).jobs
      → Keeps c (put_job c slot j q) r
      → Keeps c q (put_job c slot j q)
      → SameKey j k
      → (IsJob j → IsJob k)
      → Keeps c q (put_job c slot k r)
  put_twice-Keeps slot old j k q r e same f g key job =
      Keeps-trans c q r _ (Keeps-trans c q (put_job c slot j q) r g f) (
        put_job-Keeps c slot j k r (ap (λ js. get_elem? js slot) same ∙ get_put slot old j q e) key
          job)

  -- A job that is used and not being processed is queued, or left unqueued where the queue is full.
  push_job-Keeps :
      (slot prio : ℕ) (old j : Job) (q : Jobs)
      → get_elem? q.jobs slot ≡ some old
      → SameKey old j
      → j.used ≡ true
      → j.processing ≡ false
      → Keeps c q (push_job c slot prio j q).0
  unfolding push_job queued_as
  push_job-Keeps slot prio old j q e same used idle =
      let j1 = queued_as c prio j in
      let item : Item = record { slot = slot; token = j1.queue_token } in
      let q1 = put_job c slot j1 q in
      let first = put_job-Keeps c slot old j1 q e (λ h. same used) (λ h. ground arith) in
      let pushed = queue_push-Keeps c prio item q1 in
      Keeps-if j.queued q (put_job c slot j q, true) _
        (λ there. put_job-Keeps c slot old j q e same (λ h. ground arith))
        (λ absent.
          Keeps-if (queue_push c prio item q1).1 q _ _ (λ fits. Keeps-trans c q q1 _ first pushed)
            (λ full.
              put_twice-Keeps slot old j1 (record j1 { queued = false }) q
                (queue_push c prio item q1).0 e (queue_push-jobs c prio item q1) pushed first
                (λ h. (used, refl, refl)) (λ h. ground arith)))

  abbrev pub IsIdle : ℕ → Jobs → Type 0
  IsIdle slot q = (j : Job) → get_elem? q.jobs slot ≡ some j → j.processing ≡ false

  pub queue_slot-Keeps :
      (slot prio : ℕ) (invalidate : Bool) (q : Jobs)
      → IsIdle slot q
      → Keeps c q (queue_slot c slot prio invalidate q).0
  unfolding queue_slot invalidated
  queue_slot-Keeps slot prio invalidate q idle = elim (Option-cases (get_elem? q.jobs slot)) [
    | inl gone ↦
        let same : (queue_slot c slot prio invalidate q).0 ≡ q = ground (arith, gone) in
        subst (Keeps c q) (sym same) (Keeps-refl c q)
    | inr (j, found) ↦ elim (Bool-cases (leb c.max_jobs slot || not j.used)) [
      | inl stop ↦
          let same : (queue_slot c slot prio invalidate q).0 ≡ q = ground (arith, found) in
          subst (Keeps c q) (sym same) (Keeps-refl c q)
      | inr go ↦
          let k = invalidated c invalidate j in
          let same : queue_slot c slot prio invalidate q ≡ push_job c slot prio k q =
            ground (arith, found) in
          subst (λ r. Keeps c q r.0) (sym same)
            (push_job-Keeps slot prio j k q found (λ h. ground arith) (ground arith)
              (ground (arith, idle j found)))
    ]
  ]
