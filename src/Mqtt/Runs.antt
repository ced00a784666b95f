-- ===== src/Mqtt/Runs.antt =====
-- The jobs through any sequence of requests, takings and settlings.
use flowio_waveshare_qwiic.Prelude.{
  ℕ, zero, suc, Bool, true, false, Option, none, some, List, [], ◌∷◌, ◌≡◌, get_elem?, set, inl, inr,
  refl, sym, subst, ◌∙◌, arith, get_elem?-lt, get_elem?-set_self, Bool-cases, Option-cases, All,
  All-set, All2, All2-length, length, length-set,
}
use flowio_waveshare_qwiic.Mqtt.Types.{Job, blank_job, Capacities, Jobs, BuildResult}
use flowio_waveshare_qwiic.Mqtt.Queues.{put_job, queue_slot}
use flowio_waveshare_qwiic.Mqtt.Jobs.{
  has_key, find_job_slot, alloc_job_slot, new_job, enqueue_known, enqueue_new, enqueue_job, enqueue,
  dequeue_next_job, clear_all_jobs,
}
use flowio_waveshare_qwiic.Mqtt.Process.{settle}
use flowio_waveshare_qwiic.Mqtt.Keeps.{IsJob, SameKey, IsSound, Keeps}
use flowio_waveshare_qwiic.Mqtt.Steps.{queue_slot-Keeps}
use flowio_waveshare_qwiic.Mqtt.Taking.{enqueue_known-Keeps}

-- No used job is for the message.
abbrev pub IsFree : ℕ → ℕ → List Job → Type 0
IsFree producer message = All (λ j. has_key producer message j ≡ false)

-- No two used jobs are for one message.
abbrev pub Distinct : List Job → Type 0
Distinct [] = Unit {0}
Distinct (j ∷ js) = (j.used ≡ true → IsFree j.producer_id j.message_id js) × Distinct js

IsFree-keep : (p m : ℕ) (js ks : List Job) → All2 SameKey js ks → IsFree p m js → IsFree p m ks
IsFree-keep p m [] [] h f = f
IsFree-keep p m [] (k ∷ ks) h f = absurd h
IsFree-keep p m (j ∷ js) [] h f = absurd h
IsFree-keep p m (j ∷ js) (k ∷ ks) h f = (
  elim (Bool-cases k.used) [
    | inl used ↦ let same = h.0 used in ground (arith, same, f.0)
    | inr free ↦ ground arith
  ],
  IsFree-keep p m js ks h.1 f.1,
)

Distinct-keep : (js ks : List Job) → All2 SameKey js ks → Distinct js → Distinct ks
Distinct-keep [] [] h d = d
Distinct-keep [] (k ∷ ks) h d = absurd h
Distinct-keep (j ∷ js) [] h d = absurd h
Distinct-keep (j ∷ js) (k ∷ ks) h d = (
  λ used.
      let (was, p, m) = h.0 used in
      subst (λ n. IsFree n k.message_id ks) (sym p)
        (subst (λ n. IsFree j.producer_id n ks) (sym m)
          (IsFree-keep j.producer_id j.message_id js ks h.1 (d.0 was))),
  Distinct-keep js ks h.1 d.1,
)

-- A job for a message that no other is for.
Distinct-set :
    (js : List Job) (i : ℕ) (n : Job)
    → IsFree n.producer_id n.message_id js
    → Distinct js
    → Distinct (set js i n)
Distinct-set [] i n f d = tt
Distinct-set (j ∷ js) zero n f d = (λ used. f.1, d.1)
Distinct-set (j ∷ js) (suc i) n f d = (
  λ used.
      All-set (λ k. has_key j.producer_id j.message_id k ≡ false) js i n (d.0 used)
        (ground (arith, f.0)),
  Distinct-set js i n f.1 d.1,
)

-- A slot that is freed.
Distinct-freed :
    (js : List Job) (i : ℕ) (n : Job) → n.used ≡ false → Distinct js → Distinct (set js i n)
Distinct-freed [] i n f d = tt
Distinct-freed (j ∷ js) zero n f d = (λ used. absurd (cc), d.1)
Distinct-freed (j ∷ js) (suc i) n f d = (
  λ used.
      All-set (λ k. has_key j.producer_id j.message_id k ≡ false) js i n (d.0 used) (ground arith),
  Distinct-freed js i n f d.1,
)

find-IsFree : (p m : ℕ) (js : List Job) → find_job_slot p m js ≡ none → IsFree p m js
unfolding find_job_slot
find-IsFree p m [] h = tt
find-IsFree p m (j ∷ js) h = elim (Bool-cases (has_key p m j)) [
  | inl here ↦ absurd (ground (arith, here))
  | inr there ↦ elim (Option-cases (find_job_slot p m js)) [
    | inl gone ↦ (there, find-IsFree p m js gone)
    | inr (i, found) ↦ absurd (ground (arith, there, found))
  ]
]

module _ (c : Capacities) where
  -- Well-formed jobs and queues.
  pub record IsQueues (q : Jobs) : Type 0 where
    pub size : length q.jobs ≡ c.max_jobs
    pub sound : IsSound c q
    pub distinct : Distinct q.jobs

  pub Keeps-IsQueues : (q r : Jobs) → Keeps c q r → IsQueues q → IsQueues r
  Keeps-IsQueues q r k v = record {
    size = sym (All2-length SameKey q.jobs r.jobs k.keys) ∙ v.size;
    sound = k.sound v.sound;
    distinct = Distinct-keep q.jobs r.jobs k.keys v.distinct;
  }

  put_job-IsQueues :
      (i : ℕ) (j : Job) (q : Jobs)
      → IsJob j
      → Distinct (set q.jobs i j)
      → IsQueues q
      → IsQueues (put_job c i j q)
  put_job-IsQueues i j q job distinct v = record {
    size = length-set q.jobs i j ∙ v.size;
    sound = record {
      flags = All-set IsJob q.jobs i j v.sound.flags job;
      high_fits = v.sound.high_fits;
      normal_fits = v.sound.normal_fits;
      low_fits = v.sound.low_fits;
    };
    distinct = distinct;
  }

  set-idle :
      (i : ℕ) (j k : Job) (js : List Job)
      → j.processing ≡ false
      → get_elem? (set js i j) i ≡ some k
      → k.processing ≡ false
  set-idle i j k js idle e =
      let low = get_elem?-lt (set js i j) i k e in
      ground (arith, get_elem?-set_self js i j, length-set js i j)

  enqueue_new-IsQueues :
      (p m priority flags i : ℕ) (q : Jobs)
      → find_job_slot p m q.jobs ≡ none
      → IsQueues q
      → IsQueues (enqueue_new c i (new_job p m priority flags) q).0
  unfolding enqueue_new new_job
  enqueue_new-IsQueues p m priority flags i q none_yet v =
      let j = new_job p m priority flags in
      let q1 = put_job c i j q in
      let placed : IsQueues q1 =
        put_job-IsQueues i j q (refl, refl)
          (Distinct-set q.jobs i j (find-IsFree p m q.jobs none_yet) v.distinct) v in
      let queued : IsQueues (queue_slot c i j.priority false q1).0 =
        Keeps-IsQueues q1 _
          (queue_slot-Keeps c i j.priority false q1 (λ k e. set-idle i j k q.jobs refl e)) placed in
      elim (Bool-cases (queue_slot c i j.priority false q1).1) [
        | inl done ↦ rw done queued
        | inr full ↦ rw full (
            put_job-IsQueues i blank_job _ (refl, refl)
              (Distinct-freed _ i blank_job refl queued.distinct) queued)
      ]

  pub enqueue_job-IsQueues :
      (p m priority flags : ℕ) (q : Jobs)
      → IsQueues q
      → IsQueues (enqueue_job c p m priority flags q).0
  unfolding enqueue_job
  enqueue_job-IsQueues p m priority flags q v =
      let known : ℕ → Option Job → Jobs × Bool =
        λ i o. elim o [ none ↦ (q, false) | some old ↦ enqueue_known c i priority flags old q ] in
      let fresh : Option ℕ → Jobs × Bool = λ o. elim o [
        | none ↦ (q, false)
        | some i ↦ enqueue_new c i (new_job p m priority flags) q
      ] in
      let whole : Option ℕ → Jobs × Bool = λ o. elim o [
        | some i ↦ known i (get_elem? q.jobs i)
        | none ↦ fresh (alloc_job_slot q.jobs)
      ] in
      elim (Option-cases (find_job_slot p m q.jobs)) [
        | inr (i, there) ↦
            subst (λ o. IsQueues (whole o).0) (sym there)
              (elim (Option-cases (get_elem? q.jobs i)) [
                | inl gone ↦ subst (λ o. IsQueues (known i o).0) (sym gone) v
                | inr (old, found) ↦
                    subst (λ o. IsQueues (known i o).0) (sym found)
                      (Keeps-IsQueues q _ (enqueue_known-Keeps c i priority flags old q found) v)
              ])
        | inl absent ↦
            subst (λ o. IsQueues (whole o).0) (sym absent)
              (elim (Option-cases (alloc_job_slot q.jobs)) [
                | inl full ↦ subst (λ o. IsQueues (fresh o).0) (sym full) v
                | inr (i, at) ↦
                    subst (λ o. IsQueues (fresh o).0) (sym at)
                      (enqueue_new-IsQueues p m priority flags i q absent v)
              ])
      ]

  -- A request, the first critical section of a round of `processJobs_`, its last one, or a reset.
  pub data Action : Type 0 where
    request : Bool → ℕ → ℕ → ℕ → ℕ → Action
    take : ℕ → Action
    finish : ℕ → Bool → BuildResult → ℕ → Action
    clear : Action

  unfoldable pub act : Action → Jobs → Jobs
  act (request connected p m priority flags) q = (enqueue c connected p m priority flags q).0
  act (take now) q = (dequeue_next_job c now q).0
  act (finish now sent result slot) q = (settle c now sent result slot q).0
  act clear q = clear_all_jobs c q

  unfoldable pub act_all : List Action → Jobs → Jobs
  act_all [] q = q
  act_all (a ∷ more) q = act_all more (act a q)
