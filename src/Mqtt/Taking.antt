-- ===== src/Mqtt/Taking.antt =====
-- Requests for known jobs, the scan, and settling, as steps that keep the jobs.
use mathlib.Core.Option.{some-injective}
use flowio_waveshare_qwiic.Prelude.{
  ℕ, zero, suc, Bool, true, false, Option, none, some, ◌≡◌, ◌||◌, ◌!=◌, leb, ltb, not,
  if◌then◌else◌, get_elem?, inl, inr, refl, sym, ap, subst, ◌∙◌, arith, Option-cases, sub32,
}
use flowio_waveshare_qwiic.Mqtt.Types.{
  prio_high, prio_normal, prio_low, Job, blank_job, Item, Capacities, Jobs, BuildResult,
}
use flowio_waveshare_qwiic.Mqtt.Queues.{queue_pop, put_job, queue_slot}
use flowio_waveshare_qwiic.Mqtt.Jobs.{
  enqueue_known, take_job, take_item, try_prio, or_else, scan_round, scan, dequeue_next_job,
}
use flowio_waveshare_qwiic.Mqtt.Process.{requeue, settle_job, settle, Callback, wants_retry}
use flowio_waveshare_qwiic.Mqtt.Keeps.{
  IsJob, SameKey, Keeps, Keeps-refl, Keeps-trans, put_job-Keeps, queue_pop-Keeps,
}
use flowio_waveshare_qwiic.Mqtt.Steps.{Keeps-if, get_put, queue_slot-Keeps, Keeps-if_plain}

module _ (c : Capacities) where
  -- A write of an idle job, and then its place in a queue.
  put_queue-Keeps :
      (slot prio : ℕ) (invalidate : Bool) (old j : Job) (q : Jobs)
      → get_elem? q.jobs slot ≡ some old
      → SameKey old j
      → j.processing ≡ false
      → (IsJob old → IsJob j)
      → Keeps c q (queue_slot c slot prio invalidate (put_job c slot j q)).0
  put_queue-Keeps slot prio invalidate old j q e same idle job =
      Keeps-trans c q (put_job c slot j q) _ (put_job-Keeps c slot old j q e same job) (
        queue_slot-Keeps c slot prio invalidate (put_job c slot j q) (λ k f.
          ap (λ x. x.processing) (some-injective _ _ (sym f ∙ get_put c slot old j q e)) ∙ idle))

  pub enqueue_known-Keeps :
      (slot priority flags : ℕ) (old : Job) (q : Jobs)
      → get_elem? q.jobs slot ≡ some old
      → Keeps c q (enqueue_known c slot priority flags old q).0
  unfolding enqueue_known
  enqueue_known-Keeps slot priority flags old q e =
      Keeps-if c old.processing q _ _
        (λ busy. put_job-Keeps c slot old _ q e (λ h. (h, refl, refl)) (λ h. h))
        (λ idle.
          Keeps-if c old.queued q _ _
            (λ there.
              Keeps-if c (ltb old.queued_prio _) q _ _
                (λ raise.
                  put_queue-Keeps slot _ true old _ q e (λ h. (h, refl, refl)) idle (λ h. h))
                (λ stay. put_job-Keeps c slot old _ q e (λ h. (h, refl, refl)) (λ h. h)))
            (λ absent. put_queue-Keeps slot _ false old _ q e (λ h. (h, refl, refl)) idle (λ h. h)))

  take_job-Keeps :
      (now prio : ℕ) (item : Item) (j : Job) (q : Jobs)
      → get_elem? q.jobs item.slot ≡ some j
      → Keeps c q (take_job c now prio item j q).0
  unfolding take_job
  take_job-Keeps now prio item j q e =
      let off : Job = record j { queued = false } in
      let q1 = put_job c item.slot off q in
      let first = put_job-Keeps c item.slot j off q e (λ h. (h, refl, refl)) (λ h. ground arith) in
      Keeps-if c
        (not j.used || (not j.queued || (j.queue_token != item.token || j.queued_prio != prio))) q
        (q, none) _ (λ stale. Keeps-refl c q)
        (λ match.
          Keeps-if c j.processing q (q1, none) _ (λ busy. first)
            (λ idle.
              Keeps-if c (leb 2147483648 (sub32 now j.not_before_ms)) q _ _
                (λ early.
                  put_queue-Keeps item.slot j.priority false j off q e (λ h. (h, refl, refl)) idle
                    (λ h. ground arith))
                (λ due. Keeps-trans c q q1 _ first (
                  put_job-Keeps c item.slot off (record off { processing = true }) q1
                    (get_put c item.slot j off q e) (λ h. (h, refl, refl)) (λ h. ground arith)))))

  take_item-Keeps :
      (now prio : ℕ) (item : Item) (q : Jobs) → Keeps c q (take_item c now prio item q).0
  unfolding take_item
  take_item-Keeps now prio item q =
      let chosen : Option Job → Jobs × Option ℕ =
        λ o. elim o [ none ↦ (q, none) | some j ↦ take_job c now prio item j q ] in
      Keeps-if c (leb c.max_jobs item.slot) q (q, none) (chosen (get_elem? q.jobs item.slot))
        (λ out. Keeps-refl c q)
        (λ here. elim (Option-cases (get_elem? q.jobs item.slot)) [
          | inl gone ↦ subst (λ o. Keeps c q (chosen o).0) (sym gone) (Keeps-refl c q)
          | inr (j, found) ↦
              subst (λ o. Keeps c q (chosen o).0) (sym found)
                (take_job-Keeps now prio item j q found)
        ])

  try_prio-Keeps : (now prio : ℕ) (q : Jobs) → Keeps c q (try_prio c now prio q).0
  unfolding try_prio
  try_prio-Keeps now prio q =
      let q1 = (queue_pop c prio q).0 in
      let first = queue_pop-Keeps c prio q in
      let taken : Option Item → Jobs × Option ℕ =
        λ o. elim o [ none ↦ (q1, none) | some item ↦ take_item c now prio item q1 ] in
      elim (Option-cases (queue_pop c prio q).1) [
        | inl empty ↦ subst (λ o. Keeps c q (taken o).0) (sym empty) first
        | inr (item, popped) ↦
            subst (λ o. Keeps c q (taken o).0) (sym popped)
              (Keeps-trans c q q1 _ first (take_item-Keeps now prio item q1))
      ]

  or_else-Keeps :
      (q : Jobs) (a : Jobs × Option ℕ) (b : Jobs → Jobs × Option ℕ)
      → Keeps c q a.0
      → ((r : Jobs) → Keeps c r (b r).0)
      → Keeps c q (or_else c a b).0
  or_else-Keeps q (r, none) b f g = Keeps-trans c q r _ f (g r)
  or_else-Keeps q (r, some i) b f g = f

  scan-Keeps : (rounds now : ℕ) (q : Jobs) → Keeps c q (scan c rounds now q).0
  unfolding scan scan_round
  scan-Keeps zero now q = Keeps-refl c q
  scan-Keeps (suc rounds) now q =
      let low : Jobs → Jobs × Option ℕ = λ r. try_prio c now prio_low r in
      let rest : Jobs → Jobs × Option ℕ = λ r. or_else c (try_prio c now prio_normal r) low in
      or_else-Keeps q (or_else c (try_prio c now prio_high q) rest) (λ q1. scan c rounds now q1)
        (or_else-Keeps q (try_prio c now prio_high q) rest (try_prio-Keeps now prio_high q) (λ r.
          or_else-Keeps r (try_prio c now prio_normal r) low (try_prio-Keeps now prio_normal r)
            (λ s. try_prio-Keeps now prio_low s)))
        (λ r. scan-Keeps rounds now r)

  pub dequeue-Keeps : (now : ℕ) (q : Jobs) → Keeps c q (dequeue_next_job c now q).0
  unfolding dequeue_next_job
  dequeue-Keeps now q = scan-Keeps _ now q

  requeue-Keeps :
      (slot : ℕ) (old j : Job) (q : Jobs)
      → get_elem? q.jobs slot ≡ some old
      → SameKey old j
      → j.processing ≡ false
      → (IsJob old → IsJob j)
      → Keeps c q (requeue c slot j q)
  unfolding requeue
  requeue-Keeps slot old j q e same idle job =
      put_queue-Keeps slot j.priority false old j q e same idle job

  settle_job-Keeps :
      (now : ℕ) (sent : Bool) (result : BuildResult) (slot : ℕ) (j : Job) (q : Jobs)
      → get_elem? q.jobs slot ≡ some j
      → j.used ≡ true
      → Keeps c q (settle_job c now sent result slot j q).0
  unfolding settle_job
  settle_job-Keeps now sent result slot j q e used =
      let gone = put_job-Keeps c slot j blank_job q e (λ h. absurd (cc)) (λ h. (refl, refl)) in
      Keeps-if c sent q _ _
        (λ out.
          Keeps-if_plain c j.requeue_after_process q _ _
            (λ again. requeue-Keeps slot j _ q e (λ h. (h, refl, refl)) refl (λ h. ground arith))
            (λ over. gone))
        (λ kept.
          Keeps-if c (wants_retry result) q _ _
            (λ retry. requeue-Keeps slot j _ q e (λ h. (h, refl, refl)) refl (λ h. ground arith))
            (λ failed.
              Keeps-if c j.requeue_after_process q _ _
                (λ again.
                  requeue-Keeps slot j _ q e (λ h. (h, refl, refl)) refl (λ h. ground arith))
                (λ over. gone)))

  pub settle-Keeps :
      (now : ℕ) (sent : Bool) (result : BuildResult) (slot : ℕ) (q : Jobs)
      → Keeps c q (settle c now sent result slot q).0
  unfolding settle
  settle-Keeps now sent result slot q =
      let end : Option Job → Jobs × Option Callback = λ o. elim o [
        | none ↦ (q, none)
        | some j ↦
            if not j.used
            then (q, none)
            else (let (q1, call) = settle_job c now sent result slot j q in (q1, some call))
      ] in
      elim (Option-cases (get_elem? q.jobs slot)) [
        | inl gone ↦ subst (λ o. Keeps c q (end o).0) (sym gone) (Keeps-refl c q)
        | inr (j, found) ↦
            subst (λ o. Keeps c q (end o).0) (sym found)
              (Keeps-if c (not j.used) q (q, none) _ (λ free. Keeps-refl c q)
                (λ busy. settle_job-Keeps now sent result slot j q found (ground arith)))
      ]
