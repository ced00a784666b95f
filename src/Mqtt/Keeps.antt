-- ===== src/Mqtt/Keeps.antt =====
-- What every operation on the jobs leaves as it is: the keys of used jobs, their flags' meaning and
-- the bounds of the queues.
use flowio_waveshare_qwiic.Prelude.{
  ℕ, true, false, some, ◌≡◌, ◌≤◌, ◌&&◌, ◌||◌, not, get_elem?, refl, sym, subst, arith, All, All2,
  All2-refl, All2-set, All2-trans, All-get, All-set,
}
use flowio_waveshare_qwiic.Mqtt.Types.{Job, Item, Capacities, Jobs}
use flowio_waveshare_qwiic.Mqtt.Queues.{ring_push, ring_pop, queue_push, queue_pop, put_job}

-- A job that is queued is used and not being processed; one that is processed is used.
abbrev pub IsJob : Job → Type 0
IsJob j =
    ((j.queued && (not j.used || j.processing)) ≡ false) × ((j.processing && not j.used) ≡ false)

-- A used job was used before, for the same message.
abbrev pub SameKey : Job → Job → Type 0
SameKey j k =
    k.used ≡ true
    → (j.used ≡ true) × (k.producer_id ≡ j.producer_id) × (k.message_id ≡ j.message_id)

pub SameKey-refl : (j : Job) → SameKey j j
SameKey-refl j h = (h, refl, refl)

pub SameKey-trans : (i j k : Job) → SameKey i j → SameKey j k → SameKey i k
SameKey-trans i j k f g h = ground (arith, g h, f (g h).0)

module _ (c : Capacities) where
  pub record IsSound (q : Jobs) : Type 0 where
    pub flags : All IsJob q.jobs
    pub high_fits : q.high.count ≤ c.high_cap
    pub normal_fits : q.normal.count ≤ c.normal_cap
    pub low_fits : q.low.count ≤ c.low_cap

  pub record Keeps (q r : Jobs) : Type 0 where
    pub keys : All2 SameKey q.jobs r.jobs
    pub sound : IsSound q → IsSound r

  pub Keeps-refl : (q : Jobs) → Keeps q q
  Keeps-refl q = record { keys = All2-refl SameKey SameKey-refl q.jobs; sound = λ h. h }

  pub Keeps-trans : (p q r : Jobs) → Keeps p q → Keeps q r → Keeps p r
  Keeps-trans p q r f g = record {
    keys = All2-trans SameKey SameKey-trans p.jobs q.jobs r.jobs f.keys g.keys;
    sound = λ h. g.sound (f.sound h);
  }

  pub put_job-Keeps :
      (slot : ℕ) (old j : Job) (q : Jobs)
      → get_elem? q.jobs slot ≡ some old
      → SameKey old j
      → (IsJob old → IsJob j)
      → Keeps q (put_job c slot j q)
  put_job-Keeps slot old j q e same job = record {
    keys = All2-set SameKey SameKey-refl q.jobs slot old j e same;
    sound = λ h. record {
      flags = All-set IsJob q.jobs slot j h.flags (job (All-get IsJob q.jobs slot old h.flags e));
      high_fits = h.high_fits;
      normal_fits = h.normal_fits;
      low_fits = h.low_fits;
    };
  }

  pub queue_push-jobs :
      (prio : ℕ) (item : Item) (q : Jobs) → (queue_push c prio item q).0.jobs ≡ q.jobs
  unfolding queue_push
  queue_push-jobs prio item q = ground arith

  pub queue_push-Keeps : (prio : ℕ) (item : Item) (q : Jobs) → Keeps q (queue_push c prio item q).0
  unfolding queue_push ring_push
  queue_push-Keeps prio item q = record {
    keys =
        subst (All2 SameKey q.jobs) (sym (queue_push-jobs prio item q))
          (All2-refl SameKey SameKey-refl q.jobs);
    sound = λ h. record {
      flags = subst (All IsJob) (sym (queue_push-jobs prio item q)) h.flags;
      high_fits = ground (arith, h.high_fits);
      normal_fits = ground (arith, h.normal_fits);
      low_fits = ground (arith, h.low_fits);
    };
  }

  pub queue_pop-jobs : (prio : ℕ) (q : Jobs) → (queue_pop c prio q).0.jobs ≡ q.jobs
  unfolding queue_pop
  queue_pop-jobs prio q = ground arith

  pub queue_pop-Keeps : (prio : ℕ) (q : Jobs) → Keeps q (queue_pop c prio q).0
  unfolding queue_pop ring_pop
  queue_pop-Keeps prio q = record {
    keys =
        subst (All2 SameKey q.jobs) (sym (queue_pop-jobs prio q))
          (All2-refl SameKey SameKey-refl q.jobs);
    sound = λ h. record {
      flags = subst (All IsJob) (sym (queue_pop-jobs prio q)) h.flags;
      high_fits = ground (arith, h.high_fits);
      normal_fits = ground (arith, h.normal_fits);
      low_fits = ground (arith, h.low_fits);
    };
  }
