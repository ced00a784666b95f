-- ===== src/Bus/Growth.antt =====
-- What posts add to the queue: their events behind those waiting, as long as there is room.
use flowio_waveshare_qwiic.Prelude.{
  ℕ, false, some, List, [], ◌∷◌, ◌++◌, ◌≡◌, ltb, leb, leb→le, length, refl, sym, ap, ◌∙◌, inl, inr,
  arith, Bool-cases, subst, if◌then◌else◌,
}
use flowio_waveshare_qwiic.Bus.Types.{Queued, QueueOps, Bus}
use flowio_waveshare_qwiic.Bus.Posting.{queued_event, post}
use flowio_waveshare_qwiic.Bus.Dispatch.{Call, Posted, post_each, run_calls}

-- The events of a sequence of posts: a payload of more than 48 bytes is refused.
unfoldable pub queued_posts : List Posted → List Queued
queued_posts [] = []
queued_posts (p ∷ ps) =
    let rest = queued_posts ps in
    if leb p.len 48 then queued_event p.id p.payload p.len ∷ rest else rest

-- The events that callbacks post.
unfoldable pub reactions : (Call → List Posted) → List Call → List Queued
reactions react [] = []
reactions react (k ∷ ks) = queued_posts (react k) ++ reactions react ks

-- A queue of `room` places after events are sent to it: each is put behind those waiting, or lost
-- where all places are taken.
unfoldable pub admit : ℕ → List Queued → List Queued → List Queued
admit room waiting [] = waiting
admit room waiting (e ∷ es) =
    let joined = admit room (waiting ++ (e ∷ [])) es in
    let lost = admit room waiting es in if ltb (length waiting) room then joined else lost

admit-append :
    (room : ℕ) (xs es fs : List Queued)
    → admit room xs (es ++ fs) ≡ admit room (admit room xs es) fs
unfolding admit
admit-append room xs [] fs = refl
admit-append room xs (e ∷ es) fs =
    ground (arith, admit-append room (xs ++ (e ∷ [])) es fs, admit-append room xs es fs)

module _ (o : QueueOps) where
  open o use {Queue, capacity, waiting, send, send_room, send_full}

  -- The queue `q` after the events `posted` are sent to it.
  pub record Behind (posted : List Queued) (q : Queue) (c : Bus o) : Type 0 where
    pub queue : Queue
    pub found : c.queue ≡ some queue
    pub behind : waiting queue ≡ admit capacity (waiting q) posted

  -- The subscribers stay, and the events `posted` are sent.
  pub record Grows (posted : List Queued) (b c : Bus o) : Type 0 where
    pub subs_same : c.subs ≡ b.subs
    pub added : (q : Queue) → b.queue ≡ some q → Behind posted q c

  Grows-refl : (b : Bus o) → Grows [] b b
  unfolding admit
  Grows-refl b = record {
    subs_same = refl;
    added = λ q e. record { queue = q; found = e; behind = refl };
  }

  Grows-trans :
      (ps qs : List Queued) (a b c : Bus o) → Grows ps a b → Grows qs b c → Grows (ps ++ qs) a c
  Grows-trans ps qs a b c f g = record {
    subs_same = g.subs_same ∙ f.subs_same;
    added = λ q e.
        let first = f.added q e in
        let second = g.added first.queue first.found in
        record {
          queue = second.queue;
          found = second.found;
          behind =
              second.behind
              ∙ (ap (λ xs. admit capacity xs qs) first.behind
                  ∙ sym (admit-append capacity (waiting q) ps qs));
        };
  }

  post-Grows :
      (p : Posted) (b : Bus o)
      → Grows (queued_posts (p ∷ [])) b (post o false p.id p.payload p.len b).0
  unfolding post queued_posts admit
  post-Grows p b = record {
    subs_same = ground arith;
    added = λ q e.
        let event = queued_event p.id p.payload p.len in
        let c : Bus o = (post o false p.id p.payload p.len b).0 in
        elim (Bool-cases (ltb 48 p.len)) [
          | inl large ↦ record { queue = q; found = ground (arith, e); behind = ground arith }
          | inr small ↦ elim (Bool-cases (leb capacity (length (waiting q)))) [
            | inl full ↦ record {
              queue = (send q event).0;
              found = ground (arith, e);
              behind = (send_full q event (leb→le _ _ full)).1 ∙ ground arith;
            }
            | inr room ↦ record {
              queue = (send q event).0;
              found = ground (arith, e);
              behind = (send_room q event (ground arith)).1 ∙ ground arith;
            }
          ]
        ];
  }

  module _ (react : Call → List Posted) where
    queued_posts-cons :
        (p : Posted) (ps : List Posted)
        → queued_posts (p ∷ ps) ≡ queued_posts (p ∷ []) ++ queued_posts ps
    unfolding queued_posts
    queued_posts-cons p ps = elim (Bool-cases (leb p.len 48)) [
      | inl small ↦ ground (arith, small)
      | inr large ↦ ground (arith, large)
    ]

    post_each-Grows :
        (ps : List Posted) (b : Bus o) → Grows (queued_posts ps) b (post_each o react ps b)
    unfolding post_each queued_posts
    post_each-Grows [] b = Grows-refl b
    post_each-Grows (p ∷ ps) b =
        subst (λ es. Grows es b (post_each o react (p ∷ ps) b)) (sym (queued_posts-cons p ps))
          (Grows-trans (queued_posts (p ∷ [])) (queued_posts ps) b
            (post o false p.id p.payload p.len b).0
            (post_each o react ps (post o false p.id p.payload p.len b).0) (post-Grows p b)
            (post_each-Grows ps _))

    pub run_calls-Grows :
        (ks : List Call) (b : Bus o) → Grows (reactions react ks) b (run_calls o react ks b)
    unfolding run_calls reactions
    run_calls-Grows [] b = Grows-refl b
    run_calls-Grows (k ∷ ks) b =
        Grows-trans (queued_posts (react k)) (reactions react ks) b (post_each o react (react k) b)
          (run_calls o react ks (post_each o react (react k) b)) (post_each-Grows (react k) b)
          (run_calls-Grows ks _)
