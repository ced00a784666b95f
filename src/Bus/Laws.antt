-- ===== src/Bus/Laws.antt =====
-- A dispatch over any queue of the operating system against lists of events: order, loss and delivery.
use flowio_waveshare_qwiic.Prelude.{
  ℕ, zero, suc, none, some, List, [], ◌∷◌, ◌++◌, ◌≡◌, ◌≤◌, length, refl, sym, ap, subst, ◌∙◌, ◌⊎◌,
  inl, inr, arith,
}
use flowio_waveshare_qwiic.Bus.Types.{Queued, Subscriber, QueueOps, Bus}
use flowio_waveshare_qwiic.Bus.Dispatch.{
  Call, Posted, dispatch_one, run_calls, dispatch_loop, dispatch, roll_window,
}
use flowio_waveshare_qwiic.Bus.Growth.{reactions, admit, Behind, run_calls-Grows}

-- The calls for a sequence of events, one event after the other.
unfoldable pub deliver : List Subscriber → List Queued → List Call
deliver ss [] = []
deliver ss (e ∷ es) = dispatch_one e ss ++ deliver ss es

List-cases {ℓ} : {A : Type ℓ} (l : List A) → (l ≡ []) ⊎ ((x : A) × ((es : List A) × (l ≡ x ∷ es)))
List-cases [] = inl refl
List-cases (x ∷ es) = inr (x, (es, refl))

-- What a dispatch of at most `n` events comes to on the list of the events waiting, in a queue of
-- `room` places: the events taken, and those left. Each event taken is the oldest one, and the events
-- posted for it join the others where there is room.
unfoldable pub served :
    ℕ → (Call → List Posted) → List Subscriber → ℕ → List Queued → List Queued × List Queued
served room react ss zero xs = ([], xs)
served room react ss (suc n) [] = ([], [])
served room react ss (suc n) (x ∷ xs) =
    let (taken, left) =
      served room react ss n (admit room xs (reactions react (dispatch_one x ss))) in
    (x ∷ taken, left)

module _ (o : QueueOps) where
  open o use {Queue, capacity, waiting, receive, receive_empty, receive_next}

  module _ (react : Call → List Posted) where
    -- What a dispatch of at most `n` events from `q`, with the subscribers `ss`, comes to.
    pub record IsFifo (n : ℕ) (ss : List Subscriber) (q : Queue)
        (out : Bus o × List Queued × List Call) : Type 0 where
      pub subs_same : out.0.subs ≡ ss
      pub calls : out.2 ≡ deliver ss out.1
      pub queue : Queue
      pub found : out.0.queue ≡ some queue
      pub taken : out.1 ≡ (served capacity react ss n (waiting q)).0
      pub left : waiting queue ≡ (served capacity react ss n (waiting q)).1
      pub bounded : length out.1 ≤ n
      pub stop : (length out.1 ≡ n) ⊎ (waiting queue ≡ [])

    dispatch_loop-none :
        (n : ℕ) (b : Bus o) (q : Queue)
        → b.queue ≡ some q
        → (receive q).1 ≡ none
        → dispatch_loop o react (suc n) b ≡ (record b { queue = some (receive q).0 }, [], [])
    unfolding dispatch_loop
    dispatch_loop-none n b q e empty = ground (arith, e, empty)

    dispatch_loop-some :
        (n : ℕ) (b : Bus o) (q : Queue) (x : Queued)
        → b.queue ≡ some q
        → (receive q).1 ≡ some x
        → dispatch_loop o react (suc n) b ≡ (
            let calls = dispatch_one x b.subs in
            let rest =
              dispatch_loop o react n
                (run_calls o react calls (record b { queue = some (receive q).0 })) in
            (rest.0, x ∷ rest.1, calls ++ rest.2))
    unfolding dispatch_loop
    dispatch_loop-some n b q x e next = ground (arith, e, next)

    -- One event more in front of a dispatch.
    extend-IsFifo :
        (n : ℕ) (b : Bus o) (q : Queue) (x : Queued) (es : List Queued)
        → waiting q ≡ x ∷ es
        → waiting (receive q).0 ≡ es
        → (c : Bus o) → c.subs ≡ b.subs
        → (grown : Behind o (reactions react (dispatch_one x b.subs)) (receive q).0 c)
        → (out : Bus o × List Queued × List Call) → IsFifo n c.subs grown.queue out
        → IsFifo (suc n) b.subs q (out.0, x ∷ out.1, dispatch_one x b.subs ++ out.2)
    unfolding deliver served
    extend-IsFifo n b q x es front tail c same grown out rest =
        let posted = reactions react (dispatch_one x b.subs) in
        let next : served capacity react c.subs n (waiting grown.queue)
            ≡ served capacity react b.subs n (admit capacity es posted) =
          ap (λ ss. served capacity react ss n (waiting grown.queue)) same
          ∙ ap (served capacity react b.subs n)
              (grown.behind ∙ ap (λ xs. admit capacity xs posted) tail) in
        record {
          subs_same = rest.subs_same ∙ same;
          calls =
              ap (λ k. dispatch_one x b.subs ++ k) (rest.calls ∙ ap (λ l. deliver l out.1) same);
          queue = rest.queue;
          found = rest.found;
          taken =
              ap (λ l. x ∷ l) (rest.taken ∙ ap (λ r. r.0) next)
              ∙ ap (λ xs. (served capacity react b.subs (suc n) xs).0) (sym front);
          left =
              rest.left
              ∙ (ap (λ r. r.1) next
                  ∙ ap (λ xs. (served capacity react b.subs (suc n) xs).1) (sym front));
          bounded = omega (arith, rest.bounded);
          stop = elim rest.stop [ inl all ↦ inl (ap suc all) | inr empty ↦ inr empty ];
        }

    none_allowed-IsFifo : (b : Bus o) (q : Queue) → b.queue ≡ some q → IsFifo 0 b.subs q (b, [], [])
    unfolding deliver served
    none_allowed-IsFifo b q e = record {
      subs_same = refl;
      calls = refl;
      queue = q;
      found = e;
      taken = refl;
      left = refl;
      bounded = omega arith;
      stop = inl refl;
    }

    empty-IsFifo :
        (n : ℕ) (b c : Bus o) (q r : Queue)
        → c.subs ≡ b.subs
        → c.queue ≡ some r
        → waiting q ≡ []
        → waiting r ≡ []
        → IsFifo (suc n) b.subs q (c, [], [])
    unfolding deliver served
    empty-IsFifo n b c q r same e before after = record {
      subs_same = same;
      calls = refl;
      queue = r;
      found = e;
      taken = ap (λ xs. (served capacity react b.subs (suc n) xs).0) (sym before);
      left = after ∙ ap (λ xs. (served capacity react b.subs (suc n) xs).1) (sym before);
      bounded = omega arith;
      stop = inr after;
    }

    dispatch_loop-IsFifo :
        (n : ℕ) (b : Bus o) (q : Queue)
        → b.queue ≡ some q
        → IsFifo n b.subs q (dispatch_loop o react n b)
    unfolding dispatch_loop
    dispatch_loop-IsFifo zero b q e = none_allowed-IsFifo b q e
    dispatch_loop-IsFifo (suc n) b q e =
        let next = receive q in
        let b1 : Bus o = record b { queue = some next.0 } in
        elim (List-cases (waiting q)) [
          | inl empty ↦
              let (none_left, still) = receive_empty q empty in
              subst (IsFifo (suc n) b.subs q) (sym (dispatch_loop-none n b q e none_left))
                (empty-IsFifo n b b1 q next.0 refl refl empty still)
          | inr (x, (es, front)) ↦
              let (taken, tail) = receive_next q x es front in
              let calls = dispatch_one x b.subs in
              let c : Bus o = run_calls o react calls b1 in
              let grown = run_calls-Grows o react calls b1 in
              let more = grown.added next.0 refl in
              subst (IsFifo (suc n) b.subs q) (sym (dispatch_loop-some n b q x e taken)) (
                extend-IsFifo n b q x es front tail c grown.subs_same more
                  (dispatch_loop o react n c) (dispatch_loop-IsFifo n c more.queue more.found))
        ]

    dispatch-dispatch_loop :
        (now n : ℕ) (b : Bus o) (q : Queue)
        → b.queue ≡ some q
        → dispatch o react now n b
          ≡ dispatch_loop o react n (record b { stats = roll_window now b.stats })
    unfolding dispatch
    dispatch-dispatch_loop now n b q e = ground (arith, e)

    -- A dispatch of at most `n` events, compared with the list of the events waiting: it takes the
    -- oldest one, calls its subscribers in their order, and sends what they post, where a payload of
    -- more than 48 bytes is refused and an event is lost where all places of the queue are taken; so
    -- on until it has taken `n` events or none is left. The events taken, in their order, those left,
    -- and the calls are exactly these, and the subscribers stay.
    pub dispatch-IsFifo :
        (now n : ℕ) (b : Bus o) (q : Queue)
        → b.queue ≡ some q
        → IsFifo n b.subs q (dispatch o react now n b)
    dispatch-IsFifo now n b q e =
        subst (IsFifo n b.subs q) (sym (dispatch-dispatch_loop now n b q e))
          (dispatch_loop-IsFifo n (record b { stats = roll_window now b.stats }) q e)
