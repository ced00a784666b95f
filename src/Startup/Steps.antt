-- ===== src/Startup/Steps.antt =====
-- The start of one module: what it keeps, and what it starts.
use flowio_waveshare_qwiic.Prelude.{
  ℕ, zero, suc, ◌≤◌, ◌≡◌, ◌≢◌, sym, ap, subst, ◌∙◌, ◌⊎◌, inl, inr, refl, Bool, true, some, List, [],
  ◌∷◌, ◌==◌, set, get_elem?, get_elem?-set_ne, arith, Bool-cases, Option-cases,
}
use mathlib.Core.Option.{some-injective}
use flowio_waveshare_qwiic.Startup.Manager.{Decl, is_valid_id}
use flowio_waveshare_qwiic.Startup.Order.{is_placed}
use flowio_waveshare_qwiic.Startup.Release.{
  Host, Sequencer, deps_started, start_tasks, start_module,
}

is_placed-more :
    (id i : ℕ) (ms : List Decl) (ps : List Bool)
    → is_placed id ms ps ≡ true
    → is_placed id ms (set ps i true) ≡ true
unfolding is_placed
is_placed-more id i [] ps h = h
is_placed-more id i (m ∷ ms) [] h = h
is_placed-more id zero (m ∷ ms) (p ∷ ps) h = ground arith
is_placed-more id (suc i) (m ∷ ms) (p ∷ ps) h = elim (Bool-cases (m.id == id)) [
  | inl e ↦ ground arith
  | inr e ↦ ground (arith, is_placed-more id i ms ps (ground arith))
]

-- What is started after one more start.
started-set :
    (ps : List Bool) (i j : ℕ)
    → get_elem? (set ps i true) j ≡ some true
    → (i ≡ j) ⊎ (get_elem? ps j ≡ some true)
started-set ps i j e = elim (Bool-cases (i == j)) [
  | inl k ↦ inl (ground arith)
  | inr k ↦
      let apart : i ≢ j = λ q. ground arith in inr (sym (get_elem?-set_ne ps i j true apart) ∙ e)
]

module _ (h : Host) where
  open h use {start_delay_ms, tasks, on_start}

  deps_started-more :
      (i : ℕ) (ms : List Decl) (ps : List Bool) (ds : List ℕ)
      → deps_started h ms ps ds ≡ true
      → deps_started h ms (set ps i true) ds ≡ true
  unfolding deps_started
  deps_started-more i ms ps [] e = refl
  deps_started-more i ms ps (d ∷ ds) e =
      let rest = deps_started-more i ms ps ds (ground arith) in
      elim (Bool-cases (is_valid_id d)) [
        | inl good ↦ ground (arith, is_placed-more d i ms ps (ground arith))
        | inr bad ↦ ground arith
      ]

  -- Every module that is started has its dependencies started.
  unfoldable pub IsReleased : Sequencer h → Type 0
  IsReleased s =
      (i : ℕ) (m : Decl)
      → get_elem? s.ordered i ≡ some m
      → get_elem? s.started i ≡ some true
      → deps_started h s.ordered s.started m.deps ≡ true

  -- A part of a tick at `elapsed`: it keeps the order and the rule, and starts what is due.
  pub record Step (elapsed : ℕ) (s t : Sequencer h) : Type 0 where
    pub same : t.ordered ≡ s.ordered
    pub released : IsReleased s → IsReleased t
    pub due :
        (j : ℕ) (m : Decl)
        → get_elem? s.ordered j ≡ some m
        → get_elem? t.started j ≡ some true
        → (get_elem? s.started j ≡ some true) ⊎ (start_delay_ms m ≤ elapsed)

  pub Step-trans :
      (elapsed : ℕ) (s t u : Sequencer h) → Step elapsed s t → Step elapsed t u → Step elapsed s u
  Step-trans elapsed s t u a b = record {
    same = b.same ∙ a.same;
    released = λ r. b.released (a.released r);
    due = λ j m g e. elim (b.due j m (ap (λ o. get_elem? o j) a.same ∙ g) e) [
      | inl old ↦ a.due j m g old
      | inr now ↦ inr now
    ];
  }

  -- Where neither the order nor what is started changes.
  pub Step-still :
      (elapsed : ℕ) (s t : Sequencer h)
      → t.ordered ≡ s.ordered
      → t.started ≡ s.started
      → Step elapsed s t
  unfolding IsReleased
  Step-still elapsed s t o p = record {
    same = o;
    released = λ r i m g e.
        subst (λ os. deps_started h os t.started m.deps ≡ true) (sym o)
          (subst (λ ps. deps_started h s.ordered ps m.deps ≡ true) (sym p)
            (r i m (ap (λ os. get_elem? os i) (sym o) ∙ g)
              (ap (λ ps. get_elem? ps i) (sym p) ∙ e)));
    due = λ j m g e. inl (ap (λ ps. get_elem? ps j) (sym p) ∙ e);
  }

  -- Where one module that is due and ready is started.
  Step-start :
      (elapsed i : ℕ) (m : Decl) (s t : Sequencer h)
      → t.ordered ≡ s.ordered
      → t.started ≡ set s.started i true
      → get_elem? s.ordered i ≡ some m
      → deps_started h s.ordered s.started m.deps ≡ true
      → start_delay_ms m ≤ elapsed
      → Step elapsed s t
  unfolding IsReleased
  Step-start elapsed i m s t o p at ready late = record {
    same = o;
    released = λ r j d g e.
        let g' : get_elem? s.ordered j ≡ some d = ap (λ os. get_elem? os j) (sym o) ∙ g in
        let before : deps_started h s.ordered s.started d.deps ≡ true =
          elim (started-set s.started i j (ap (λ ps. get_elem? ps j) (sym p) ∙ e)) [
            | inl k ↦
                let at' : get_elem? s.ordered j ≡ some m =
                  subst (λ n. get_elem? s.ordered n ≡ some m) k at in
                subst (λ x. deps_started h s.ordered s.started x.deps ≡ true)
                  (some-injective m d (sym at' ∙ g')) ready
            | inr old ↦ r j d g' old
          ] in
        subst (λ os. deps_started h os t.started d.deps ≡ true) (sym o)
          (subst (λ ps. deps_started h s.ordered ps d.deps ≡ true) (sym p)
            (deps_started-more i s.ordered s.started d.deps before));
    due = λ j d g e. elim (started-set s.started i j (ap (λ ps. get_elem? ps j) (sym p) ∙ e)) [
      | inl k ↦
          let at' : get_elem? s.ordered j ≡ some m =
            subst (λ n. get_elem? s.ordered n ≡ some m) k at in
          inr (subst (λ x. start_delay_ms x ≤ elapsed) (some-injective m d (sym at' ∙ g)) late)
      | inr old ↦ inl old
    ];
  }

  pub start_module-Step :
      (elapsed i : ℕ) (m : Decl) (s : Sequencer h)
      → get_elem? s.ordered i ≡ some m
      → start_delay_ms m ≤ elapsed
      → Step elapsed s (start_module h i m s).0
  unfolding start_module
  start_module-Step elapsed i m s at late = elim (Option-cases (get_elem? s.started i)) [
    | inl gone ↦ Step-still elapsed s _ (ground arith) (ground arith)
    | inr (b, found) ↦ elim (Bool-cases b) [
      | inl on ↦ Step-still elapsed s _ (ground arith) (ground arith)
      | inr off ↦ elim (Bool-cases (deps_started h s.ordered s.started m.deps)) [
        | inr wait ↦ Step-still elapsed s _ (ground arith) (ground arith)
        | inl ready ↦ elim (Option-cases (tasks m)) [
          | inl missing ↦ Step-still elapsed s _ (ground arith) (ground arith)
          | inr (ts, some_tasks) ↦
              elim (Bool-cases (start_tasks h m ts s.task_count (on_start m s.world)).0) [
                | inl done ↦ Step-start elapsed i m s _ (ground arith) (ground arith) at ready late
                | inr failed ↦ Step-still elapsed s _ (ground arith) (ground arith)
              ]
        ]
      ]
    ]
  ]
