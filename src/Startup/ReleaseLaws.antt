-- ===== src/Startup/ReleaseLaws.antt =====
-- The staged release, over one tick and over many.
use flowio_waveshare_qwiic.Prelude.{
  ℕ, suc, ◌+◌, ◌≤◌, ◌≡◌, sym, ap, subst, ◌⊎◌, inl, inr, refl, Bool, true, false, not, ◌&&◌, none,
  some, List, [], ◌∷◌, ltb, get_elem?, arith, Bool-cases, Option-cases, sub32, ◌≢◌, All, ◌==◌,
}
use flowio_waveshare_qwiic.Startup.Manager.{Decl, is_valid_id}
use flowio_waveshare_qwiic.Startup.Order.{is_placed}
use flowio_waveshare_qwiic.Startup.Release.{
  deps_started, Host, Sequencer, start_module, release_from, tick_startup,
}
use flowio_waveshare_qwiic.Startup.Steps.{
  IsReleased, Step, Step-trans, Step-still, start_module-Step,
}

is_placed-found :
    (id : ℕ) (ms : List Decl) (ps : List Bool)
    → is_placed id ms ps ≡ true
    → (j : ℕ) × (p : Decl) × (get_elem? ms j ≡ some p) × (p.id ≡ id) × (get_elem? ps j ≡ some true)
unfolding is_placed
is_placed-found id [] ps e = absurd (cc)
is_placed-found id (m ∷ ms) [] e = absurd (cc)
is_placed-found id (m ∷ ms) (p ∷ ps) e = elim (Bool-cases (m.id == id)) [
  | inl k ↦ (0, m, refl, ground arith, ground arith)
  | inr k ↦
      let (j, m', at, own, on) = is_placed-found id ms ps (ground arith) in (suc j, m', at, own, on)
]

module _ (h : Host) where
  open h use {start_delay_ms}

  -- The list `ms` stands in the order from index `i` on.
  abbrev From : Sequencer h → ℕ → List Decl → Type 0
  From s i ms = (j : ℕ) → get_elem? s.ordered (i + j) ≡ get_elem? ms j

  From-head :
      (s : Sequencer h) (i : ℕ) (m : Decl) (ms : List Decl)
      → From s i (m ∷ ms)
      → get_elem? s.ordered i ≡ some m
  From-head s i m ms f = subst (λ k. get_elem? s.ordered k ≡ some m) (omega arith) (f 0)

  From-tail :
      (s t : Sequencer h) (i : ℕ) (m : Decl) (ms : List Decl)
      → t.ordered ≡ s.ordered
      → From s i (m ∷ ms)
      → From t (suc i) ms
  From-tail s t i m ms o f j =
      subst (λ os. get_elem? os (suc i + j) ≡ get_elem? ms j) (sym o)
        (subst (λ k. get_elem? s.ordered k ≡ get_elem? ms j) (omega arith) (f (suc j)))

  -- One module of the loop that is not started yet and is due, and the loop after it.
  release_due-Step :
      (elapsed i : ℕ) (m : Decl) (ms : List Decl) (all : Bool) (s : Sequencer h)
      → ((all : Bool) (t : Sequencer h)
          → From t (suc i) ms
          → Step h elapsed t (release_from h elapsed (suc i) ms all t).0)
      → From s i (m ∷ ms)
      → (get_elem? s.started i ≡ none) ⊎ (get_elem? s.started i ≡ some false)
      → ltb elapsed (start_delay_ms m) ≡ false
      → Step h elapsed s (release_from h elapsed i (m ∷ ms) all s).0
  unfolding release_from
  release_due-Step elapsed i m ms all s rest f idle late =
      let s1 = (start_module h i m s).0 in
      let one : Step h elapsed s s1 =
        start_module-Step h elapsed i m s (From-head s i m ms f) (ground arith) in
      let f1 : From s1 (suc i) ms = From-tail s s1 i m ms one.same f in
      let goal = release_from h elapsed i (m ∷ ms) all s in
      let go_on : (b : Bool)
          → (release_from h elapsed (suc i) ms b s1).0 ≡ goal.0
          → Step h elapsed s goal.0 =
        λ b q. subst (Step h elapsed s) q (Step-trans h elapsed s s1 _ one (rest b s1 f1)) in
      elim (Bool-cases (start_module h i m s).1) [
        | inr failed ↦ let same : s1 ≡ goal.0 = ground arith in subst (Step h elapsed s) same one
        | inl done ↦ elim (Option-cases (get_elem? s1.started i)) [
          | inl gone ↦ go_on false (ground arith)
          | inr (false, off) ↦ go_on false (ground arith)
          | inr (true, on) ↦ elim (Bool-cases h.one_at_a_time) [
            | inl single ↦
                let same : s1 ≡ goal.0 = ground arith in subst (Step h elapsed s) same one
            | inr many ↦ go_on all (ground arith)
          ]
        ]
      ]

  release_from-Step :
      (elapsed i : ℕ) (ms : List Decl) (all : Bool) (s : Sequencer h)
      → From s i ms
      → Step h elapsed s (release_from h elapsed i ms all s).0
  unfolding release_from
  release_from-Step elapsed i [] all s f = Step-still h elapsed s s refl refl
  release_from-Step elapsed i (m ∷ ms) all s f =
      let tail : From s (suc i) ms = From-tail s s i m ms refl f in
      let goal = release_from h elapsed i (m ∷ ms) all s in
      let go_on : (b : Bool)
          → (release_from h elapsed (suc i) ms b s).0 ≡ goal.0
          → Step h elapsed s goal.0 =
        λ b q. subst (Step h elapsed s) q (release_from-Step elapsed (suc i) ms b s tail) in
      let idle : (get_elem? s.started i ≡ none) ⊎ (get_elem? s.started i ≡ some false)
          → Step h elapsed s goal.0 =
        λ off. elim (Bool-cases (ltb elapsed (start_delay_ms m))) [
          | inl early ↦ go_on false (ground arith)
          | inr late ↦
              release_due-Step elapsed i m ms all s
                (λ b t. release_from-Step elapsed (suc i) ms b t) f off late
        ] in
      elim (Option-cases (get_elem? s.started i)) [
        | inl gone ↦ idle (inl gone)
        | inr (true, on) ↦ go_on all (ground arith)
        | inr (false, off) ↦ idle (inr off)
      ]

  tick_startup-Step :
      (now : ℕ) (s : Sequencer h) → Step h (sub32 now s.epoch_ms) s (tick_startup h now s).0
  unfolding tick_startup
  tick_startup-Step now s =
      let elapsed = sub32 now s.epoch_ms in
      let loop = release_from h elapsed 0 s.ordered true s in
      let whole =
        release_from-Step elapsed 0 s.ordered true s
          (λ j. ap (get_elem? s.ordered) (omega arith)) in
      let t = (tick_startup h now s).0 in
      elim (Bool-cases (s.prepared && (not s.failed && s.active))) [
        | inr rest ↦ Step-still h elapsed s t (ground arith) (ground arith)
        | inl on ↦
            Step-trans h elapsed s loop.0 t whole
              (Step-still h elapsed loop.0 t (ground arith) (ground arith))
      ]

  -- A module that is started after a tick was so before, or its delay has passed since the epoch.
  pub tick_startup-due :
      (now : ℕ) (s : Sequencer h) (j : ℕ) (m : Decl)
      → get_elem? s.ordered j ≡ some m
      → get_elem? (tick_startup h now s).0.started j ≡ some true
      → (get_elem? s.started j ≡ some true) ⊎ (start_delay_ms m ≤ sub32 now s.epoch_ms)
  tick_startup-due now s = (tick_startup-Step now s).due

  -- A dependency is running: it is no identifier, or a module with it is started.
  abbrev pub Running : Sequencer h → ℕ → Type 0
  Running s d =
      (is_valid_id d ≡ false)
      ⊎ ((j : ℕ) × (p : Decl) × (get_elem? s.ordered j ≡ some p)
          × (p.id ≡ d)
          × (get_elem? s.started j ≡ some true))

  is_placed-Running :
      (s : Sequencer h) (d : ℕ) → is_placed d s.ordered s.started ≡ true → Running s d
  is_placed-Running s d e = inr (is_placed-found d s.ordered s.started e)

  deps_started-Running :
      (s : Sequencer h) (ds : List ℕ)
      → deps_started h s.ordered s.started ds ≡ true
      → All (Running s) ds
  unfolding deps_started
  deps_started-Running s [] e = tt
  deps_started-Running s (d ∷ ds) e =
      let rest = deps_started-Running s ds (ground arith) in
      elim (Bool-cases (is_valid_id d)) [
        | inl good ↦ (is_placed-Running s d (ground arith), rest)
        | inr bad ↦ (inl bad, rest)
      ]

  -- Ticks at a sequence of times.
  unfoldable pub ticks : List ℕ → Sequencer h → Sequencer h
  ticks [] s = s
  ticks (now ∷ later) s = ticks later (tick_startup h now s).0

  ticks-IsReleased :
      (times : List ℕ) (s : Sequencer h) → IsReleased h s → IsReleased h (ticks times s)
  unfolding ticks
  ticks-IsReleased [] s r = r
  ticks-IsReleased (now ∷ later) s r =
      ticks-IsReleased later (tick_startup h now s).0 ((tick_startup-Step now s).released r)

  -- From a sequencer that has started nothing, whatever the times of its ticks are and whichever
  -- starts fail: every module that is started has each of its dependencies started, save those that
  -- are no identifiers.
  pub ticks-Running :
      (times : List ℕ) (s : Sequencer h) (i : ℕ) (m : Decl)
      → ((j : ℕ) → get_elem? s.started j ≢ some true)
      → get_elem? (ticks times s).ordered i ≡ some m
      → get_elem? (ticks times s).started i ≡ some true
      → All (Running (ticks times s)) m.deps
  unfolding IsReleased
  ticks-Running times s i m fresh at on =
      deps_started-Running (ticks times s) m.deps
        (ticks-IsReleased times s (λ j d g e. absurd (fresh j e)) i m at on)
