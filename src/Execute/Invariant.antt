-- ===== src/Execute/Invariant.antt =====
-- What holds in every reachable state, whatever the interleaving.
use monte_carlo.Prelude.{
  ℕ, ◌+◌, ◌<◌, ◌≡◌, arith, refl, List, [], ◌∷◌, ◌++◌, true, false, Option, none, some, length,
  total, total_middle, total-replicate_zero, total-replicate_one, length-append,
}
use monte_carlo.Exception.{Result, Exception}
use monte_carlo.Queue.{BoundedQueue}
use monte_carlo.Queue.Order.{pop_items-cases}
use monte_carlo.Execute.{
  storing, closing_completions, WorkerPc, starting, worker_failing, leaving, closing_last, gone,
  finished, CoordinatorPc, coordinator_failing, joined, Shared, System, Move, starts, takes,
  computes, submits, records, leaves, closes_last, MainMove, assigns, assigned, receives, consumes,
  coordinator_records, Step, worker_step, main_step, Steps, none_yet, one_more, initial,
}

module _ {Job Done : Type 0} where
  -- Its loop is over.
  abbrev pub is_out : WorkerPc Job Done → ℕ
  is_out leaving = 1
  is_out closing_last = 1
  is_out gone = 1
  is_out _ = 0

  -- It is still counted in `workers_remaining`.
  abbrev pub is_counted : WorkerPc Job Done → ℕ
  is_counted closing_last = 0
  is_counted gone = 0
  is_counted _ = 1

  abbrev pub is_last : WorkerPc Job Done → ℕ
  is_last closing_last = 1
  is_last _ = 0

  abbrev pub is_failing : WorkerPc Job Done → ℕ
  is_failing (worker_failing f) = 1
  is_failing _ = 0

  -- Its error is stored.
  abbrev pub is_stored : WorkerPc Job Done → ℕ
  is_stored (worker_failing (storing e)) = 0
  is_stored (worker_failing f) = 1
  is_stored _ = 0

  -- It has closed the assignments on an error, and not yet the completions.
  abbrev pub is_between : WorkerPc Job Done → ℕ
  is_between (worker_failing closing_completions) = 1
  is_between _ = 0

abbrev pub coordinator_fails : {Done : Type 0} → CoordinatorPc Done → ℕ
coordinator_fails (coordinator_failing f) = 1
coordinator_fails _ = 0

abbrev pub coordinator_stored : {Done : Type 0} → CoordinatorPc Done → ℕ
coordinator_stored (coordinator_failing (storing e)) = 0
coordinator_stored (coordinator_failing f) = 1
coordinator_stored _ = 0

abbrev pub has_error : Option Exception → ℕ
has_error none = 0
has_error (some e) = 1

-- How many workers are at which places.
pub record Counts : Type 0 where
  pub out : ℕ
  pub counted : ℕ
  pub last : ℕ
  pub failing : ℕ
  pub stored : ℕ
  pub between : ℕ

module _ {Job Done : Type 0} where
  abbrev pub counts_of : List (WorkerPc Job Done) → Counts
  counts_of ws = record {
    out = total is_out ws;
    counted = total is_counted ws;
    last = total is_last ws;
    failing = total is_failing ws;
    stored = total is_stored ws;
    between = total is_between ws;
  }

  -- Other workers `c`, and one at `p`.
  abbrev pub plus : Counts → WorkerPc Job Done → Counts
  plus c p = record {
    out = c.out + is_out p;
    counted = c.counted + is_counted p;
    last = c.last + is_last p;
    failing = c.failing + is_failing p;
    stored = c.stored + is_stored p;
    between = c.between + is_between p;
  }

  -- The workers before and after one.
  abbrev pub others : List (WorkerPc Job Done) → List (WorkerPc Job Done) → Counts
  others before after = record {
    out = total is_out before + total is_out after;
    counted = total is_counted before + total is_counted after;
    last = total is_last before + total is_last after;
    failing = total is_failing before + total is_failing after;
    stored = total is_stored before + total is_stored after;
    between = total is_between before + total is_between after;
  }

module _ {Job Done Store : Type 0} where
  -- No error was recorded, and none is about to be.
  pub record IsClean (m : Shared Job Done Store) (c : Counts) : Type 0 where
    pub no_error : m.first_error ≡ none
    pub no_worker : c.failing ≡ 0
    pub no_coordinator : coordinator_fails m.coordinator ≡ 0

  pub record Inv (m : Shared Job Done Store) (c : Counts) : Type 0 where
    pub room_assignments : 0 < m.assignments.capacity
    pub room_completions : 0 < m.completions.capacity
    pub remaining : m.workers_remaining ≡ c.counted
    pub last_alone : 0 < c.last → c.counted ≡ 0
    pub worker_error : 0 < c.stored → has_error m.first_error ≡ 1
    pub coordinator_error : 0 < coordinator_stored m.coordinator → has_error m.first_error ≡ 1
    pub between_closed : 0 < c.between → m.assignments.closed ≡ true
    pub coordinator_between :
        m.coordinator ≡ coordinator_failing closing_completions → m.assignments.closed ≡ true
    pub completions_closed : m.completions.closed ≡ true → m.assignments.closed ≡ true
    pub out_closed : 0 < c.out → m.assignments.closed ≡ true
    pub finished_closed : m.scheduler ≡ finished → m.assignments.closed ≡ true
    pub joined_closed : m.coordinator ≡ joined → m.completions.closed ≡ true
    pub none_left : c.counted ≡ 0 → m.completions.closed ≡ false → 0 < c.last
    pub clean_closed : IsClean m c → m.assignments.closed ≡ true → m.scheduler ≡ finished
    pub clean_out : IsClean m c → 0 < c.out → length m.assignments.items ≡ 0
    pub clean_completions : IsClean m c → m.completions.closed ≡ true → c.counted ≡ 0
    pub clean_joined : IsClean m c → m.coordinator ≡ joined → length m.completions.items ≡ 0

  module _ (begin : Result (Unit {0})) (work : ℕ → Job → Result Done)
      (consume : Store → Done → Result Store) where
    Move-Inv :
        (m m' : Shared Job Done Store) (p p' : WorkerPc Job Done) (c : Counts) {i : ℕ}
        → Move begin work consume i m p m' p'
        → Inv m (plus c p)
        → Inv m' (plus c p')
    Move-Inv m m' p p' c (starts at same next) h = ground arith
    Move-Inv m m' p p' c (takes job q at popped changed next) h =
        ground (arith, pop_items-cases m.assignments.items m.assignments q job popped)
    Move-Inv m m' p p' c (computes job at same next) h = ground arith
    Move-Inv m m' p p' c (submits r accepted q at pushed changed next) h =
        ground (arith, length-append m.completions.items (r ∷ []))
    Move-Inv m m' p p' c (records f at changed next) h = ground arith
    Move-Inv m m' p p' c (leaves at changed next) h = ground arith
    Move-Inv m m' p p' c (closes_last at changed next) h = ground arith

    MainMove-Inv :
        (m m' : Shared Job Done Store) (c : Counts)
        → MainMove begin work consume m m'
        → Inv m c
        → Inv m' c
    MainMove-Inv m m' c (assigns job jobs accepted q at pushed changed) h =
        ground (arith, length-append m.assignments.items (job ∷ []))
    MainMove-Inv m m' c (assigned at changed) h = ground arith
    MainMove-Inv m m' c (receives r q at popped changed) h =
        ground (arith, pop_items-cases m.completions.items m.completions q r popped)
    MainMove-Inv m m' c (consumes r at changed) h = ground arith
    MainMove-Inv m m' c (coordinator_records f at changed) h = ground arith

    pub counts-before :
        (before after : List (WorkerPc Job Done)) (p : WorkerPc Job Done)
        → counts_of (before ++ (p ∷ after)) ≡ plus (others before after) p
    counts-before before after p = ground (
      arith,
      total_middle is_out before after p,
      total_middle is_counted before after p,
      total_middle is_last before after p,
      total_middle is_failing before after p,
      total_middle is_stored before after p,
      total_middle is_between before after p,
    )

    pub Step-Inv :
        (s t : System Job Done Store)
        → Step begin work consume s t
        → Inv s.shared (counts_of s.workers)
        → Inv t.shared (counts_of t.workers)
    Step-Inv s t (worker_step before after p p' at move next) h =
        rw (next, counts-before before after p')
          (Move-Inv s.shared t.shared p p' (others before after) move
            (rw (← counts-before before after p, ← at) h))
    Step-Inv s t (main_step move same) h = rw same (MainMove-Inv s.shared t.shared _ move h)

    pub Steps-Inv :
        (s t : System Job Done Store) (n : ℕ)
        → Steps begin work consume s n t
        → Inv s.shared (counts_of s.workers)
        → Inv t.shared (counts_of t.workers)
    Steps-Inv s t n none_yet h = h
    Steps-Inv s t n (one_more {t = u} steps step) h = Step-Inv u t step (Steps-Inv s u _ steps h)

  pub initial-Inv :
      (a : BoundedQueue Job) (c : BoundedQueue Done) (n : ℕ) (pending : List Job) (store : Store)
      → 0 < a.capacity
      → 0 < c.capacity
      → a.closed ≡ false
      → c.closed ≡ false
      → 0 < n
      → Inv (initial a c n pending store).shared (counts_of (initial a c n pending store).workers)
  initial-Inv a c n pending store ra rc oa oc some_worker = ground (
    arith,
    total-replicate_zero (is_out {Job = Job} {Done = Done}) n starting refl,
    total-replicate_one (is_counted {Job = Job} {Done = Done}) n starting refl,
    total-replicate_zero (is_last {Job = Job} {Done = Done}) n starting refl,
    total-replicate_zero (is_failing {Job = Job} {Done = Done}) n starting refl,
    total-replicate_zero (is_stored {Job = Job} {Done = Done}) n starting refl,
    total-replicate_zero (is_between {Job = Job} {Done = Done}) n starting refl,
  )
