-- ===== src/Execute/Trace.antt =====
-- Where the consumed results and the store come from.
use monte_carlo.Prelude.{
  ℕ, ◌≡◌, ◌∙◌, arith, refl, List, [], ◌∷◌, ◌++◌, inl, inr, All, All-append, subst,
}
use monte_carlo.Exception.{>>=-eq-ok, Result-cases, ◌>>=◌, Result, ok, err}
use monte_carlo.Queue.Order.{pop_items-cases}
use monte_carlo.Execute.{
  storing, closing_assignments, closing_completions, WorkerPc, computing, submitting, SchedulerPc,
  pushing, finished, CoordinatorPc, consuming, Shared, System, Move, starts, takes, computes,
  submits, records, leaves, closes_last, MainMove, assigns, assigned, receives, consumes,
  coordinator_records, worker_step, main_step, Steps, none_yet, one_more, after_start,
  after_compute, after_consume,
}

module _ {Done Store : Type 0} (consume : Store → Done → Result Store) where
  -- The results one after the other.
  abbrev pub consume_all : Store → List Done → Result Store
  consume_all store [] = ok store
  consume_all store (r ∷ rs) = do store' ← consume store r; consume_all store' rs

  consume_all-append :
      (store : Store) (rs : List Done) (r : Done) {store' : Store}
      → consume_all store rs ≡ ok store'
      → consume_all store (rs ++ (r ∷ [])) ≡ consume store' r
  consume_all-append store [] r {store'} h =
      let same : store ≡ store' = ground arith in rw same (last (consume store' r))
    where
      last : (m : Result Store) → (do s ← m; ok s) ≡ m
      last (ok s) = refl
      last (err e) = refl
  consume_all-append store (x ∷ rs) r {store'} h =
      let (mid, first, later) = >>=-eq-ok (consume store x) _ h in
      rw first (consume_all-append mid rs r later)

module _ {Job Done Store : Type 0} (begin : Result (Unit {0})) (work : ℕ → Job → Result Done)
    (consume : Store → Done → Result Store) where
  -- The store is what the consumed results make of the first one.
  module _ (first : Store) where
    abbrev StoreIs : Shared Job Done Store → Type 0
    StoreIs m = consume_all consume first m.consumed ≡ ok m.store

    Move-store :
        (m m' : Shared Job Done Store) (p p' : WorkerPc Job Done) {i : ℕ}
        → Move begin work consume i m p m' p'
        → StoreIs m
        → StoreIs m'
    Move-store m m' p p' (starts at same next) h = rw same h
    Move-store m m' p p' (takes job q at popped changed next) h = rw changed h
    Move-store m m' p p' (computes job at same next) h = rw same h
    Move-store m m' p p' (submits r accepted q at pushed changed next) h = rw changed h
    Move-store m m' p p' (records (storing e) at changed next) h = rw changed h
    Move-store m m' p p' (records closing_assignments at changed next) h = rw changed h
    Move-store m m' p p' (records closing_completions at changed next) h = rw changed h
    Move-store m m' p p' (leaves at changed next) h = rw changed h
    Move-store m m' p p' (closes_last at changed next) h = rw changed h

    consumed-store :
        (m m' : Shared Job Done Store) (r : Done) (answer : Result Store)
        → consume m.store r ≡ answer
        → m' ≡ after_consume answer r m
        → StoreIs m
        → StoreIs m'
    consumed-store m m' r (ok store) a changed h =
        rw changed (consume_all-append consume first m.consumed r h ∙ a)
    consumed-store m m' r (err e) a changed h = rw changed h

    MainMove-store :
        (m m' : Shared Job Done Store) → MainMove begin work consume m m' → StoreIs m → StoreIs m'
    MainMove-store m m' (assigns job jobs accepted q at pushed changed) h = rw changed h
    MainMove-store m m' (assigned at changed) h = rw changed h
    MainMove-store m m' (receives r q at popped changed) h = rw changed h
    MainMove-store m m' (consumes r at changed) h =
        consumed-store m m' r (consume m.store r) refl changed h
    MainMove-store m m' (coordinator_records (storing e) at changed) h = rw changed h
    MainMove-store m m' (coordinator_records closing_assignments at changed) h = rw changed h
    MainMove-store m m' (coordinator_records closing_completions at changed) h = rw changed h

    pub Steps-store :
        (s t : System Job Done Store) (n : ℕ)
        → Steps begin work consume s n t
        → StoreIs s.shared
        → StoreIs t.shared
    Steps-store s t n none_yet h = h
    Steps-store s t n (one_more {t = u} steps (worker_step before after p p' at move next)) h =
        Move-store u.shared t.shared p p' move (Steps-store s u _ steps h)
    Steps-store s t n (one_more {t = u} steps (main_step move same)) h =
        MainMove-store u.shared t.shared move (Steps-store s u _ steps h)

  -- A condition that the results of the pending jobs meet is met by every result there is.
  module _ (IsJob : Job → Type 0) (IsDone : Done → Type 0)
      (meets : (i : ℕ) (job : Job) (r : Done) → IsJob job → work i job ≡ ok r → IsDone r) where
    abbrev pub WorkerMeets : WorkerPc Job Done → Type 0
    WorkerMeets (computing job) = IsJob job
    WorkerMeets (submitting r) = IsDone r
    WorkerMeets _ = Unit

    abbrev pub SchedulerMeets : SchedulerPc Job → Type 0
    SchedulerMeets (pushing jobs) = All IsJob jobs
    SchedulerMeets finished = Unit

    abbrev pub CoordinatorMeets : CoordinatorPc Done → Type 0
    CoordinatorMeets (consuming r) = IsDone r
    CoordinatorMeets _ = Unit

    pub record Meets (m : Shared Job Done Store) : Type 0 where
      pub assignments : All IsJob m.assignments.items
      pub completions : All IsDone m.completions.items
      pub scheduler : SchedulerMeets m.scheduler
      pub coordinator : CoordinatorMeets m.coordinator
      pub consumed : All IsDone m.consumed

    work-meets : (i : ℕ) (job : Job) → IsJob job → WorkerMeets (after_compute (work i job))
    work-meets i job k = elim (Result-cases (work i job)) [
      | inl (r, e) ↦ rw e (meets i job r k e)
      | inr (e, h) ↦ rw h tt
    ]

    begin-meets : (b : Result (Unit {0})) → WorkerMeets (after_start b)
    begin-meets (ok u) = tt
    begin-meets (err e) = tt

    Move-Meets :
        (m m' : Shared Job Done Store) (p p' : WorkerPc Job Done) {i : ℕ}
        → Move begin work consume i m p m' p'
        → Meets m
        → WorkerMeets p
        → Meets m' × WorkerMeets p'
    Move-Meets m m' p p' (starts at same next) h k = rw (same, next) (h, begin-meets begin)
    Move-Meets m m' p p' (takes job q at popped changed next) h k =
        ground (arith, pop_items-cases m.assignments.items m.assignments q job popped)
    Move-Meets m m' p p' {i} (computes job at same next) h k =
        rw (same, next) (h, work-meets i job (subst WorkerMeets at k))
    Move-Meets m m' p p' (submits r accepted q at pushed changed next) h k =
        ground (arith, All-append IsDone m.completions.items (r ∷ []))
    Move-Meets m m' p p' (records f at changed next) h k = ground arith
    Move-Meets m m' p p' (leaves at changed next) h k = ground arith
    Move-Meets m m' p p' (closes_last at changed next) h k = ground arith

    consumed-Meets :
        (m m' : Shared Job Done Store) (r : Done) (answer : Result Store)
        → m' ≡ after_consume answer r m
        → Meets m
        → IsDone r
        → Meets m'
    consumed-Meets m m' r (ok store) changed h k = rw changed (record {
      assignments = h.assignments;
      completions = h.completions;
      scheduler = h.scheduler;
      coordinator = tt;
      consumed = All-append IsDone m.consumed (r ∷ []) h.consumed (k, tt);
    })
    consumed-Meets m m' r (err e) changed h k = ground arith

    MainMove-Meets :
        (m m' : Shared Job Done Store) → MainMove begin work consume m m' → Meets m → Meets m'
    MainMove-Meets m m' (assigns job jobs accepted q at pushed changed) h =
        ground (arith, All-append IsJob m.assignments.items (job ∷ []))
    MainMove-Meets m m' (assigned at changed) h = ground arith
    MainMove-Meets m m' (receives r q at popped changed) h =
        ground (arith, pop_items-cases m.completions.items m.completions q r popped)
    MainMove-Meets m m' (consumes r at changed) h =
        consumed-Meets m m' r (consume m.store r) changed h
          (subst CoordinatorMeets at h.coordinator)
    MainMove-Meets m m' (coordinator_records f at changed) h = ground arith

    pub All-replace :
        (before after : List (WorkerPc Job Done)) (p p' : WorkerPc Job Done)
        → All WorkerMeets (before ++ (p ∷ after))
        → WorkerMeets p × (WorkerMeets p' → All WorkerMeets (before ++ (p' ∷ after)))
    All-replace [] after p p' h = (h.0, λ k. (k, h.1))
    All-replace (q ∷ before) after p p' h =
        let (here, there) = All-replace before after p p' h.1 in (here, λ k. (h.0, there k))

    pub Steps-Meets :
        (s t : System Job Done Store) (n : ℕ)
        → Steps begin work consume s n t
        → Meets s.shared
        → All WorkerMeets s.workers
        → Meets t.shared × All WorkerMeets t.workers
    Steps-Meets s t n none_yet h k = (h, k)
    Steps-Meets s t n (one_more {t = u} steps (worker_step before after p p' at move next)) h k =
        let (h', k') = Steps-Meets s u _ steps h k in
        let (here, there) = All-replace before after p p' (subst (All WorkerMeets) at k') in
        let (h'', p-meets) = Move-Meets u.shared t.shared p p' move h' here in
        (h'', rw next (there p-meets))
    Steps-Meets s t n (one_more {t = u} steps (main_step move same)) h k =
        let (h', k') = Steps-Meets s u _ steps h k in
        (MainMove-Meets u.shared t.shared move h', rw same k')
