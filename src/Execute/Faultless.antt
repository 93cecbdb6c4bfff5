-- ===== src/Execute/Faultless.antt =====
-- An execution in which no worker and no `consume_result` throws.
use monte_carlo.Prelude.{
  ℕ, ◌≡◌, ◌∙◌, sym, ap, subst, arith, refl, List, ◌∷◌, ◌++◌, none, total, total_middle, All,
}
use monte_carlo.Exception.{Result, ok}
use monte_carlo.Execute.{
  WorkerPc, CoordinatorPc, consuming, Shared, System, Move, starts, takes, computes, submits,
  records, leaves, closes_last, MainMove, assigns, assigned, receives, consumes,
  coordinator_records, Step, worker_step, main_step, Steps, none_yet, one_more,
}
use monte_carlo.Execute.Invariant.{is_failing, coordinator_fails}
use monte_carlo.Execute.Trace.{Meets, WorkerMeets, Steps-Meets, All-replace}

module _ {Job Done Store : Type 0} where
  -- No error has been recorded, and no thread is about to record one.
  pub record IsFaultless (s : System Job Done Store) : Type 0 where
    pub no_error : s.shared.first_error ≡ none
    pub no_coordinator : coordinator_fails s.shared.coordinator ≡ 0
    pub no_worker : total is_failing s.workers ≡ 0

module _ {Job Done Store : Type 0} (work : ℕ → Job → Result Done)
    (consume : Store → Done → Result Store) (IsJob : Job → Type 0) (IsDone : Done → Type 0)
    (meets : (i : ℕ) (job : Job) (r : Done) → IsJob job → work i job ≡ ok r → IsDone r)
    (works : (i : ℕ) (job : Job) → IsJob job → (r : Done) × (work i job ≡ ok r)) where
  abbrev Fulfils : WorkerPc Job Done → Type 0
  Fulfils = WorkerMeets (ok tt) work consume IsJob IsDone meets

  Move-faultless :
      (m m' : Shared Job Done Store) (p p' : WorkerPc Job Done) {i : ℕ}
      → Move (ok tt) work consume i m p m' p'
      → Fulfils p
      → is_failing p ≡ 0
      → (is_failing p' ≡ 0) × (m'.first_error ≡ m.first_error) × (m'.coordinator ≡ m.coordinator)
  Move-faultless m m' p p' (starts at same next) k h = ground arith
  Move-faultless m m' p p' (takes job q at popped changed next) k h = ground arith
  Move-faultless m m' p p' {i} (computes job at same next) k h =
      let (r, done) = works i job (subst Fulfils at k) in rw (same, next, done) (refl, refl, refl)
  Move-faultless m m' p p' (submits r accepted q at pushed changed next) k h = ground arith
  Move-faultless m m' p p' (records f at changed next) k h =
      absurd (omega (arith, ap (λ (x : WorkerPc Job Done). is_failing x) at))
  Move-faultless m m' p p' (leaves at changed next) k h = ground arith
  Move-faultless m m' p p' (closes_last at changed next) k h = ground arith

  -- `consume_result` does not throw at the result that it is called with.
  abbrev pub Takes : Shared Job Done Store → Type 0
  Takes m =
      (r : Done) → m.coordinator ≡ consuming r → (store : Store) × (consume m.store r ≡ ok store)

  MainMove-faultless :
      (m m' : Shared Job Done Store)
      → MainMove (ok tt) work consume m m'
      → Takes m
      → coordinator_fails m.coordinator ≡ 0
      → (m'.first_error ≡ m.first_error) × (coordinator_fails m'.coordinator ≡ 0)
  MainMove-faultless m m' (assigns job jobs accepted q at pushed changed) k h = ground arith
  MainMove-faultless m m' (assigned at changed) k h = ground arith
  MainMove-faultless m m' (receives r q at popped changed) k h = ground arith
  MainMove-faultless m m' (consumes r at changed) k h =
      let (store, e) = k r at in rw (changed, e) (refl, refl)
  MainMove-faultless m m' (coordinator_records f at changed) k h =
      absurd (omega (arith, ap (λ (x : CoordinatorPc Done). coordinator_fails x) at))

  Step-IsFaultless :
      (s t : System Job Done Store)
      → Step (ok tt) work consume s t
      → Takes s.shared
      → All Fulfils s.workers
      → IsFaultless s
      → IsFaultless t
  Step-IsFaultless s t (worker_step before after p p' at move next) k l h =
      let here =
        (All-replace (ok tt) work consume IsJob IsDone meets before after p p'
          (subst (All Fulfils) at l)).0 in
      let was : total is_failing (before ++ (p ∷ after)) ≡ 0 =
        ap (λ (ws : List (WorkerPc Job Done)). total is_failing ws) (sym at) ∙ h.no_worker in
      let (p'-fine, same_error, same_coordinator) =
        Move-faultless s.shared t.shared p p' move here
          (omega (arith, total_middle is_failing before after p)) in
      record {
        no_error = same_error ∙ h.no_error;
        no_coordinator = rw same_coordinator h.no_coordinator;
        no_worker = rw next (
            omega (
              arith,
              total_middle is_failing before after p,
              total_middle is_failing before after p',
            ));
      }
  Step-IsFaultless s t (main_step move same) k l h =
      let (same_error, fine) = MainMove-faultless s.shared t.shared move k h.no_coordinator in
      record {
        no_error = same_error ∙ h.no_error;
        no_coordinator = fine;
        no_worker = rw same h.no_worker;
      }

  pub Steps-IsFaultless :
      (s t : System Job Done Store) (n : ℕ)
      → Steps (ok tt) work consume s n t
      → ((k : ℕ) (u : System Job Done Store) → Steps (ok tt) work consume s k u → Takes u.shared)
      → Meets (ok tt) work consume IsJob IsDone meets s.shared
      → All Fulfils s.workers
      → IsFaultless s
      → IsFaultless t
  Steps-IsFaultless s t n none_yet takes_ k l h = h
  Steps-IsFaultless s t n (one_more {n = n'} {t = u} steps step) takes_ k l h =
      Step-IsFaultless u t step (takes_ n' u steps)
        (Steps-Meets (ok tt) work consume IsJob IsDone meets s u n' steps k l).1
        (Steps-IsFaultless s u n' steps takes_ k l h)
