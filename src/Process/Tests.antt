-- ===== src/Process/Tests.antt =====
-- A system with three processes and a thread, runs of the scheduler on it, and the theorems at it.
use upanix_os.Base.{
  ℕ, ◌≤◌, ◌<◌, ◌≡◌, refl, sym, ap, ◌∙◌, inl, inr, Bool, true, false, Option, none, some, List, [],
  ◌∷◌, ◌&&◌, arith, All, Distinct, ◌==◌, if◌then◌else◌, Bool-cases, ==_iff,
}
use mathlib.Core.Option
use mathlib.Core.Path.{subst}
use upanix_os.Base.Int.{ℤ, pos, pos_part, neg_part}
use upanix_os.Process.State.{
  Status, run, wait_resource, wait_io_descriptors, io_read, Process, System, fresh_info,
  no_process_id,
}
use upanix_os.Process.Store.{lookup, modify}
use upanix_os.Process.Schedule.{start_scheduler, do_context_switch, store_back}
use upanix_os.Process.Destroy.{destroy}
use upanix_os.Process.Create.{create_kernel_process}
use upanix_os.Process.Wait.{runs, yields, sleep, end_lock, lock, kill}
use upanix_os.Process.Ready.{IsReady}
use upanix_os.Process.Idle.{Idle}
use upanix_os.Process.Answering.{Answers, IsAnswering}
use upanix_os.Process.Shape.{Shape, shape_of, shape, ThreadOf, NextStands, AllSound}
use upanix_os.Process.Rounds.{IsWellFormed}
use upanix_os.Process.Slices.{call_sleep, compute, perform_all, perform_all-IsSlice}
use upanix_os.Process.Fair.{TurnOf, start_scheduler_turn}
use upanix_os.Process.Switch.{at_turn, Runs, Waits, itself, do_context_switch-IsReady}
use upanix_os.Process.Calls.{sleep_lem, lock-not_held}
use upanix_os.Process.Ended.{HasEnded}
use upanix_os.Process.Ending.{KeepsSound, without_threads, destroy-KeepsSound}
use upanix_os.Process.Gone.{kill-IsGone}
use upanix_os.Process.Added.{IsFresh, Created, create_kernel_process_lem}

abbrev plain : ℕ → ℤ → Status → Process
plain pid parent st = record {
  process_id = pid;
  main_thread_id = pid;
  parent_process_id = parent;
  status = st;
  state_info = fresh_info;
  process_group = 1;
  child_process_ids = [];
  threads = [];
  next_thread = none;
}

-- Process 1 has the thread 3, and process 2 waits for the resource 1.
abbrev first : Process
first = record (plain 1 (pos 0) run) { threads = 3 ∷ []; next_thread = some 3 }

abbrev waiting : Process
waiting = record (plain 2 (pos 0) wait_resource) {
  state_info = record fresh_info { wait_resource_id = 1 };
}

abbrev helper : Process
helper = record (plain 3 (pos 1) run) { main_thread_id = 1 }

-- Process 4, not scheduled yet, waits to read from its first descriptor.
abbrev reader : Process
reader = record (plain 4 (pos 0) wait_io_descriptors) {
  state_info = record fresh_info { io_descriptors = record { fd = pos 0; io_type = io_read } ∷ [] };
}

abbrev processes : List Process
processes = plain 0 no_process_id run ∷ first ∷ waiting ∷ helper ∷ reader ∷ []

abbrev system : System
system = record {
  clock_count = 5;
  context_switch = false;
  task_switch = true;
  kernel_mode = false;
  current_process_id = pos 3;
  upanix_kernel_process_id = pos 0;
  resource_list = λ k. false;
  pending = λ k. 0;
  can = λ n d. if pos_part d.fd == 0 && neg_part d.fd == 0 then some true else none;
  kernel_mode_state_info = fresh_info;
  process_map = processes;
  scheduler_list = 0 ∷ 1 ∷ 2 ∷ [];
  groups = λ g.
      if g == 1
      then some (record { id = 1; process_count = pos 5; fg_process_list = [] })
      else none;
  fg_process_group = none;
  next_pid = 5;
  id_seq = 1;
}

abbrev Own : List Process → Process → Type 0
Own l p =
    All (ThreadOf l p.process_id) p.threads
    × NextStands p.next_thread p.threads
    × Distinct p.threads

sound_of_Own :
    (l k : List Process) (m : ℕ) (h : Shape)
    → All (Own l) k
    → shape m k ≡ some h
    → All (ThreadOf l m) h.thread_list × NextStands h.next h.thread_list × Distinct h.thread_list
unfolding lookup
sound_of_Own l [] m h a e = absurd (ground arith)
sound_of_Own l (p ∷ k) m h a e = elim (Bool-cases (p.process_id == m)) [
  | inl b ↦
      let here : some (shape_of p) ≡ some h =
        sym (ap (λ c. Option.map shape_of (if c then some p else lookup m k)) b) ∙ e in
      let eq : shape_of p ≡ h = ground (arith, here) in
      subst
        (λ (x : Shape).
          All (ThreadOf l m) x.thread_list
          × NextStands x.next x.thread_list
          × Distinct x.thread_list)
        eq
        (subst
          (λ j.
            All (ThreadOf l j) p.threads × NextStands p.next_thread p.threads × Distinct p.threads)
          ((==_iff p.process_id m).0 b) a.0)
  | inr b ↦
      sound_of_Own l k m h a.1
        (sym (ap (λ c. Option.map shape_of (if c then some p else lookup m k)) b) ∙ e)
]

processes-Own : All (Own processes) processes
unfolding lookup
processes-Own = (
  (tt, tt, tt),
  (
    ((((λ e. ground arith), shape_of helper, refl, refl), tt), inl (inl refl), (tt, tt)),
    ((tt, tt, tt), ((tt, tt, tt), ((tt, tt, tt), tt))),
  ),
)

processes-AllSound : AllSound processes
processes-AllSound m h e = sound_of_Own processes processes m h processes-Own e

-- It has that descriptor.
reading : Answers system reader
reading k = ((true, refl), tt)

found_in :
    (l : List Process) (n : ℕ) (p : Process)
    → All (Answers system) l
    → lookup n l ≡ some p
    → Answers system p
unfolding lookup
found_in [] n p a e = absurd (ground (arith, e))
found_in (q ∷ l) n p a e = elim (Bool-cases (q.process_id == n)) [
  | inl b ↦
      let eq : some q ≡ some p = sym (ap (λ c. if c then some q else lookup n l) b) ∙ e in
      let eq' : q ≡ p = ground (arith, eq) in subst (Answers system) eq' a.0
  | inr b ↦ found_in l n p a.1 (sym (ap (λ c. if c then some q else lookup n l) b) ∙ e)
]

system-IsAnswering : IsAnswering system
system-IsAnswering n p e =
    found_in processes n p
      (
        (λ k. absurd (ground (arith, k))),
        (
          (λ k. absurd (ground (arith, k))),
          ((λ k. absurd (ground (arith, k))), ((λ k. absurd (ground (arith, k))), (reading, tt))),
        ),
      )
      e

system-IsWellFormed : IsWellFormed system
unfolding lookup
system-IsWellFormed = record {
  sound = processes-AllSound;
  scheduled = (
    (shape_of (plain 0 no_process_id run), refl, refl),
    ((shape_of first, refl, refl), ((shape_of waiting, refl, refl), tt)),
  );
  distinct =
      (((λ e. ground arith), ((λ e. ground arith), tt)), (((λ e. ground arith), tt), (tt, tt)));
  answering = system-IsAnswering;
}

system-IsFresh : IsFresh system
unfolding lookup
system-IsFresh k le = ground arith

-- Process 0 computes, process 1 sleeps, then it is the turn of process 2, which gets its resource.
slices : List (System → System)
slices = perform_all (compute ∷ []) ∷ perform_all (call_sleep 10 ∷ []) ∷ []

start_scheduler_turn_example : TurnOf 2 (start_scheduler slices (some 0) system)
unfolding slices
start_scheduler_turn_example =
    start_scheduler_turn (perform_all (compute ∷ []) ∷ perform_all (call_sleep 10 ∷ []) ∷ []) system
      [] (1 ∷ []) [] 0 2
      (perform_all-IsSlice (compute ∷ []), (perform_all-IsSlice (call_sleep 10 ∷ []), tt))
      system-IsWellFormed refl refl

found_waiting : lookup 2 processes ≡ some waiting
unfolding lookup
found_waiting = refl

found_helper : lookup 3 processes ≡ some helper
unfolding lookup
found_helper = refl

found_first : lookup 1 processes ≡ some first
unfolding lookup
found_first = refl

do_context_switch-IsReady_example :
    (IsReady wait_resource waiting (at_turn 2 system) → Runs 2 system)
    × (¬ IsReady wait_resource waiting (at_turn 2 system)
        → (slice : System → System)
        → Idle itself wait_resource waiting (at_turn 2 system) (do_context_switch slice 2 system))
do_context_switch-IsReady_example = do_context_switch-IsReady 2 waiting system found_waiting

sleep_example :
    (t : System) × (sleep 10 system ≡ yields tt t)
    × ((u : System)
        → lookup 3 u.process_map ≡ lookup 3 t.process_map
        → (u.clock_count < 15 → Waits 3 u) × (15 ≤ u.clock_count → Runs 3 u))
sleep_example = sleep_lem 10 3 helper system refl refl refl found_helper

-- Process 3 wants resource 1, which is taken.
abbrev taken : System
taken = record system { resource_list = λ k. k == 1 }

lock-not_held_example :
    (s' : System) × (lock 1 true taken ≡ yields none s')
    × ((u : System)
        → lookup 3 u.process_map ≡ lookup 3 s'.process_map
        → u.resource_list 1 ≡ false
        → (t : System) × ((rest : Bool → System → System)
            → do_context_switch (λ v. rest (end_lock v).0 (end_lock v).1) 3 u
              ≡ store_back 3 (record (rest true t) { kernel_mode = true }))
          × (t.resource_list 1 ≡ false)
          × ((b : Bool)
              → (v : System) × (lock 1 b t ≡ runs (some true) v) × (v.resource_list 1 ≡ true)))
lock-not_held_example = lock-not_held 3 1 helper taken refl refl found_helper refl

destroy-KeepsSound_example :
    KeepsSound system (destroy 1 system)
    × HasEnded 1 (destroy 1 system)
    × (shape 1 (destroy 1 system).process_map ≡ some (without_threads (shape_of first)))
destroy-KeepsSound_example = destroy-KeepsSound 1 first system processes-AllSound found_first

kill-IsGone_example :
    (u : System) × (kill (pos 1) system ≡ runs tt u)
    × (lookup 3 u.process_map ≡ none)
    × (store_back 3 (record u { kernel_mode = true }) ≡ none)
kill-IsGone_example =
    kill-IsGone 1 3 first system processes-AllSound refl refl found_first refl (inl refl)

create_kernel_process_example : Created system (create_kernel_process (pos 0) true system)
create_kernel_process_example =
    create_kernel_process_lem (pos 0) true system system-IsWellFormed system-IsFresh

-- The run itself: it ends with the iterator at process 2.
abbrev stop : Option (Option ℕ × System) → Option ℕ
stop none = none
stop (some (it, s)) = it

run_to_2 : stop (start_scheduler slices (some 0) system) ≡ some 2
unfolding start_scheduler slices perform_all lookup modify
run_to_2 = refl
