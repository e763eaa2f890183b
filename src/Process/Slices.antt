-- ===== src/Process/Slices.antt =====
-- Sequences of calls as the slice of a process: what the scheduler relies on is kept by each of them.
use upanix_os.Base.{
  ℕ, ◌≡◌, refl, sym, ◌∙◌, Bool, true, false, List, [], ◌∷◌, if◌then◌else◌, if_cases, option_cases,
}
use mathlib.Core.List.{append-nil}
use upanix_os.Base.Int.{ℤ, pos, negsuc}
use upanix_os.Process.State.{
  Status, wait_sleep, wait_int, wait_event, wait_child, wait_resource, wait_kernel_service,
  StateInfo, System,
}
use upanix_os.Process.Store.{set_info, get_schedulable_process, get_cur_proc_id}
use upanix_os.Process.Wait.{
  Progress, runs, yields, spins, yield, do_poll_wait, wait_with, sleep, consume, wait_on_interrupt,
  set_event, is_event_completed, signal_event_completed, wait_for_event, wait_on_child,
  wait_on_resource, wait_on_kernel_service, wake_up_from_ks_wait, set_resource_busy,
}
use upanix_os.Process.Ending.{KeepsSound}
use upanix_os.Process.Sound.{IsMain-SameShapes}
use upanix_os.Process.Quiet.{
  IsQuiet, set_info-IsQuiet, set_both-IsQuiet, consume-IsQuiet, set_event-IsQuiet,
  is_event_completed-IsQuiet,
}
use upanix_os.Process.Answering.{waits_io, IsAnswering}
use upanix_os.Process.Shape.{SameShapes, AllSound-SameShapes}
use upanix_os.Process.Rounds.{IsSlice, KeepsSound-IsWellFormed}

-- What a process can call, but for the wait on descriptors. `exit` is ProcessManager_Exit and `compute` anything that leaves the system.
pub data Request : Type 0 where
  call_sleep : ℕ → Request
  call_wait_on_interrupt : ℕ → Request
  call_wait_for_event : Request
  call_wait_on_child : ℤ → Request
  call_wait_on_resource : ℕ → Request
  call_wait_on_kernel_service : Request
  call_wake_up : ℤ → Request
  call_event_completed : ℤ → Request
  call_set_resource_busy : ℕ → Bool → Request
  call_yield exit compute : Request

unfoldable pub perform : Request → System → Progress Unit
unfolding yield sleep wait_on_interrupt wait_for_event wait_on_child wait_on_resource
perform (call_sleep ms) s = sleep ms s
perform (call_wait_on_interrupt irq) s = wait_on_interrupt irq s
perform call_wait_for_event s = wait_for_event s
perform (call_wait_on_child pid) s = wait_on_child pid s
perform (call_wait_on_resource k) s = wait_on_resource k s
perform call_wait_on_kernel_service s = wait_on_kernel_service s
perform (call_wake_up pid) s = runs tt (wake_up_from_ks_wait pid s)
perform (call_event_completed pid) s = runs tt (signal_event_completed pid s)
perform (call_set_resource_busy k b) s = runs tt (set_resource_busy k b s)
perform call_yield s = yield s
perform exit s = yields tt (record s { task_switch = false; context_switch = false })
perform compute s = runs tt s

-- A call that spins is cut off by the timer, as is a slice that is over.
unfoldable pub perform_all : List Request → System → System
unfolding perform
perform_all [] s = record s { context_switch = true }
perform_all (c ∷ cs) s = elim (perform c s) [
  | runs _ s' ↦ perform_all cs s'
  | yields _ s' ↦ s'
  | spins ↦ record s { context_switch = true }
]

-- What a call keeps, apart from the flags and the resources.
abbrev pub Keeps : System → System → Type 0
Keeps s s' =
    SameShapes s.process_map s'.process_map
    × (s'.scheduler_list ≡ s.scheduler_list)
    × (IsAnswering s → IsAnswering s')

Keeps-refl : (s : System) → Keeps s s
Keeps-refl s = ((λ n. refl), refl, (λ a. a))

Keeps-trans : (s t u : System) → Keeps s t → Keeps t u → Keeps s u
Keeps-trans s t u (a, b, c) (a', b', c') = ((λ n. a' n ∙ a n), b' ∙ b, (λ k. c' (c k)))

abbrev Leaves : System → Progress Unit → Type 0
Leaves s (runs _ t) = Keeps s t
Leaves s (yields _ t) = Keeps s t
Leaves s spins = Unit

pos_cases :
    {A : Type 0} (P : A → Type 0) (z : ℤ) (f g : ℕ → A)
    → ((n : ℕ) → P (f n))
    → ((n : ℕ) → P (g n))
    → P (elim z [ pos n ↦ f n | negsuc n ↦ g n ])
pos_cases P (pos n) f g h k = h n
pos_cases P (negsuc n) f g h k = k n

wait_with-Leaves :
    (st : Status) (f : StateInfo → StateInfo) (s : System)
    → waits_io st ≡ false
    → Leaves s (wait_with st f s)
unfolding wait_with yield
wait_with-Leaves st f s done =
    pos_cases (Leaves s) s.current_process_id _ (λ _. spins)
      (λ n. let q = set_both-IsQuiet n st f s done in (q.0, q.1, q.3)) (λ n. tt)

quiet-Keeps : (s t : System) → IsQuiet s t → Keeps s t
quiet-Keeps s t q = (q.0, q.1, q.3)

-- A call that polls, and one that returns at once in the kernel.
poll_or_wait :
    (s t : System) (b c : Bool) (st : Status) (f : StateInfo → StateInfo)
    → Keeps s t
    → waits_io st ≡ false
    → Leaves s (if b then (if c then runs tt t else spins) else wait_with st f s)
poll_or_wait s t true true st f k done = k
poll_or_wait s t true false st f k done = tt
poll_or_wait s t false c st f k done = wait_with-Leaves st f s done

return_or_wait :
    (s : System) (b : Bool) (st : Status) (f : StateInfo → StateInfo)
    → waits_io st ≡ false
    → Leaves s (if b then runs tt s else wait_with st f s)
return_or_wait s true st f done = Keeps-refl s
return_or_wait s false st f done = wait_with-Leaves st f s done

perform-Leaves : (c : Request) (s : System) → Leaves s (perform c s)
unfolding perform sleep wait_on_interrupt wait_for_event wait_on_child wait_on_resource
    wait_on_kernel_service wake_up_from_ks_wait signal_event_completed set_resource_busy
perform-Leaves (call_sleep ms) s =
    if_cases (Leaves s) (do_poll_wait s) _ _ (λ b. Keeps-refl s)
      (λ b. wait_with-Leaves wait_sleep _ s refl)
perform-Leaves (call_wait_on_interrupt irq) s =
    poll_or_wait s (consume irq s).1 (do_poll_wait s) (consume irq s).0 wait_int _
      (quiet-Keeps s (consume irq s).1 (consume-IsQuiet irq s)) refl
perform-Leaves call_wait_for_event s =
    let r = is_event_completed (get_cur_proc_id s) s in
    poll_or_wait s r.1 (do_poll_wait s) r.0 wait_event _
      (quiet-Keeps s r.1 (is_event_completed-IsQuiet (get_cur_proc_id s) s)) refl
perform-Leaves (call_wait_on_child (negsuc n)) s = Keeps-refl s
perform-Leaves (call_wait_on_child (pos n)) s = return_or_wait s _ wait_child _ refl
perform-Leaves (call_wait_on_resource k) s = return_or_wait s _ wait_resource _ refl
perform-Leaves call_wait_on_kernel_service s = return_or_wait s _ wait_kernel_service _ refl
perform-Leaves (call_wake_up pid) s =
    option_cases (Keeps s) (get_schedulable_process pid s) s _ (Keeps-refl s) λ p e.
      let f = λ (i : StateInfo). record i { kernel_service_complete = true } in
      quiet-Keeps s (set_info p.process_id f s) (set_info-IsQuiet p.process_id f s (λ i. refl))
perform-Leaves (call_event_completed pid) s =
    quiet-Keeps s (set_event true pid s) (set_event-IsQuiet true pid s)
perform-Leaves (call_set_resource_busy k b) s = Keeps-refl s
perform-Leaves call_yield s = Keeps-refl s
perform-Leaves exit s = Keeps-refl s
perform-Leaves compute s = Keeps-refl s

perform_all-Keeps : (cs : List Request) (s : System) → Keeps s (perform_all cs s)
unfolding perform_all
perform_all-Keeps [] s = Keeps-refl s
perform_all-Keeps (c ∷ cs) s = after_one (perform c s) (perform-Leaves c s) (perform_all-Keeps cs)
  where
    after_one :
        (r : Progress Unit)
        → Leaves s r
        → ((t : System) → Keeps t (perform_all cs t))
        → Keeps s (elim r [
          | runs _ t ↦ perform_all cs t
          | yields _ t ↦ t
          | spins ↦ record s { context_switch = true }
        ])
    after_one (runs _ t) k rec = Keeps-trans s t (perform_all cs t) k (rec t)
    after_one (yields _ t) k rec = k
    after_one spins k rec = Keeps-refl s

-- Any sequence of the requests, each run from what the one before it left, is a slice that the scheduler can
-- rely on.
pub perform_all-IsSlice : (cs : List Request) → IsSlice (perform_all cs)
perform_all-IsSlice cs n m s w c (q, e, g) =
    let (a, b, d) = perform_all-Keeps cs s in
    let t = perform_all cs s in
    let k : KeepsSound s (record t { current_process_id = s.current_process_id }) = (
      AllSound-SameShapes s.process_map t.process_map a w.sound,
      IsMain-SameShapes s.process_map t.process_map a,
      b,
      refl,
      d,
    ) in
    let w' =
      KeepsSound-IsWellFormed s (record t { current_process_id = s.current_process_id }) w k in
    (
      record {
        sound = w'.sound;
        scheduled = w'.scheduled;
        distinct = w'.distinct;
        answering = w'.answering;
      },
      ([], b ∙ sym (append-nil s.scheduler_list)),
      (q, a n ∙ e, g),
    )
