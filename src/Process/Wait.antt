-- ===== src/Process/Wait.antt =====
-- process/ProcessManager.cpp and kernel/ResourceMutex.cpp: what a process calls to wait, to wake another
-- one, to end one and to hold a resource. A call that gives up the processor ends with `yields`; one that
-- would spin until an interrupt comes is `spins`.
use upanix_os.Base.{
  ℕ, ◌+◌, ◌-◌, ◌%◌, ◌^◌, ◌||◌, not, Bool, true, false, Option, none, some, List, [], ◌∷◌, ltb,
  if◌then◌else◌,
}
use upanix_os.Base.Int.{ℤ, pos, negsuc}
use upanix_os.Process.State.{
  Status, wait_sleep, wait_int, wait_event, wait_child, wait_resource, wait_kernel_service,
  wait_io_descriptors, terminated, IoDescriptor, IoOp, StateInfo, System, ◌==ℤ◌, is_negative,
  max_no_process, set_at,
}
use upanix_os.Process.Store.{
  get_schedulable_process, set_status, set_info, is_ended, get_cur_proc_id,
}
use upanix_os.Process.Destroy.{destroy}

pub data Progress (A : Type 0) : Type 0 where
  runs : A → System → Progress A
  yields : A → System → Progress A
  spins : Progress A

-- ProcessManager_Yield
unfoldable pub yield : System → Progress Unit
yield s = yields tt (record s { task_switch = false; context_switch = true })

-- DoPollWait
unfoldable pub do_poll_wait : System → Bool
do_poll_wait s = s.kernel_mode || not s.task_switch

-- The wait is noted in the state of the current process, which yields with a new status.
unfoldable pub wait_with : Status → (StateInfo → StateInfo) → System → Progress Unit
unfolding yield set_status set_info
wait_with st f s = elim s.current_process_id [
  | pos n ↦ yield (set_status n st (set_info n f s))
  | negsuc _ ↦ spins
]

-- Sleep, in milliseconds. KernelUtil::Wait returns when the clock has gone on by the time.
unfoldable pub sleep : ℕ → System → Progress Unit
unfolding wait_with do_poll_wait
sleep ms s =
    let wake_at = (s.clock_count + ms) % 2 ^ 32 in
    if do_poll_wait s
    then runs tt (record s { clock_count = wake_at })
    else wait_with wait_sleep (λ i. record i { sleep_time = wake_at }) s

-- IRQ::Consume
unfoldable pub consume : ℕ → System → Bool × System
unfolding set_at
consume irq s =
    if ltb 0 (s.pending irq)
    then (true, record s { pending = set_at s.pending irq (s.pending irq - 1) })
    else (false, s)

unfoldable pub wait_on_interrupt : ℕ → System → Progress Unit
unfolding wait_with do_poll_wait consume
wait_on_interrupt irq s =
    let (consumed, s') = consume irq s in
    if do_poll_wait s
    then (if consumed then runs tt s' else spins)
    else wait_with wait_int (λ i. record i { irq = irq }) s

-- GetProcessStateInfo
unfoldable pub get_process_state_info : ℤ → System → StateInfo
unfolding get_schedulable_process
get_process_state_info pid s = elim (get_schedulable_process pid s) [
  | none ↦ s.kernel_mode_state_info
  | some p ↦ p.state_info
]

-- A change of the object that GetProcessStateInfo refers to.
unfoldable pub set_event : Bool → ℤ → System → System
unfolding get_schedulable_process set_info
set_event b pid s = elim (get_schedulable_process pid s) [
  | none ↦ record s {
    kernel_mode_state_info = record s.kernel_mode_state_info { event_completed = b };
  }
  | some p ↦ set_info p.process_id (λ i. record i { event_completed = b }) s
]

unfoldable pub is_event_completed : ℤ → System → Bool × System
unfolding get_process_state_info set_event
is_event_completed pid s =
    if (get_process_state_info pid s).event_completed
    then (true, set_event false pid s)
    else (false, s)

unfoldable pub signal_event_completed : ℤ → System → System
unfolding set_event
signal_event_completed pid s = set_event true pid s

unfoldable pub wait_for_event : System → Progress Unit
unfolding wait_with do_poll_wait is_event_completed get_cur_proc_id
wait_for_event s =
    let (completed, s') = is_event_completed (get_cur_proc_id s) s in
    if do_poll_wait s
    then (if completed then runs tt s' else spins)
    else wait_with wait_event (λ i. i) s

unfoldable pub wait_on_child : ℤ → System → Progress Unit
unfolding wait_with get_cur_proc_id
wait_on_child (negsuc _) s = runs tt s
wait_on_child (pos n) s =
    if is_negative (get_cur_proc_id s) || not (ltb n max_no_process)
    then runs tt s
    else wait_with wait_child (λ i. record i { wait_child_proc_id = pos n }) s

unfoldable pub wait_on_resource : ℕ → System → Progress Unit
unfolding wait_with get_cur_proc_id
wait_on_resource k s =
    if is_negative (get_cur_proc_id s)
    then runs tt s
    else wait_with wait_resource (λ i. record i { wait_resource_id = k }) s

unfoldable pub wait_on_io_descriptors : List IoDescriptor → System → Progress Unit
unfolding wait_with get_cur_proc_id
wait_on_io_descriptors l s =
    if is_negative (get_cur_proc_id s)
    then runs tt s
    else wait_with wait_io_descriptors (λ i. record i { io_descriptors = l }) s

unfoldable pub wait_on_io_descriptor : ℤ → IoOp → System → Progress Unit
unfolding wait_on_io_descriptors
wait_on_io_descriptor fd op s = wait_on_io_descriptors (record { fd = fd; io_type = op } ∷ []) s

unfoldable pub wait_on_kernel_service : System → Progress Unit
unfolding wait_with get_cur_proc_id
wait_on_kernel_service s =
    if is_negative (get_cur_proc_id s)
    then runs tt s
    else wait_with wait_kernel_service (λ i. record i { kernel_service_complete = false }) s

unfoldable pub wake_up_from_ks_wait : ℤ → System → System
unfolding get_schedulable_process set_info
wake_up_from_ks_wait pid s = elim (get_schedulable_process pid s) [
  | none ↦ s
  | some p ↦ set_info p.process_id (λ i. record i { kernel_service_complete = true }) s
]

-- A process that kills itself only marks itself and yields: the scheduler destroys it.
unfoldable pub kill : ℤ → System → Progress Unit
unfolding yield destroy get_schedulable_process set_status get_cur_proc_id
kill pid s = elim (get_schedulable_process pid s) [
  | none ↦ runs tt s
  | some p ↦
      if is_ended p.status
      then runs tt s
      else if pid ==ℤ get_cur_proc_id s
      then yield (set_status p.process_id terminated s)
      else runs tt (destroy p.process_id s)
]

unfoldable pub is_resource_busy : ℕ → System → Bool
is_resource_busy k s = s.resource_list k

unfoldable pub set_resource_busy : ℕ → Bool → System → System
unfolding set_at
set_resource_busy k b s = record s { resource_list = set_at s.resource_list k b }

-- Lock behind WaitOnResource: its answer. A process that yielded comes here when it runs again.
unfoldable pub end_lock : System → Bool × System
end_lock s = (true, record s { task_switch = true })

unfoldable pub locked : Progress Unit → Progress (Option Bool)
unfolding end_lock
locked (runs _ s) = let (b, u) = end_lock s in runs (some b) u
locked (yields _ s) = yields none s
locked spins = spins

-- ResourceMutex::Lock. Its answer is none where it yields, with `end_lock` left to do.
unfoldable pub lock : ℕ → Bool → System → Progress (Option Bool)
unfolding is_resource_busy set_resource_busy wait_on_resource locked
lock k blocking s =
    let off = record s { task_switch = false } in
    if not (is_resource_busy k off)
    then runs (some true) (record (set_resource_busy k true off) { task_switch = true })
    else if not blocking
    then runs (some false) off
    else locked (wait_on_resource k off)

-- ResourceMutex::UnLock
unfoldable pub unlock : ℕ → System → System
unfolding set_resource_busy
unlock k s = set_resource_busy k false s
