-- ===== src/Process/Schedule.antt =====
-- process/ProcessManager.cpp: DoContextSwitch and StartScheduler. What a process does between being switched
-- to and giving up the processor is its `slice`, a change of the system.
use upanix_os.Base.{
  ℕ, ◌||◌, not, Bool, true, false, Option, none, some, ◌>>=◌, List, [], ◌∷◌, ◌==◌, leb,
  if◌then◌else◌,
}
use upanix_os.Base.Int.{ℤ, pos, negsuc}
use upanix_os.Process.State.{
  Status, new, run, wait_sleep, wait_int, wait_event, wait_child, wait_resource,
  wait_kernel_service, wait_io_descriptors, terminated, released, IoDescriptor, StateInfo, Process,
  System, ◌==ℤ◌, no_process_id, resource_nil, no_irq,
}
use upanix_os.Process.Store.{
  lookup, update_process, set_status, set_info, release, remove_from_process_map,
}
use upanix_os.Process.Group.{remove}
use upanix_os.Process.Wait.{consume, is_event_completed}
use upanix_os.Process.Destroy.{destroy, if_released, for_schedule, after}

-- IODescriptorTable::selectCheck; the exception on an unknown descriptor is none.
unfoldable pub select_check :
    (IoDescriptor → Option Bool) → List IoDescriptor → Option (List IoDescriptor)
select_check can [] = some []
select_check can (d ∷ ds) =
    can d >>= λ ok. select_check can ds >>= λ rest. some (if ok then d ∷ rest else rest)

-- The wait is over: its mark is reset and the process runs.
unfoldable pub resume : ℕ → (StateInfo → StateInfo) → System → System
unfolding set_status set_info
resume n f s = set_status n run (set_info n f s)

-- WakeupProcessOnInterrupt
unfoldable pub wakeup_process_on_interrupt : Process → System → Bool × System
unfolding consume set_status
wakeup_process_on_interrupt p s =
    let irq = p.state_info.irq in
    let (consumed, s') = consume irq s in
    if irq == no_irq
    then (true, s)
    else if consumed
    then (true, set_status p.process_id run s')
    else (false, s')

-- The case WAIT_CHILD.
abbrev pub forget_child : ℤ → Process → Process
forget_child (negsuc _) p = p
forget_child (pos c) p = record p { child_process_ids = remove (λ q. q == c) p.child_process_ids }

unfoldable pub end_child_wait : ℤ → Process → System → System
unfolding resume update_process remove
end_child_wait c p s =
    resume p.process_id (λ i. record i { wait_child_proc_id = no_process_id })
      (update_process p.process_id (forget_child c) s)

abbrev pub is_terminated : Status → Bool
is_terminated terminated = true
is_terminated _ = false

unfoldable pub check_child : ℤ → Process → System → Bool × System
unfolding end_child_wait release resume
check_child (negsuc _) p s =
    (true, resume p.process_id (λ i. record i { wait_child_proc_id = no_process_id }) s)
check_child (pos c) p s = elim (lookup c s.process_map) [
  | none ↦ (true, end_child_wait (pos c) p s)
  | some child ↦
      if not (child.parent_process_id ==ℤ s.current_process_id)
      then (true, end_child_wait (pos c) p s)
      else if is_terminated child.status
      then (true, end_child_wait (pos c) p (release c s))
      else (false, s)
]

-- The switch of DoContextSwitch: whether the process is loaded. An exception is none.
unfoldable pub wake : Status → Process → System → Option (Bool × System)
unfolding release resume wakeup_process_on_interrupt is_event_completed select_check check_child
wake released p s = some (false, s)
wake terminated p s = some (
  false,
  if p.parent_process_id ==ℤ s.upanix_kernel_process_id then release p.process_id s else s,
)
wake wait_sleep p s = some (
    if leb p.state_info.sleep_time s.clock_count
    then (true, resume p.process_id (λ i. record i { sleep_time = 0 }) s)
    else (false, s))
wake wait_int p s = some (wakeup_process_on_interrupt p s)
wake wait_event p s =
    let (completed, s') = is_event_completed (pos p.process_id) s in
    some (if completed then (true, set_status p.process_id run s') else (false, s'))
wake wait_io_descriptors p s =
    select_check (s.can p.process_id) p.state_info.io_descriptors >>= λ result. elim result [
      | [] ↦ some (false, s)
      | d ∷ ds ↦ some (true, resume p.process_id (λ i. record i { io_descriptors = d ∷ ds }) s)
    ]
wake wait_child p s = some (check_child p.state_info.wait_child_proc_id p s)
wake wait_resource p s = some (
    if p.state_info.wait_resource_id == resource_nil
    then (true, set_status p.process_id run s)
    else if not (s.resource_list p.state_info.wait_resource_id)
    then (true, resume p.process_id (λ i. record i { wait_resource_id = resource_nil }) s)
    else (false, s))
wake wait_kernel_service p s = some (
    if p.state_info.kernel_service_complete
    then (true, resume p.process_id (λ i. record i { kernel_service_complete = false }) s)
    else (false, s))
wake run p s = some (true, s)
wake new p s = some (false, s)

-- After the switch back the process is stored, which needs its object, and destroyed if it ended.
unfoldable pub store_back : ℕ → System → Option System
unfolding destroy
store_back n s = lookup n s.process_map >>= λ p.
    let ended = not s.context_switch || is_terminated p.status in
    let s' = if ended then destroy n s else s in some (record s' { task_switch = true })

-- DoContextSwitch from Load on, if the switch on the status did not return.
unfoldable pub switch_to : (System → System) → ℕ → Bool × System → Option System
unfolding store_back
switch_to slice n (go, s) =
    if go
    then store_back n (record (slice (record s { context_switch = false; kernel_mode = false })) {
      kernel_mode = true;
    })
    else some s

-- DoContextSwitch
unfoldable pub do_context_switch : (System → System) → ℕ → System → Option System
unfolding wake switch_to
do_context_switch slice n s = lookup n s.process_map >>= λ p.
    wake p.status p (record s { current_process_id = pos n }) >>= switch_to slice n

-- The end of a round: a process that was released is deleted.
unfoldable pub reap : ℕ → ℕ → System → Option System
unfolding remove_from_process_map remove
reap here n s = lookup n s.process_map >>= λ p.
    if_released p.status
      (some (
        if p.process_id == p.main_thread_id
        then record (remove_from_process_map n s) {
          scheduler_list = remove (λ k. k == here) s.scheduler_list;
        }
        else s))
      (some s)

-- One round of StartScheduler at the process `here`, with the new iterator.
unfoldable pub schedule_round : (System → System) → ℕ → System → Option (Option ℕ × System)
unfolding for_schedule do_context_switch reap after
schedule_round slice here s = for_schedule here s >>= λ r. do_context_switch slice r.0 r.1 >>= λ s'.
    reap here r.0 s' >>= λ s''. some (after here s'.scheduler_list, s'')

-- The entry whose turn it is: the first one when the iterator is at the end, and none when the list is empty.
unfoldable pub position : Option ℕ → List ℕ → Option ℕ
position it [] = none
position none (x ∷ l) = some x
position (some n) (x ∷ l) = some n

-- StartScheduler, for as many rounds as there are slices.
unfoldable pub start_scheduler :
    List (System → System) → Option ℕ → System → Option (Option ℕ × System)
unfolding schedule_round position
start_scheduler [] it s = some (it, s)
start_scheduler (slice ∷ slices) it s = elim (position it s.scheduler_list) [
  | none ↦ some (it, s)
  | some here ↦ schedule_round slice here s >>= λ r. start_scheduler slices r.0 r.1
]
