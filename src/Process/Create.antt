-- ===== src/Process/Create.antt =====
-- The constructor of SchedulableProcess with those of KernelProcess and Thread, and the creation of
-- processes and threads by ProcessManager. Stacks and page tables, which they also set up, are left out.
use upanix_os.Base.{ℕ, ◌+◌, Bool, false, Option, none, some, [], ◌∷◌, ◌++◌, if◌then◌else◌}
use upanix_os.Base.Int.{ℤ, pos, negsuc}
use upanix_os.Process.State.{new, run, Process, System, fresh_info}
use upanix_os.Process.Store.{
  get_schedulable_process, update_process, add_to_process_map, add_to_scheduler_list,
}
use upanix_os.Process.Group.{new_group, on_group, add_process, put_on_fg_process_list}
use upanix_os.Process.Destroy.{add_child}

-- The group of a new process: that of its parent, or a new one.
unfoldable pub group_for : ℤ → Bool → System → ℕ × System
unfolding get_schedulable_process new_group
group_for parent is_fg s = elim (get_schedulable_process parent s) [
  | none ↦ new_group is_fg s
  | some p ↦ (p.process_group, s)
]

-- SchedulableProcess(name, parentID, isFGProcess)
unfoldable pub construct : ℤ → Bool → System → Process × System
unfolding group_for on_group add_process put_on_fg_process_list
construct parent is_fg s =
    let pid = s.next_pid in
    let (g, s1) = group_for parent is_fg (record s { next_pid = pid + 1 }) in
    let s2 = on_group g add_process s1 in
    (
      record {
        process_id = pid;
        main_thread_id = pid;
        parent_process_id = parent;
        status = new;
        state_info = fresh_info;
        process_group = g;
        child_process_ids = [];
        threads = [];
        next_thread = none;
      },
      if is_fg then on_group g (put_on_fg_process_list pid) s2 else s2,
    )

-- KernelProcess: the parent learns of its child.
unfoldable pub kernel_process : ℤ → Bool → System → Process × System
unfolding construct update_process add_child get_schedulable_process
kernel_process parent is_fg s =
    let (p, s1) = construct parent is_fg s in
    (
      p,
      elim (get_schedulable_process parent s1) [
        | none ↦ s1
        | some pp ↦
            update_process pp.process_id
              (λ q. record q { child_process_ids = add_child p.process_id q.child_process_ids }) s1
      ],
    )

-- CreateKernelProcess
unfoldable pub create_kernel_process : ℤ → Bool → System → ℤ × System
unfolding kernel_process add_to_scheduler_list
create_kernel_process parent is_fg s =
    let (p, s1) = kernel_process parent is_fg s in
    elim (add_to_scheduler_list p s1) [ none ↦ (negsuc 0, s1) | some s2 ↦ (pos p.process_id, s2) ]

-- GetThreadParentProcess: the process itself, or the one that a thread belongs to.
unfoldable pub get_thread_parent_process : ℤ → System → Option ℕ
unfolding get_schedulable_process
get_thread_parent_process pid s = elim (get_schedulable_process pid s) [
  | none ↦ none
  | some p ↦ some p.main_thread_id
]

-- The constructor of a thread puts it on the list of its process, to run.
unfoldable pub new_thread : ℕ → System → Process × System
unfolding construct update_process
new_thread main s =
    let (p, s1) = construct (pos main) false s in
    (
      record p { main_thread_id = main; status = run },
      update_process main (λ q. record q { threads = q.threads ++ p.process_id ∷ [] }) s1,
    )

-- CreateThreadTask
unfoldable pub create_thread_task : ℤ → System → ℤ × System
unfolding get_thread_parent_process new_thread add_to_process_map
create_thread_task parent s = elim (get_thread_parent_process parent s) [
  | none ↦ (negsuc 0, s)
  | some main ↦
      let (t, s1) = new_thread main s in
      elim (add_to_process_map t s1) [ none ↦ (negsuc 0, s1) | some s2 ↦ (pos t.process_id, s2) ]
]
