-- ===== src/Process/Quiet.antt =====
-- The operations that keep the shape of every process and the list of the scheduler.
use upanix_os.Base.{
  ℕ, ◌≡◌, refl, ◌∙◌, arith, Bool, true, false, Option, none, some, ◌>>=◌, List, [], ◌∷◌, ◌==◌, leb,
  ltb, not, option_cases, if_cases,
}
use upanix_os.Base.Int.{ℤ, pos, negsuc}
use upanix_os.Process.State.{
  Status, new, run, wait_sleep, wait_int, wait_event, wait_child, wait_resource,
  wait_kernel_service, wait_io_descriptors, terminated, released, StateInfo, IoDescriptor, Process,
  System, ◌==ℤ◌, no_process_id, no_irq, resource_nil,
}
use upanix_os.Process.Store.{
  lookup, update_process, set_status, set_info, release, get_schedulable_process,
}
use upanix_os.Process.Group.{leave_group}
use upanix_os.Process.Destroy.{
  adopt, settle_child, redirect_child, redirect_children, add_child, finish_destroy, destroy_thread,
}
use upanix_os.Process.Wait.{consume, set_event, get_process_state_info, is_event_completed}
use upanix_os.Process.Schedule.{
  select_check, resume, wakeup_process_on_interrupt, forget_child, end_child_wait, is_terminated,
  check_child, wake,
}
use upanix_os.Process.Answering.{
  waits_io, IsAnswering, AnsweringBut-update, KeepsWait, IsAnswering-update, IsAnswering-settled,
}
use upanix_os.Process.Shape.{IsPlain, SameShapes, SameShapes-trans, shape-modify_plain}

abbrev pub IsQuiet : System → System → Type 0
IsQuiet s s' =
    SameShapes s.process_map s'.process_map
    × (s'.scheduler_list ≡ s.scheduler_list)
    × (s'.current_process_id ≡ s.current_process_id)
    × (IsAnswering s → IsAnswering s')
    × (s'.resource_list ≡ s.resource_list)

pub IsQuiet-refl : (s : System) → IsQuiet s s
IsQuiet-refl s = ((λ n. refl), refl, refl, (λ a. a), refl)

pub IsQuiet-trans : (s t u : System) → IsQuiet s t → IsQuiet t u → IsQuiet s u
IsQuiet-trans s t u (a, b, c, x, r) (d, e, f, y, r') = (
  SameShapes-trans s.process_map t.process_map u.process_map a d,
  e ∙ b,
  f ∙ c,
  (λ k. y (x k)),
  r' ∙ r,
)

pub update_process-IsQuiet :
    (n : ℕ) (f : Process → Process) (s : System)
    → IsPlain f
    → KeepsWait f
    → IsQuiet s (update_process n f s)
unfolding update_process
update_process-IsQuiet n f s h w = (
  shape-modify_plain n f s.process_map h,
  refl,
  refl,
  IsAnswering-update n f s (λ p. (h p).0) w,
  refl,
)

pub set_status-IsQuiet :
    (n : ℕ) (st : Status) (s : System) → waits_io st ≡ false → IsQuiet s (set_status n st s)
unfolding set_status
set_status-IsQuiet n st s done =
    update_process-IsQuiet n (λ p. record p { status = st }) s (λ p. (refl, refl))
      (λ p w. absurd (ground (arith, w, done)))

pub set_info-IsQuiet :
    (n : ℕ) (f : StateInfo → StateInfo) (s : System)
    → ((i : StateInfo) → (f i).io_descriptors ≡ i.io_descriptors)
    → IsQuiet s (set_info n f s)
unfolding set_info
set_info-IsQuiet n f s io =
    update_process-IsQuiet n (λ p. record p { state_info = f p.state_info }) s (λ p. (refl, refl))
      (λ p w. (w, io p.state_info))

update_process-SameShapes :
    (n : ℕ) (f : Process → Process) (s : System)
    → IsPlain f
    → SameShapes s.process_map (update_process n f s).process_map
unfolding update_process
update_process-SameShapes n f s h = shape-modify_plain n f s.process_map h

-- What the process waits for changes, and it does not wait on descriptors then.
pub set_both-IsQuiet :
    (n : ℕ) (st : Status) (f : StateInfo → StateInfo) (s : System)
    → waits_io st ≡ false
    → IsQuiet s (set_status n st (set_info n f s))
unfolding set_status set_info
set_both-IsQuiet n st f s done =
    let g = λ (p : Process). record p { state_info = f p.state_info } in
    let h = λ (p : Process). record p { status = st } in
    let s1 = update_process n g s in
    (
      SameShapes-trans s.process_map s1.process_map (update_process n h s1).process_map
          (update_process-SameShapes n g s (λ p. (refl, refl)))
          (update_process-SameShapes n h s1 (λ p. (refl, refl))),
      refl,
      refl,
      (λ a.
          IsAnswering-settled n h s1 (λ p. refl) (λ p. done)
            (AnsweringBut-update n g s (λ p. refl) (λ m p ne e. a m p e))),
      refl,
    )

pub release-IsQuiet : (n : ℕ) (s : System) → IsQuiet s (release n s)
unfolding release
release-IsQuiet n s = set_status-IsQuiet n released s refl

pub resume-IsQuiet : (n : ℕ) (f : StateInfo → StateInfo) (s : System) → IsQuiet s (resume n f s)
unfolding resume
resume-IsQuiet n f s = set_both-IsQuiet n run f s refl

pub adopt-IsQuiet :
    (parent : Option Process) (pid : ℕ) (s : System) → IsQuiet s (adopt parent pid s)
unfolding adopt
adopt-IsQuiet none pid s = IsQuiet-refl s
adopt-IsQuiet (some pp) pid s =
    let moved = update_process pid (λ q. record q { parent_process_id = pos pp.process_id }) s in
    IsQuiet-trans s moved (adopt (some pp) pid s)
      (update_process-IsQuiet pid (λ q. record q { parent_process_id = pos pp.process_id }) s
        (λ p. (refl, refl)) (λ p w. (w, refl)))
      (update_process-IsQuiet pp.process_id
        (λ q. record q { child_process_ids = add_child pid q.child_process_ids }) moved
        (λ p. (refl, refl)) (λ p w. (w, refl)))

pub settle_child-IsQuiet :
    (st : Status) (parent : Option Process) (pid : ℕ) (s : System)
    → IsQuiet s (settle_child st parent pid s)
unfolding settle_child
settle_child-IsQuiet terminated parent pid s = release-IsQuiet pid s
settle_child-IsQuiet _ parent pid s = adopt-IsQuiet parent pid s

pub redirect_child-IsQuiet :
    (parent : Option Process) (pid : ℕ) (s : System) → IsQuiet s (redirect_child parent pid s)
unfolding redirect_child
redirect_child-IsQuiet parent pid s =
    option_cases (IsQuiet s) (lookup pid s.process_map) s (λ p. settle_child p.status parent pid s)
      (IsQuiet-refl s) (λ p e. settle_child-IsQuiet p.status parent pid s)

pub redirect_children-IsQuiet :
    (parent : Option Process) (pids : List ℕ) (s : System)
    → IsQuiet s (redirect_children parent pids s)
unfolding redirect_children
redirect_children-IsQuiet parent [] s = IsQuiet-refl s
redirect_children-IsQuiet parent (pid ∷ pids) s =
    IsQuiet-trans s (redirect_child parent pid s)
      (redirect_children parent pids (redirect_child parent pid s))
      (redirect_child-IsQuiet parent pid s)
      (redirect_children-IsQuiet parent pids (redirect_child parent pid s))

pub leave_group-IsQuiet : (pid g : ℕ) (s : System) → IsQuiet s (leave_group pid g s)
unfolding leave_group
leave_group-IsQuiet pid g s =
    option_cases (IsQuiet s) (s.groups g) s _ (IsQuiet-refl s)
      (λ a e. ((λ n. refl), refl, refl, (λ k. k), refl))

pub finish_destroy-IsQuiet : (p : Process) (s : System) → IsQuiet s (finish_destroy p s)
unfolding finish_destroy
finish_destroy-IsQuiet p s =
    let parent = get_schedulable_process p.parent_process_id s in
    let redirected = redirect_children parent p.child_process_ids s in
    let left = leave_group p.process_id p.process_group redirected in
    let q : IsQuiet s left =
      IsQuiet-trans s redirected left (redirect_children-IsQuiet parent p.child_process_ids s)
        (leave_group-IsQuiet p.process_id p.process_group redirected) in
    if_cases (IsQuiet s) (p.parent_process_id ==ℤ no_process_id) (release p.process_id left) left
      (λ e. IsQuiet-trans s left (release p.process_id left) q (release-IsQuiet p.process_id left))
      (λ e. q)

pub destroy_thread-IsQuiet : (p : Process) (s : System) → IsQuiet s (destroy_thread p s)
unfolding destroy_thread
destroy_thread-IsQuiet p s =
    IsQuiet-trans s (set_status p.process_id terminated s) (destroy_thread p s)
      (set_status-IsQuiet p.process_id terminated s refl)
      (finish_destroy-IsQuiet p (set_status p.process_id terminated s))

-- Waking a process too.
abbrev pub AnswersQuiet : System → Bool × System → Type 0
AnswersQuiet s r = IsQuiet s r.1

pub consume-IsQuiet : (irq : ℕ) (s : System) → IsQuiet s (consume irq s).1
unfolding consume
consume-IsQuiet irq s =
    if_cases (AnswersQuiet s) (ltb 0 (s.pending irq)) _ _
      (λ e. ((λ n. refl), refl, refl, (λ k. k), refl)) (λ e. IsQuiet-refl s)

pub set_event-IsQuiet : (b : Bool) (pid : ℤ) (s : System) → IsQuiet s (set_event b pid s)
unfolding set_event
set_event-IsQuiet b pid s =
    option_cases (IsQuiet s) (get_schedulable_process pid s) _ _
      ((λ n. refl), refl, refl, (λ k. k), refl)
      (λ p e. set_info-IsQuiet p.process_id (λ i. record i { event_completed = b }) s (λ i. refl))

pub is_event_completed-IsQuiet : (pid : ℤ) (s : System) → IsQuiet s (is_event_completed pid s).1
unfolding is_event_completed
is_event_completed-IsQuiet pid s =
    if_cases (AnswersQuiet s) (get_process_state_info pid s).event_completed _ _
      (λ e. set_event-IsQuiet false pid s) (λ e. IsQuiet-refl s)

pub end_child_wait-IsQuiet : (c : ℤ) (p : Process) (s : System) → IsQuiet s (end_child_wait c p s)
unfolding end_child_wait
end_child_wait-IsQuiet c p s =
    let forgotten = update_process p.process_id (forget_child c) s in
    IsQuiet-trans s forgotten (end_child_wait c p s)
      (update_process-IsQuiet p.process_id (forget_child c) s (plain c) (waits c))
      (resume-IsQuiet p.process_id (λ i. record i { wait_child_proc_id = no_process_id }) forgotten)
  where
    plain : (c : ℤ) → IsPlain (forget_child c)
    plain (pos n) q = (refl, refl)
    plain (negsuc n) q = (refl, refl)

    waits : (c : ℤ) → KeepsWait (forget_child c)
    waits (pos n) q w = (w, refl)
    waits (negsuc n) q w = (w, refl)

pub check_child-IsQuiet : (c : ℤ) (p : Process) (s : System) → IsQuiet s (check_child c p s).1
unfolding check_child
check_child-IsQuiet (negsuc _) p s =
    resume-IsQuiet p.process_id (λ i. record i { wait_child_proc_id = no_process_id }) s
check_child-IsQuiet (pos c) p s =
    option_cases (AnswersQuiet s) (lookup c s.process_map) (true, end_child_wait (pos c) p s) _
      (end_child_wait-IsQuiet (pos c) p s)
      λ child e.
        if_cases (AnswersQuiet s) (not (child.parent_process_id ==ℤ s.current_process_id)) _ _
          (λ k. end_child_wait-IsQuiet (pos c) p s)
          (λ k.
            if_cases (AnswersQuiet s) (is_terminated child.status) _ _
              (λ d.
                IsQuiet-trans s (release c s) (end_child_wait (pos c) p (release c s))
                  (release-IsQuiet c s) (end_child_wait-IsQuiet (pos c) p (release c s)))
              (λ d. IsQuiet-refl s))

pub wakeup_process_on_interrupt-IsQuiet :
    (p : Process) (s : System) → IsQuiet s (wakeup_process_on_interrupt p s).1
unfolding wakeup_process_on_interrupt
wakeup_process_on_interrupt-IsQuiet p s =
    let s' = (consume p.state_info.irq s).1 in
    if_cases (AnswersQuiet s) (p.state_info.irq == no_irq) _ _ (λ e. IsQuiet-refl s)
      (λ e.
        if_cases (AnswersQuiet s) (consume p.state_info.irq s).0 _ _
          (λ k.
            IsQuiet-trans s s' (set_status p.process_id run s') (consume-IsQuiet p.state_info.irq s)
              (set_status-IsQuiet p.process_id run s' refl))
          (λ k. consume-IsQuiet p.state_info.irq s))

-- What a failed operation answers says nothing.
abbrev pub AnswerIsQuiet : System → Option (Bool × System) → Type 0
AnswerIsQuiet s none = Unit
AnswerIsQuiet s (some r) = IsQuiet s r.1

pub wake-IsQuiet : (st : Status) (p : Process) (s : System) → AnswerIsQuiet s (wake st p s)
unfolding wake
wake-IsQuiet new p s = IsQuiet-refl s
wake-IsQuiet run p s = IsQuiet-refl s
wake-IsQuiet released p s = IsQuiet-refl s
wake-IsQuiet terminated p s =
    if_cases (IsQuiet s) (p.parent_process_id ==ℤ s.upanix_kernel_process_id)
      (release p.process_id s) s (λ e. release-IsQuiet p.process_id s) (λ e. IsQuiet-refl s)
wake-IsQuiet wait_sleep p s =
    if_cases (AnswersQuiet s) (leb p.state_info.sleep_time s.clock_count) _ _
      (λ e. resume-IsQuiet p.process_id (λ i. record i { sleep_time = 0 }) s) (λ e. IsQuiet-refl s)
wake-IsQuiet wait_int p s = wakeup_process_on_interrupt-IsQuiet p s
wake-IsQuiet wait_event p s =
    let r = is_event_completed (pos p.process_id) s in
    if_cases (AnswersQuiet s) r.0 _ _
      (λ e.
        IsQuiet-trans s r.1 (set_status p.process_id run r.1)
          (is_event_completed-IsQuiet (pos p.process_id) s)
          (set_status-IsQuiet p.process_id run r.1 refl))
      (λ e. is_event_completed-IsQuiet (pos p.process_id) s)
wake-IsQuiet wait_child p s = check_child-IsQuiet p.state_info.wait_child_proc_id p s
wake-IsQuiet wait_resource p s =
    if_cases (AnswersQuiet s) (p.state_info.wait_resource_id == resource_nil) _ _
      (λ e. set_status-IsQuiet p.process_id run s refl)
      (λ e.
        if_cases (AnswersQuiet s) (not (s.resource_list p.state_info.wait_resource_id)) _ _
          (λ k. resume-IsQuiet p.process_id (λ i. record i { wait_resource_id = resource_nil }) s)
          (λ k. IsQuiet-refl s))
wake-IsQuiet wait_kernel_service p s =
    if_cases (AnswersQuiet s) p.state_info.kernel_service_complete _ _
      (λ e. resume-IsQuiet p.process_id (λ i. record i { kernel_service_complete = false }) s)
      (λ e. IsQuiet-refl s)
wake-IsQuiet wait_io_descriptors p s =
    selected (select_check (s.can p.process_id) p.state_info.io_descriptors)
  where
    selected :
        (o : Option (List IoDescriptor))
        → AnswerIsQuiet s (
            o >>= λ result. elim result [
              | [] ↦ some (false, s)
              | d ∷ ds ↦
                  some (true, resume p.process_id (λ i. record i { io_descriptors = d ∷ ds }) s)
            ])
    selected none = tt
    selected (some []) = IsQuiet-refl s
    selected (some (d ∷ ds)) =
        resume-IsQuiet p.process_id (λ i. record i { io_descriptors = d ∷ ds }) s
