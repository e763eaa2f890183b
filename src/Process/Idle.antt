-- ===== src/Process/Idle.antt =====
-- What the switch of DoContextSwitch does to a process that is not ready.
use upanix_os.Base.{
  ◌≡◌, refl, sym, ap, ◌∙◌, inl, inr, Bool, false, Option, none, some, [], ◌∷◌, arith, All,
  Option-cases, Bool-cases, if_cases, option_cases, leb, leb→le, ltb, ltb→lt, ◌==◌, ==_iff, not,
  if◌then◌else◌,
}
use upanix_os.Base.Int.{ℤ, pos, negsuc}
use upanix_os.Process.State.{
  Status, new, run, wait_sleep, wait_int, wait_event, wait_child, wait_resource,
  wait_kernel_service, wait_io_descriptors, terminated, released, Process, System, ◌==ℤ◌,
  resource_nil, no_irq,
}
use upanix_os.Process.Store.{lookup, release, get_schedulable_process}
use upanix_os.Process.Wait.{consume, is_event_completed, get_process_state_info}
use upanix_os.Process.Schedule.{
  select_check, check_child, wake, is_terminated, wakeup_process_on_interrupt,
}
use upanix_os.Process.Ready.{
  IsKnown, IsReady, ChildEnded-of_check, select_check_known, select_check-IsKnown,
  select_check-cons,
}

-- The system stays as it was. But a process that has ended is released when the kernel is its parent, and the
-- switch fails when a process waits on a descriptor that is unknown.
abbrev pub Idle : {A : Type 0} → (System → A) → Status → Process → System → Option A → Type 0
Idle of terminated p s o =
    o
    ≡ some (
        of (
          if p.parent_process_id ==ℤ s.upanix_kernel_process_id then release p.process_id s else s))
Idle of wait_io_descriptors p s o =
    (All (IsKnown (s.can p.process_id)) p.state_info.io_descriptors → o ≡ some (of s))
    × (¬ All (IsKnown (s.can p.process_id)) p.state_info.io_descriptors → o ≡ none)
Idle of _ p s o = o ≡ some (of s)

abbrev pub unloaded : System → Bool × System
unloaded s = (false, s)

check_child_waits :
    (c : ℤ) (p : Process) (s : System)
    → (check_child c p s).0 ≡ false
    → check_child c p s ≡ (false, s)
unfolding check_child
check_child_waits (negsuc _) p s h = absurd (ground (arith, h))
check_child_waits (pos c) p s h =
    let P = λ (r : Bool × System). r.0 ≡ false → r ≡ (false, s) in
    option_cases P (lookup c s.process_map) _ _ (λ k. absurd (ground (arith, k)))
      (λ child e.
        if_cases P (not (child.parent_process_id ==ℤ s.current_process_id)) _ _
          (λ t k. absurd (ground (arith, k)))
          (λ f.
            if_cases P (is_terminated child.status) _ _ (λ t k. absurd (ground (arith, k)))
              (λ g k. refl)))
      h

wakeup_waits :
    (p : Process) (s : System)
    → (p.state_info.irq == no_irq) ≡ false
    → ltb 0 (s.pending p.state_info.irq) ≡ false
    → wakeup_process_on_interrupt p s ≡ (false, s)
unfolding wakeup_process_on_interrupt consume
wakeup_waits p s a b = rw (a, b) refl

event_waits :
    (p : Process) (s : System)
    → lookup p.process_id s.process_map ≡ some p
    → p.state_info.event_completed ≡ false
    → is_event_completed (pos p.process_id) s ≡ (false, s)
unfolding is_event_completed get_process_state_info get_schedulable_process
event_waits p s e f = ground (arith, e, f)

pub wake-Idle :
    (st : Status) (p : Process) (s : System)
    → lookup p.process_id s.process_map ≡ some p
    → ¬ IsReady st p s
    → Idle unloaded st p s (wake st p s)
unfolding wake
wake-Idle new p s e h = refl
wake-Idle run p s e h = absurd (h tt)
wake-Idle released p s e h = refl
wake-Idle terminated p s e h = refl
wake-Idle wait_sleep p s e h =
    if_cases (λ r. some r ≡ some (false, s)) (leb p.state_info.sleep_time s.clock_count) _ _
      (λ t. absurd (h (leb→le _ _ t))) (λ f. refl)
wake-Idle wait_int p s e h = elim (Bool-cases (p.state_info.irq == no_irq)) [
  | inl t ↦ absurd (h (inl ((==_iff _ _).0 t)))
  | inr f ↦ elim (Bool-cases (ltb 0 (s.pending p.state_info.irq))) [
    | inl t ↦ absurd (h (inr (ltb→lt _ _ t)))
    | inr g ↦ ap some (wakeup_waits p s f g)
  ]
]
wake-Idle wait_event p s e h = elim (Bool-cases p.state_info.event_completed) [
  | inl t ↦ absurd (h t)
  | inr f ↦ rw (event_waits p s e f) refl
]
wake-Idle wait_child p s e h =
    elim (Bool-cases (check_child p.state_info.wait_child_proc_id p s).0) [
      | inl t ↦ absurd (h (ChildEnded-of_check p.state_info.wait_child_proc_id p s t))
      | inr f ↦ ap some (check_child_waits p.state_info.wait_child_proc_id p s f)
    ]
wake-Idle wait_resource p s e h =
    if_cases (λ r. some r ≡ some (false, s)) (p.state_info.wait_resource_id == resource_nil) _ _
      (λ t. absurd (h (inl ((==_iff _ _).0 t))))
      (λ f. elim (Bool-cases (s.resource_list p.state_info.wait_resource_id)) [
        | inl t ↦ rw t refl
        | inr g ↦ absurd (h (inr g))
      ])
wake-Idle wait_kernel_service p s e h = elim (Bool-cases p.state_info.kernel_service_complete) [
  | inl t ↦ absurd (h t)
  | inr f ↦ rw f refl
]
wake-Idle wait_io_descriptors p s e h =
    let can = s.can p.process_id in
    let l = p.state_info.io_descriptors in
    (
      λ known. elim (Option-cases (select_check can l)) [
        | inl k ↦
            let (r, k') = select_check_known can l known in absurd (ground (arith, sym k ∙ k'))
        | inr ([], k) ↦ rw k refl
        | inr (d ∷ r, k) ↦ absurd (h (select_check-cons can l d r k))
      ],
      λ unknown. elim (Option-cases (select_check can l)) [
        | inl k ↦ rw k refl
        | inr (r, k) ↦ absurd (unknown (select_check-IsKnown can l r k))
      ],
    )
