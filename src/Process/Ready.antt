-- ===== src/Process/Ready.antt =====
-- When a process that waits may run, as a predicate apart from the switch of DoContextSwitch.
use upanix_os.Base.{
  ◌≤◌, ◌<◌, ◌≡◌, refl, ◌≢◌, ◌⊎◌, inl, inr, Bool, true, false, Option, none, some, List, [], ◌∷◌,
  arith, All, Option-cases, if◌then◌else◌,
}
use upanix_os.Base.Int.{ℤ, pos, negsuc}
use upanix_os.Process.State.{
  Status, new, run, wait_sleep, wait_int, wait_event, wait_child, wait_resource,
  wait_kernel_service, wait_io_descriptors, terminated, released, IoDescriptor, Process, System,
  ◌==ℤ◌, resource_nil, no_irq,
}
use upanix_os.Process.Store.{lookup}
use upanix_os.Process.Schedule.{select_check, check_child, wake, is_terminated}

-- One of the descriptors can be read or written.
abbrev pub AnyCan : (IoDescriptor → Option Bool) → List IoDescriptor → Type 0
AnyCan can [] = ⊥
AnyCan can (d ∷ ds) = (can d ≡ some true) ⊎ AnyCan can ds

abbrev pub IsKnown : (IoDescriptor → Option Bool) → IoDescriptor → Type 0
IsKnown can d = (b : Bool) × (can d ≡ some b)

-- The child that a process waits for is gone, has another parent, or has ended.
abbrev pub ChildEnded : ℤ → System → Type 0
ChildEnded (negsuc n) s = Unit
ChildEnded (pos c) s =
    (child : Process)
    → lookup c s.process_map ≡ some child
    → (child.parent_process_id ==ℤ s.current_process_id) ≡ true
    → is_terminated child.status ≡ true

abbrev pub IsReady : Status → Process → System → Type 0
IsReady new p s = ⊥
IsReady run p s = Unit
IsReady wait_sleep p s = p.state_info.sleep_time ≤ s.clock_count
IsReady wait_int p s = (p.state_info.irq ≡ no_irq) ⊎ (0 < s.pending p.state_info.irq)
IsReady wait_event p s = p.state_info.event_completed ≡ true
IsReady wait_child p s = ChildEnded p.state_info.wait_child_proc_id s
IsReady wait_resource p s =
    (p.state_info.wait_resource_id ≡ resource_nil)
    ⊎ (s.resource_list p.state_info.wait_resource_id ≡ false)
IsReady wait_kernel_service p s = p.state_info.kernel_service_complete ≡ true
IsReady wait_io_descriptors p s =
    All (IsKnown (s.can p.process_id)) p.state_info.io_descriptors
    × AnyCan (s.can p.process_id) p.state_info.io_descriptors
IsReady terminated p s = ⊥
IsReady released p s = ⊥

-- selectCheck answers the descriptors that can be used, if it knows all of them.
pub select_check_known :
    (can : IoDescriptor → Option Bool) (l : List IoDescriptor)
    → All (IsKnown can) l
    → (r : List IoDescriptor) × (select_check can l ≡ some r)
unfolding select_check
select_check_known can [] h = ([], refl)
select_check_known can (d ∷ ds) h =
    let (r, e) = select_check_known can ds h.1 in ((if h.0.0 then d ∷ r else r), rw (h.0.1, e) refl)

pub select_check_any :
    (can : IoDescriptor → Option Bool) (l r : List IoDescriptor)
    → AnyCan can l
    → select_check can l ≡ some r
    → r ≢ []
unfolding select_check
select_check_any can [] r x h = elim x [ ]
select_check_any can (d ∷ ds) r (inl e) h = ground arith
select_check_any can (d ∷ ds) r (inr m) h = elim (Option-cases (select_check can ds)) [
  | inl e ↦ ground arith
  | inr (r', e) ↦ let ne = select_check_any can ds r' m e in ground arith
]

pub select_check-IsKnown :
    (can : IoDescriptor → Option Bool) (ys r : List IoDescriptor)
    → select_check can ys ≡ some r
    → All (IsKnown can) ys
unfolding select_check
select_check-IsKnown can [] r k = tt
select_check-IsKnown can (y ∷ ys) r k = elim (Option-cases (can y)) [
  | inl e ↦ absurd (ground arith)
  | inr (b, e) ↦ elim (Option-cases (select_check can ys)) [
    | inl f ↦ absurd (ground arith)
    | inr (r', f) ↦ ((b, e), select_check-IsKnown can ys r' f)
  ]
]

pub select_check-cons :
    (can : IoDescriptor → Option Bool) (l : List IoDescriptor) (d : IoDescriptor)
    (r : List IoDescriptor)
    → select_check can l ≡ some (d ∷ r)
    → All (IsKnown can) l × AnyCan can l
unfolding select_check
select_check-cons can [] d r h = absurd (ground arith)
select_check-cons can (x ∷ xs) d r h = elim (Option-cases (can x)) [
  | inl e ↦ absurd (ground arith)
  | inr (true, e) ↦ elim (Option-cases (select_check can xs)) [
    | inl k ↦ absurd (ground arith)
    | inr (r', k) ↦ (((true, e), select_check-IsKnown can xs r' k), inl e)
  ]
  | inr (false, e) ↦ elim (Option-cases (select_check can xs)) [
    | inl k ↦ absurd (ground arith)
    | inr (r', k) ↦
        let m : select_check can xs ≡ some (d ∷ r) = ground arith in
        (((false, e), (select_check-cons can xs d r m).0), inr (select_check-cons can xs d r m).1)
  ]
]

pub check_child-ChildEnded :
    (c : ℤ) (p : Process) (s : System) → ChildEnded c s → (check_child c p s).0 ≡ true
unfolding check_child
check_child-ChildEnded (negsuc _) p s h = refl
check_child-ChildEnded (pos c) p s h = elim (Option-cases (lookup c s.process_map)) [
  | inl e ↦ ground arith
  | inr (child, e) ↦ let k = h child e in ground arith
]

pub ChildEnded-of_check :
    (c : ℤ) (p : Process) (s : System) → (check_child c p s).0 ≡ true → ChildEnded c s
unfolding check_child
ChildEnded-of_check (negsuc _) p s h = tt
ChildEnded-of_check (pos c) p s h = λ child e k. ground arith

abbrev pub loads : Option (Bool × System) → Bool
loads none = false
loads (some r) = r.0

-- A process that is ready is loaded.
pub wake-IsReady :
    (st : Status) (p : Process) (s : System)
    → lookup p.process_id s.process_map ≡ some p
    → IsReady st p s
    → loads (wake st p s) ≡ true
unfolding wake
wake-IsReady new p s e h = elim h [ ]
wake-IsReady terminated p s e h = elim h [ ]
wake-IsReady released p s e h = elim h [ ]
wake-IsReady run p s e h = refl
wake-IsReady wait_sleep p s e h = ground arith
wake-IsReady wait_int p s e h = ground arith
wake-IsReady wait_event p s e h = ground (arith, e)
wake-IsReady wait_child p s e h = check_child-ChildEnded p.state_info.wait_child_proc_id p s h
wake-IsReady wait_resource p s e h = ground arith
wake-IsReady wait_kernel_service p s e h = rw h refl
wake-IsReady wait_io_descriptors p s e h =
    let (r, k) = select_check_known (s.can p.process_id) p.state_info.io_descriptors h.0 in
    let ne = select_check_any (s.can p.process_id) p.state_info.io_descriptors r h.1 k in
    ground arith

-- Only a process that is ready is loaded.
pub IsReady-of_loads :
    (st : Status) (p : Process) (s : System)
    → lookup p.process_id s.process_map ≡ some p
    → loads (wake st p s) ≡ true
    → IsReady st p s
unfolding wake
IsReady-of_loads new p s e h = absurd (ground arith)
IsReady-of_loads terminated p s e h = absurd (ground arith)
IsReady-of_loads released p s e h = absurd (ground arith)
IsReady-of_loads run p s e h = tt
IsReady-of_loads wait_sleep p s e h = ground arith
IsReady-of_loads wait_int p s e h = ground arith
IsReady-of_loads wait_event p s e h = ground (arith, e)
IsReady-of_loads wait_child p s e h = ChildEnded-of_check p.state_info.wait_child_proc_id p s h
IsReady-of_loads wait_resource p s e h = ground arith
IsReady-of_loads wait_kernel_service p s e h = ground arith
IsReady-of_loads wait_io_descriptors p s e h =
    elim (Option-cases (select_check (s.can p.process_id) p.state_info.io_descriptors)) [
      | inl k ↦ absurd (ground arith)
      | inr ([], k) ↦ absurd (ground arith)
      | inr (d ∷ r, k) ↦ select_check-cons (s.can p.process_id) p.state_info.io_descriptors d r k
    ]
