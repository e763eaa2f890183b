-- ===== src/Process/Rounds.antt =====
-- DoContextSwitch on a system that is well formed, with what a process may do in its slice as a contract.
use upanix_os.Base.{
  ℕ, ◌≡◌, refl, sym, ap, ◌∙◌, ◌≢◌, Bool, true, false, Option, none, some, List, [], ◌++◌, ◌||◌, not,
  arith, All, All-map, Distinct, inl, inr, Option-cases, if_cases, bind_some,
}
use mathlib.Core.Path.{subst}
use mathlib.Core.List.{append-nil}
use upanix_os.Base.Int.{pos}
use upanix_os.Process.State.{Status, wait_io_descriptors, Process, System}
use upanix_os.Process.Store.{lookup}
use upanix_os.Process.Destroy.{destroy}
use upanix_os.Process.Schedule.{wake, is_terminated, store_back, switch_to, do_context_switch}
use upanix_os.Process.Ready.{IsKnown, select_check_known}
use upanix_os.Process.Answering.{waits_io, IsAnswering}
use upanix_os.Process.Shape.{Shape, shape, AllSound}
use upanix_os.Process.Sound.{IsMain}
use upanix_os.Process.Quiet.{IsQuiet, wake-IsQuiet, AnswerIsQuiet}
use upanix_os.Process.Ending.{KeepsSound, quiet-KeepsSound, destroy_sound}
use upanix_os.Process.Choose.{found}

pub record IsWellFormed (s : System) : Type 0 where
  pub sound : AllSound s.process_map
  pub scheduled : All (IsMain s.process_map) s.scheduler_list
  pub distinct : Distinct s.scheduler_list
  pub answering : IsAnswering s

-- A later state: more processes may be scheduled, and `n` is still in the map, with its main thread.
abbrev pub Follows : ℕ → ℕ → System → System → Type 0
Follows n m s s' =
    IsWellFormed s'
    × ((more : List ℕ) × (s'.scheduler_list ≡ s.scheduler_list ++ more))
    × ((q : Shape) × (shape n s'.process_map ≡ some q) × (q.main ≡ m))

-- What a process may do while it has the processor: it keeps the system well formed, adds processes at
-- the end of the list, if any, and does not delete itself.
abbrev pub IsSlice : (System → System) → Type 0
IsSlice slice =
    (n m : ℕ) (s : System)
    → IsWellFormed s
    → s.current_process_id ≡ pos n
    → ((q : Shape) × (shape n s.process_map ≡ some q) × (q.main ≡ m))
    → Follows n m s (slice s)

pub KeepsSound-IsWellFormed : (s s' : System) → IsWellFormed s → KeepsSound s s' → IsWellFormed s'
KeepsSound-IsWellFormed s s' w (a, b, c, d, e) = record {
  sound = a;
  scheduled =
      subst (All (IsMain s'.process_map)) (sym c)
        (All-map (IsMain s.process_map) (IsMain s'.process_map) s.scheduler_list b w.scheduled);
  distinct = subst Distinct (sym c) w.distinct;
  answering = e w.answering;
}

-- The switch on the status throws no exception then.
wake-not_none :
    (st : Status) (p : Process) (s : System)
    → (waits_io st ≡ true → All (IsKnown (s.can p.process_id)) p.state_info.io_descriptors)
    → wake st p s ≢ none
unfolding wake
wake-not_none wait_io_descriptors p s a =
    let (r, e) = select_check_known (s.can p.process_id) p.state_info.io_descriptors (a refl) in
    λ k. ground (arith, e, k)
wake-not_none _ p s a = λ k. ground (arith, k)

abbrev pub Switched : ℕ → ℕ → System → Option System → Type 0
Switched n m s none = ⊥
Switched n m s (some s') = Follows n m s s'

Follows-refl :
    (n m : ℕ) (s : System)
    → IsWellFormed s
    → ((q : Shape) × (shape n s.process_map ≡ some q) × (q.main ≡ m))
    → Follows n m s s
Follows-refl n m s w h = (w, ([], sym (append-nil s.scheduler_list)), h)

-- A step that keeps what the scheduler relies on, after one that may have added processes.
Follows-keeps :
    (n m : ℕ) (s t u : System)
    → Follows n m s t
    → KeepsSound t u
    → ((q : Shape) × (shape n u.process_map ≡ some q) × (q.main ≡ m))
    → Follows n m s u
Follows-keeps n m s t u (w, (more, e), h) k h' =
    (KeepsSound-IsWellFormed t u w k, (more, k.2 ∙ e), h')

store_back-Switched : (n m : ℕ) (s t : System) → Follows n m s t → Switched n m s (store_back n t)
unfolding store_back
store_back-Switched n m s t (w, more, (q, e, g)) =
    let (p, ep, sh) = found n t.process_map q e in
    let ended = not t.context_switch || is_terminated p.status in
    bind_some (Switched n m s) (lookup n t.process_map) p _ ep (
      if_cases (λ (u : System). Switched n m s (some (record u { task_switch = true }))) ended
        (destroy n t) t
        (λ k.
          let (d, st) = destroy_sound n t w.sound in
          let (q', e', g') = st q e in
          Follows-keeps n m s t (record (destroy n t) { task_switch = true }) (w, more, (q, e, g)) d
            (q', e', g' ∙ g))
        (λ k.
          Follows-keeps n m s t (record t { task_switch = true }) (w, more, (q, e, g))
            (w.sound, (λ i h. h), refl, refl, (λ a. a)) (q, e, g)))

-- Once it was decided whether the process is loaded.
woken :
    (slice : System → System) (n m : ℕ) (s : System)
    → IsSlice slice
    → IsWellFormed s
    → ((q : Shape) × (shape n s.process_map ≡ some q) × (q.main ≡ m))
    → (r : Bool × System) → IsQuiet (record s { current_process_id = pos n }) r.1
    → Switched n m s (switch_to slice n r)
unfolding switch_to
woken slice n m s c w (q, e, g) (go, t) quiet =
    let k : KeepsSound s (record t { current_process_id = s.current_process_id }) =
      let j = quiet-KeepsSound (record s { current_process_id = pos n }) t w.sound quiet in
      (j.0, j.1, j.2, refl, j.4) in
    let wt =
      KeepsSound-IsWellFormed s (record t { current_process_id = s.current_process_id }) w k in
    let here = quiet.0 n ∙ e in
    let t1 = record t { context_switch = false; kernel_mode = false } in
    let w1 : IsWellFormed t1 = record {
      sound = wt.sound;
      scheduled = wt.scheduled;
      distinct = wt.distinct;
      answering = wt.answering;
    } in
    let (w2, (more, e2), h2) = c n m t1 w1 quiet.2 (q, here, g) in
    let t2 = slice t1 in
    let t3 = record t2 { kernel_mode = true } in
    let w3 : IsWellFormed t3 = record {
      sound = w2.sound;
      scheduled = w2.scheduled;
      distinct = w2.distinct;
      answering = w2.answering;
    } in
    let wt' : IsWellFormed t = record {
      sound = wt.sound;
      scheduled = wt.scheduled;
      distinct = wt.distinct;
      answering = wt.answering;
    } in
    if_cases (Switched n m s) go (store_back n t3) (some t)
      (λ b. store_back-Switched n m s t3 (w3, (more, e2 ∙ ap (λ l. l ++ more) quiet.1), h2))
      (λ b. (wt', ([], quiet.1 ∙ sym (append-nil s.scheduler_list)), (q, here, g)))

-- A process that is switched to gives the processor back to a system that is well formed.
pub do_context_switch-Switched :
    (slice : System → System) (n m : ℕ) (s : System)
    → IsSlice slice
    → IsWellFormed s
    → ((q : Shape) × (shape n s.process_map ≡ some q) × (q.main ≡ m))
    → Switched n m s (do_context_switch slice n s)
unfolding do_context_switch
do_context_switch-Switched slice n m s c w (q, e, g) =
    let (p, ep, sh) = found n s.process_map q e in
    let s0 = record s { current_process_id = pos n } in
    bind_some (Switched n m s) (lookup n s.process_map) p _ ep
      (elim (Option-cases (wake p.status p s0)) [
        | inl k ↦ absurd (wake-not_none p.status p s0 (w.answering n p ep) k)
        | inr (r, k) ↦
            let quiet = subst (AnswerIsQuiet s0) k (wake-IsQuiet p.status p s0) in
            bind_some (Switched n m s) (wake p.status p s0) r (switch_to slice n) k
              (woken slice n m s c w (q, e, g) r quiet)
      ])
