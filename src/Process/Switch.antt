-- ===== src/Process/Switch.antt =====
-- DoContextSwitch by the predicate that says when a process may run.
use upanix_os.Base.{
  ℕ, ◌≡◌, refl, sym, ap, ◌∙◌, inl, inr, Bool, true, false, Option, some, ◌>>=◌, arith, Option-cases,
  bind_some,
}
use mathlib.Core.Path.{subst}
use upanix_os.Base.Int.{pos}
use upanix_os.Process.State.{
  Status, new, run, wait_sleep, wait_int, wait_event, wait_child, wait_resource,
  wait_kernel_service, wait_io_descriptors, terminated, released, Process, System,
}
use upanix_os.Process.Idle.{Idle, unloaded, wake-Idle}
use upanix_os.Process.Store.{lookup, lookup-process_id}
use upanix_os.Process.Schedule.{wake, store_back, switch_to, do_context_switch}
use upanix_os.Process.Quiet.{IsQuiet, AnswerIsQuiet, wake-IsQuiet}
use upanix_os.Process.Ready.{IsReady, loads, wake-IsReady}

-- The system with `n` as the current process, which the switch starts from.
abbrev pub at_turn : ℕ → System → System
at_turn n s = record s { current_process_id = pos n }

-- The process is loaded: its slice starts from a system with the flags reset, in user mode, with the
-- threads of all processes, the list of the scheduler and the resources as they were.
abbrev pub Runs : ℕ → System → Type 0
Runs n s =
    (t : System) × (t.context_switch ≡ false)
    × (t.kernel_mode ≡ false)
    × IsQuiet (at_turn n s) t
    × ((slice : System → System)
        → do_context_switch slice n s ≡ store_back n (record (slice t) { kernel_mode = true }))

-- It is not, and the system is as it was at its turn, whatever the process would do.
abbrev pub Waits : ℕ → System → Type 0
Waits n s = (slice : System → System) → do_context_switch slice n s ≡ some (at_turn n s)

abbrev pub itself : System → System
itself s = s

abbrev awake : System → System
awake s = record s { context_switch = false; kernel_mode = false }

switch_to_runs :
    (slice : System → System) (n : ℕ) (r : Bool × System)
    → r.0 ≡ true
    → switch_to slice n r ≡ store_back n (record (slice (awake r.1)) { kernel_mode = true })
unfolding switch_to
switch_to_runs slice n (true, s) e = refl
switch_to_runs slice n (false, s) e = absurd (ground (arith, e))

switch_to-Idle :
    (st : Status) (slice : System → System) (n : ℕ) (p : Process) (s : System)
    (o : Option (Bool × System))
    → Idle unloaded st p s o
    → Idle itself st p s (o >>= switch_to slice n)
unfolding switch_to
switch_to-Idle new slice n p s o e = ap (λ x. x >>= switch_to slice n) e
switch_to-Idle run slice n p s o e = ap (λ x. x >>= switch_to slice n) e
switch_to-Idle wait_sleep slice n p s o e = ap (λ x. x >>= switch_to slice n) e
switch_to-Idle wait_int slice n p s o e = ap (λ x. x >>= switch_to slice n) e
switch_to-Idle wait_event slice n p s o e = ap (λ x. x >>= switch_to slice n) e
switch_to-Idle wait_child slice n p s o e = ap (λ x. x >>= switch_to slice n) e
switch_to-Idle wait_resource slice n p s o e = ap (λ x. x >>= switch_to slice n) e
switch_to-Idle wait_kernel_service slice n p s o e = ap (λ x. x >>= switch_to slice n) e
switch_to-Idle terminated slice n p s o e = ap (λ x. x >>= switch_to slice n) e
switch_to-Idle released slice n p s o e = ap (λ x. x >>= switch_to slice n) e
switch_to-Idle wait_io_descriptors slice n p s o (a, b) =
    ((λ k. ap (λ x. x >>= switch_to slice n) (a k)), λ k. ap (λ x. x >>= switch_to slice n) (b k))

-- At its turn a process that is in the map gets the processor when what it waits for has come. When it has not,
-- nothing of it is run and the system is left as it was at its turn, but for a process that has ended, which is
-- released when the kernel is its parent, and one that waits on a descriptor which its table does not have,
-- where the switch fails.
pub do_context_switch-IsReady :
    (n : ℕ) (p : Process) (s : System)
    → lookup n s.process_map ≡ some p
    → (IsReady p.status p (at_turn n s) → Runs n s)
      × (¬ IsReady p.status p (at_turn n s)
          → (slice : System → System)
          → Idle itself p.status p (at_turn n s) (do_context_switch slice n s))
unfolding do_context_switch
do_context_switch-IsReady n p s e = (runs, waits)
  where
    own : lookup p.process_id s.process_map ≡ some p
    own = ap (λ j. lookup j s.process_map) (lookup-process_id n s.process_map p e) ∙ e

    runs : IsReady p.status p (at_turn n s) → Runs n s
    runs h = elim (Option-cases (wake p.status p (at_turn n s))) [
      | inl k ↦ absurd (ground (arith, k, wake-IsReady p.status p (at_turn n s) own h))
      | inr (r, k) ↦
          let go : r.0 ≡ true = sym (ap loads k) ∙ wake-IsReady p.status p (at_turn n s) own h in
          (
            awake r.1,
            refl,
            refl,
            subst (AnswerIsQuiet (at_turn n s)) k (wake-IsQuiet p.status p (at_turn n s)),
            λ slice.
                bind_some
                  (λ o. o ≡ store_back n (record (slice (awake r.1)) { kernel_mode = true }))
                  (lookup n s.process_map) p _ e
                  (bind_some
                    (λ o. o ≡ store_back n (record (slice (awake r.1)) { kernel_mode = true }))
                    (wake p.status p (at_turn n s)) r (switch_to slice n) k
                    (switch_to_runs slice n r go)),
          )
    ]

    waits :
        ¬ IsReady p.status p (at_turn n s)
        → (slice : System → System)
        → Idle itself p.status p (at_turn n s) (do_context_switch slice n s)
    waits h slice =
        bind_some (Idle itself p.status p (at_turn n s)) (lookup n s.process_map) p _ e (
          switch_to-Idle p.status slice n p (at_turn n s) (wake p.status p (at_turn n s))
            (wake-Idle p.status p (at_turn n s) own h))
