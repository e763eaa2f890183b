-- ===== src/Process/Destroy.antt =====
-- process/SchedulableProcess.cpp and process/AutonomousProcess.cpp: the end of a process, its threads and
-- what becomes of its children, and the choice between a process and its threads.
use upanix_os.Base.{
  ℕ, zero, suc, Option, none, some, ◌>>=◌, List, [], ◌∷◌, ◌++◌, ◌==◌, length, if◌then◌else◌,
}
use upanix_os.Base.Int.{pos}
use upanix_os.Process.State.{
  Status, run, terminated, released, Process, System, ◌==ℤ◌, no_process_id,
}
use upanix_os.Process.Store.{
  lookup, get_schedulable_process, update_process, set_status, release, remove_from_process_map,
  is_ended,
}
use upanix_os.Process.Group.{remove, leave_group}

-- addChildProcessID, to a set
unfoldable pub add_child : ℕ → List ℕ → List ℕ
unfolding remove
add_child pid l = remove (λ q. q == pid) l ++ pid ∷ []

-- A child goes to the parent, if there is one.
unfoldable pub adopt : Option Process → ℕ → System → System
unfolding update_process add_child
adopt none pid s = s
adopt (some pp) pid s =
    update_process pp.process_id
      (λ q. record q { child_process_ids = add_child pid q.child_process_ids })
      (update_process pid (λ q. record q { parent_process_id = pos pp.process_id }) s)

-- A child that ended is released instead.
unfoldable pub settle_child : Status → Option Process → ℕ → System → System
unfolding release adopt
settle_child terminated parent pid s = release pid s
settle_child _ parent pid s = adopt parent pid s

unfoldable pub redirect_child : Option Process → ℕ → System → System
unfolding settle_child
redirect_child parent pid s = elim (lookup pid s.process_map) [
  | none ↦ s
  | some p ↦ settle_child p.status parent pid s
]

-- The loop over the children.
unfoldable pub redirect_children : Option Process → List ℕ → System → System
redirect_children parent [] s = s
redirect_children parent (pid ∷ pids) s =
    redirect_children parent pids (redirect_child parent pid s)

-- Destroy after DestroyThreads, of the object `p`.
unfoldable pub finish_destroy : Process → System → System
unfolding redirect_children leave_group release
finish_destroy p s =
    let parent = get_schedulable_process p.parent_process_id s in
    let redirected = redirect_children parent p.child_process_ids s in
    let left = leave_group p.process_id p.process_group redirected in
    if p.parent_process_id ==ℤ no_process_id then release p.process_id left else left

-- Destroy of a thread, which has no threads of its own.
unfoldable pub destroy_thread : Process → System → System
unfolding finish_destroy set_status
destroy_thread t s = finish_destroy t (set_status t.process_id terminated s)

-- The loop of DestroyThreads.
unfoldable pub destroy_threads : List ℕ → System → System
unfolding destroy_thread release remove_from_process_map
destroy_threads [] s = s
destroy_threads (t ∷ ts) s = elim (lookup t s.process_map) [
  | none ↦ destroy_threads ts s
  | some p ↦
      let ended = if is_ended p.status then s else destroy_thread p s in
      destroy_threads ts (remove_from_process_map t (release t ended))
]

-- clear() of the list of threads
abbrev pub clear_threads : Process → Process
clear_threads q = record q { threads = [] }

-- Destroy
unfoldable pub destroy : ℕ → System → System
unfolding finish_destroy destroy_threads set_status update_process
destroy n s = elim (lookup n s.process_map) [
  | none ↦ s
  | some p ↦
      let alone =
        update_process n clear_threads (destroy_threads p.threads (set_status n terminated s)) in
      elim (lookup n alone.process_map) [ none ↦ alone | some q ↦ finish_destroy q alone ]
]

-- addToThreadScheduler
unfoldable pub add_to_thread_scheduler : ℕ → ℕ → System → System
unfolding update_process set_status
add_to_thread_scheduler main t s =
    set_status t run (update_process main (λ p. record p { threads = p.threads ++ t ∷ [] }) s)

-- The element after `n`, where an iterator at `n` moves.
unfoldable pub after : ℕ → List ℕ → Option ℕ
after n [] = none
after n (x ∷ xs) =
    let rest = after n xs in if x == n then elim xs [ [] ↦ none | y ∷ _ ↦ some y ] else rest

abbrev pub begin : List ℕ → Option ℕ
begin [] = none
begin (x ∷ xs) = some x

-- The iterator moves on from the thread `t`.
unfoldable pub move_next : ℕ → Process → Process
unfolding after
move_next t p = record p { next_thread = after t p.threads }

unfoldable pub advance : ℕ → ℕ → System → System
unfolding move_next update_process
advance n t s = update_process n (move_next t) s

-- A thread is taken off the list of its process and deleted.
unfoldable pub drop_thread : ℕ → Process → Process
unfolding remove
drop_thread t p = record p { threads = remove (λ k. k == t) p.threads }

unfoldable pub delete_thread : ℕ → ℕ → System → System
unfolding update_process remove_from_process_map drop_thread
delete_thread n t s = remove_from_process_map t (update_process n (drop_thread t) s)

abbrev pub to_begin : Process → Process
to_begin p = record p { next_thread = begin p.threads }

-- The thread that the loop of forSchedule looks at.
unfoldable pub current_thread : Option ℕ → List ℕ → Option ℕ
current_thread it [] = none
current_thread none (t ∷ ts) = some t
current_thread (some k) (t ∷ ts) = some k

abbrev pub if_released {ℓ} : {A : Type ℓ} → Status → A → A → A
if_released released a b = a
if_released _ a b = b

-- The loop of forSchedule, with a round for each thread: a thread that was released is deleted.
unfoldable pub pick_thread : ℕ → ℕ → System → Option (ℕ × System)
unfolding advance delete_thread current_thread
pick_thread zero n s = some (n, s)
pick_thread (suc fuel) n s = lookup n s.process_map >>= λ p.
    elim (current_thread p.next_thread p.threads) [
      | none ↦ some (n, s)
      | some t ↦ lookup t s.process_map >>= λ thread.
          if_released thread.status (pick_thread fuel n (delete_thread n t (advance n t s)))
            (some (t, advance n t s))
    ]

-- forSchedule
unfoldable pub for_schedule : ℕ → System → Option (ℕ × System)
unfolding pick_thread update_process
for_schedule n s = lookup n s.process_map >>= λ p.
    if is_ended p.status then some (n, s) else elim p.next_thread [
      | none ↦ some (n, update_process n to_begin s)
      | some _ ↦ pick_thread (length p.threads) n s
    ]
