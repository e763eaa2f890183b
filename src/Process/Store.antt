-- ===== src/Process/Store.antt =====
-- process/ProcessManager.cpp: the process map, found by id, and the operations that only read or change one
-- process in it.
use upanix_os.Base.{
  ℕ, ◌+◌, ◌≡◌, refl, ◌≢◌, not, Bool, true, false, Option, none, some, ◌>>=◌, List, [], ◌∷◌, ◌++◌,
  arith, ◌==◌, ltb, length, if◌then◌else◌,
}
use mathlib.Core.Option
use upanix_os.Base.Int.{ℤ, pos, negsuc}
use upanix_os.Process.State.{
  Status, terminated, released, run, StateInfo, Process, System, ◌==ℤ◌, no_process_id,
  max_no_process,
}

unfoldable pub lookup : ℕ → List Process → Option Process
lookup n [] = none
lookup n (p ∷ l) = if p.process_id == n then some p else lookup n l

unfoldable pub modify : ℕ → (Process → Process) → List Process → List Process
modify n f [] = []
modify n f (p ∷ l) = (if p.process_id == n then f p else p) ∷ modify n f l

unfoldable pub erase : ℕ → List Process → List Process
erase n [] = []
erase n (p ∷ l) = if p.process_id == n then erase n l else p ∷ erase n l

abbrev pub Keeps : (Process → Process) → Type 0
Keeps f = (p : Process) → (f p).process_id ≡ p.process_id

pub lookup-process_id :
    (n : ℕ) (l : List Process) (p : Process) → lookup n l ≡ some p → p.process_id ≡ n
unfolding lookup
lookup-process_id n [] p h = cc
lookup-process_id n (q ∷ l) p h = ground (arith, lookup-process_id n l p)

pub lookup-modify_self :
    (n : ℕ) (f : Process → Process) (l : List Process)
    → Keeps f
    → lookup n (modify n f l) ≡ Option.map f (lookup n l)
unfolding lookup modify
lookup-modify_self n f [] k = refl
lookup-modify_self n f (q ∷ l) k = ground (arith, k q, lookup-modify_self n f l k)

pub lookup-modify_ne :
    (n m : ℕ) (f : Process → Process) (l : List Process)
    → Keeps f
    → n ≢ m
    → lookup n (modify m f l) ≡ lookup n l
unfolding lookup modify
lookup-modify_ne n m f [] k h = refl
lookup-modify_ne n m f (q ∷ l) k h = ground (arith, k q, lookup-modify_ne n m f l k h)

pub lookup-erase_ne : (n m : ℕ) (l : List Process) → n ≢ m → lookup n (erase m l) ≡ lookup n l
unfolding lookup erase
lookup-erase_ne n m [] h = refl
lookup-erase_ne n m (q ∷ l) h = ground (arith, lookup-erase_ne n m l h)

pub lookup-erase_self : (n : ℕ) (l : List Process) → lookup n (erase n l) ≡ none
unfolding lookup erase
lookup-erase_self n [] = refl
lookup-erase_self n (q ∷ l) = ground (arith, lookup-erase_self n l)

pub lookup-append :
    (n : ℕ) (l k : List Process) (p : Process) → lookup n l ≡ some p → lookup n (l ++ k) ≡ some p
unfolding lookup
lookup-append n [] k p h = cc
lookup-append n (q ∷ l) k p h = ground (arith, lookup-append n l k p)

-- GetSchedulableProcess
unfoldable pub get_schedulable_process : ℤ → System → Option Process
get_schedulable_process (pos n) s = lookup n s.process_map
get_schedulable_process (negsuc n) s = none

unfoldable pub update_process : ℕ → (Process → Process) → System → System
update_process n f s = record s { process_map = modify n f s.process_map }

-- setStatus
unfoldable pub set_status : ℕ → Status → System → System
unfolding update_process
set_status n st s = update_process n (λ p. record p { status = st }) s

-- A member of ProcessStateInfo is set.
unfoldable pub set_info : ℕ → (StateInfo → StateInfo) → System → System
unfolding update_process
set_info n f s = update_process n (λ p. record p { state_info = f p.state_info }) s

-- Release
unfoldable pub release : ℕ → System → System
unfolding set_status
release n s = set_status n released s

-- The exception of AddToProcessMap is none; inserting an id that is there changes nothing.
unfoldable pub add_to_process_map : Process → System → Option System
add_to_process_map p s =
    if ltb max_no_process (length s.process_map + 1)
    then none
    else some (elim (lookup p.process_id s.process_map) [
      | none ↦ record s { process_map = s.process_map ++ p ∷ [] }
      | some _ ↦ s
    ])

unfoldable pub remove_from_process_map : ℕ → System → System
remove_from_process_map n s = record s { process_map = erase n s.process_map }

-- process.setStatus(RUN) changes the object, which is the one in the map: ids are never used twice.
unfoldable pub add_to_scheduler_list : Process → System → Option System
unfolding add_to_process_map
add_to_scheduler_list p s = do
  s' ← add_to_process_map (record p { status = run }) s
  some (record s' { scheduler_list = s'.scheduler_list ++ p.process_id ∷ [] })

abbrev pub is_ended : Status → Bool
is_ended terminated = true
is_ended released = true
is_ended _ = false

unfoldable pub is_alive : ℤ → System → Bool
is_alive n s = elim (get_schedulable_process n s) [
  | none ↦ false
  | some p ↦ not (is_ended p.status)
]

unfoldable pub is_child_alive : ℤ → System → Bool
is_child_alive (negsuc n) s = false
is_child_alive (pos n) s =
    if not (ltb n max_no_process) then false else elim (lookup n s.process_map) [
      | none ↦ false
      | some p ↦ p.parent_process_id ==ℤ s.current_process_id
    ]

-- GetCurProcId
unfoldable pub get_cur_proc_id : System → ℤ
get_cur_proc_id s = if s.kernel_mode then no_process_id else s.current_process_id
