-- ===== src/Process/Ended.antt =====
-- process/SchedulableProcess.cpp: a process that has ended stays so while others are destroyed.
use upanix_os.Base.{
  ℕ, ◌≡◌, refl, sym, ap, ◌∙◌, ◌≢◌, true, Option, none, some, List, [], ◌∷◌, All, if◌then◌else◌,
  option_cases, option_some, if_cases,
}
use mathlib.Core.Option
use native.Mathlib.Decide.{ℕ_discrete}
use upanix_os.Base.Int.{pos}
use upanix_os.Process.State.{Status, terminated, released, Process, System, ◌==ℤ◌, no_process_id}
use upanix_os.Process.Store.{
  lookup, modify, update_process, set_status, release, remove_from_process_map, is_ended,
  get_schedulable_process, lookup-modify_self, lookup-modify_ne, lookup-erase_ne,
}
use upanix_os.Process.Group.{leave_group}
use upanix_os.Process.Destroy.{
  add_child, adopt, settle_child, redirect_child, redirect_children, finish_destroy, destroy_thread,
  destroy_threads, clear_threads, destroy,
}

-- The process is in the map and has ended.
abbrev pub HasEnded : ℕ → System → Type 0
HasEnded n s = (p : Process) × (lookup n s.process_map ≡ some p) × (is_ended p.status ≡ true)

abbrev KeepsEnd : (Process → Process) → Type 0
KeepsEnd f =
    (p : Process)
    → ((f p).process_id ≡ p.process_id) × (is_ended p.status ≡ true → is_ended (f p).status ≡ true)

HasEnded-update :
    (n k : ℕ) (f : Process → Process) (s : System)
    → KeepsEnd f
    → HasEnded n s
    → HasEnded n (update_process k f s)
unfolding update_process
HasEnded-update n k f s h (p, e, d) = elim (ℕ_discrete n k) [
  | yes same ↦ (
    f p,
    ap (λ j. lookup n (modify j f s.process_map)) (sym same)
        ∙ lookup-modify_self n f s.process_map (λ q. (h q).0)
        ∙ ap (Option.map f) e,
    (h p).1 d,
  )
  | no ne ↦ (p, lookup-modify_ne n k f s.process_map (λ q. (h q).0) ne ∙ e, d)
]

HasEnded-set_status :
    (n k : ℕ) (st : Status) (s : System)
    → is_ended st ≡ true
    → HasEnded n s
    → HasEnded n (set_status k st s)
unfolding set_status
HasEnded-set_status n k st s d =
    HasEnded-update n k (λ p. record p { status = st }) s (λ p. (refl, λ h. d))

HasEnded-release : (n k : ℕ) (s : System) → HasEnded n s → HasEnded n (release k s)
unfolding release is_ended
HasEnded-release n k s = HasEnded-set_status n k released s refl

HasEnded-adopt :
    (n pid : ℕ) (parent : Option Process) (s : System)
    → HasEnded n s
    → HasEnded n (adopt parent pid s)
unfolding adopt
HasEnded-adopt n pid none s h = h
HasEnded-adopt n pid (some pp) s h =
    let f = λ (q : Process). record q { parent_process_id = pos pp.process_id } in
    let g = λ (q : Process). record q { child_process_ids = add_child pid q.child_process_ids } in
    HasEnded-update n pp.process_id g (update_process pid f s) (λ q. (refl, λ d. d))
      (HasEnded-update n pid f s (λ q. (refl, λ d. d)) h)

HasEnded-settle_child :
    (n pid : ℕ) (st : Status) (parent : Option Process) (s : System)
    → HasEnded n s
    → HasEnded n (settle_child st parent pid s)
unfolding settle_child
HasEnded-settle_child n pid terminated parent s h = HasEnded-release n pid s h
HasEnded-settle_child n pid _ parent s h = HasEnded-adopt n pid parent s h

HasEnded-redirect_children :
    (n : ℕ) (parent : Option Process) (pids : List ℕ) (s : System)
    → HasEnded n s
    → HasEnded n (redirect_children parent pids s)
unfolding redirect_children redirect_child
HasEnded-redirect_children n parent [] s h = h
HasEnded-redirect_children n parent (pid ∷ pids) s h =
    HasEnded-redirect_children n parent pids (redirect_child parent pid s) (
      option_cases (HasEnded n) (lookup pid s.process_map) s _ h
        (λ p e. HasEnded-settle_child n pid p.status parent s h))

HasEnded-finish_destroy :
    (n : ℕ) (p : Process) (s : System) → HasEnded n s → HasEnded n (finish_destroy p s)
unfolding finish_destroy leave_group
HasEnded-finish_destroy n p s h =
    let parent = get_schedulable_process p.parent_process_id s in
    let redirected = redirect_children parent p.child_process_ids s in
    let left = leave_group p.process_id p.process_group redirected in
    let k = HasEnded-redirect_children n parent p.child_process_ids s h in
    let l : HasEnded n left =
      option_cases (HasEnded n) (redirected.groups p.process_group) redirected _ k (λ a e. k) in
    if_cases (HasEnded n) (p.parent_process_id ==ℤ no_process_id) (release p.process_id left) left
      (λ e. HasEnded-release n p.process_id left l) (λ e. l)

HasEnded-destroy_thread :
    (n : ℕ) (p : Process) (s : System) → HasEnded n s → HasEnded n (destroy_thread p s)
unfolding destroy_thread is_ended
HasEnded-destroy_thread n p s h =
    HasEnded-finish_destroy n p (set_status p.process_id terminated s)
      (HasEnded-set_status n p.process_id terminated s refl h)

HasEnded-destroy_threads :
    (n : ℕ) (ts : List ℕ) (s : System)
    → All (λ t. t ≢ n) ts
    → HasEnded n s
    → HasEnded n (destroy_threads ts s)
unfolding destroy_threads remove_from_process_map
HasEnded-destroy_threads n [] s apart h = h
HasEnded-destroy_threads n (t ∷ ts) s apart h =
    option_cases (HasEnded n) (lookup t s.process_map) (destroy_threads ts s) _
      (HasEnded-destroy_threads n ts s apart.1 h)
      λ p e.
        let ended = if is_ended p.status then s else destroy_thread p s in
        let k : HasEnded n ended =
          if_cases (HasEnded n) (is_ended p.status) s (destroy_thread p s) (λ b. h)
            (λ b. HasEnded-destroy_thread n p s h) in
        let (q, f, d) = HasEnded-release n t ended k in
        let v = remove_from_process_map t (release t ended) in
        HasEnded-destroy_threads n ts v apart.1
          (q, lookup-erase_ne n t (release t ended).process_map (λ x. apart.0 (sym x)) ∙ f, d)

begun :
    (n : ℕ) (p : Process) (s : System)
    → lookup n s.process_map ≡ some p
    → HasEnded n (set_status n terminated s)
unfolding set_status update_process is_ended
begun n p s e = (
  record p { status = terminated },
  lookup-modify_self n (λ q. record q { status = terminated }) s.process_map (λ q. refl)
      ∙ ap (Option.map (λ (q : Process). record q { status = terminated })) e,
  refl,
)

-- A process that is destroyed has ended.
pub destroy-HasEnded :
    (n : ℕ) (p : Process) (s : System)
    → lookup n s.process_map ≡ some p
    → All (λ t. t ≢ n) p.threads
    → HasEnded n (destroy n s)
unfolding destroy
destroy-HasEnded n p s e apart =
    let s1 = set_status n terminated s in
    let h1 : HasEnded n s1 = begun n p s e in
    let h2 = HasEnded-destroy_threads n p.threads s1 apart h1 in
    let s2 = destroy_threads p.threads s1 in
    let (q, f, d) = HasEnded-update n n clear_threads s2 (λ x. (refl, λ y. y)) h2 in
    let alone = update_process n clear_threads s2 in
    option_some (HasEnded n) (lookup n s.process_map) p s _ e (
      option_some (HasEnded n) (lookup n alone.process_map) q alone (λ x. finish_destroy x alone) f
        (HasEnded-finish_destroy n q alone (q, f, d)))
