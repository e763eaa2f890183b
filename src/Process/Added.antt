-- ===== src/Process/Added.antt =====
-- The creation of a process keeps what the scheduler relies on.
use upanix_os.Base.{
  ℕ, suc, ◌+◌, ◌≤◌, ◌<◌, ◌≡◌, refl, sym, ap, ◌∙◌, ◌≢◌, ◌⊎◌, inl, inr, Bool, true, false, Option,
  none, some, List, [], ◌∷◌, ◌++◌, arith, All, All-map, All-append, Distinct, ◌==◌, ltb, length,
  length-append, if◌then◌else◌, Option-cases, option_cases, option_some, option_none, if_cases,
  ==_iff,
}
use mathlib.Core.Option
use mathlib.Core.Path.{subst}
use native.Mathlib.Decide.{dec_le}
use upanix_os.Base.Int.{ℤ, pos, negsuc}
use upanix_os.Process.State.{Group, Process, System, run, max_no_process}
use upanix_os.Process.Store.{
  lookup, modify, get_schedulable_process, update_process, add_to_process_map,
  add_to_scheduler_list, lookup-append,
}
use upanix_os.Process.Group.{new_group, on_group, add_process, put_on_fg_process_list}
use upanix_os.Process.Destroy.{add_child}
use upanix_os.Process.Create.{group_for, construct, kernel_process, create_kernel_process}
use upanix_os.Process.Answering.{Answers}
use upanix_os.Process.Shape.{Shape, shape_of, shape, NextStands, ThreadOf}
use upanix_os.Process.Sound.{IsMain}
use upanix_os.Process.Quiet.{IsQuiet, IsQuiet-refl, IsQuiet-trans, update_process-IsQuiet}
use upanix_os.Process.Ending.{quiet-KeepsSound}
use upanix_os.Process.Choose.{found}
use upanix_os.Process.Gone.{lookup_of_gone}
use upanix_os.Process.Rounds.{IsWellFormed, KeepsSound-IsWellFormed}

-- Ids from the counter on are not in use.
abbrev pub IsFresh : System → Type 0
IsFresh s = (k : ℕ) → s.next_pid ≤ k → shape k s.process_map ≡ none

-- The steps before the new process is added: they leave the others as they are.
abbrev Prepares : ℕ → System → System → Type 0
Prepares n s s' = IsQuiet s s' × (length s'.process_map ≡ length s.process_map) × (s'.next_pid ≡ n)

prepare_more : (n k : ℕ) (s t u : System) → Prepares k s t → Prepares n t u → Prepares n s u
prepare_more n k s t u (q, l, a) (q', l', a') = (IsQuiet-trans s t u q q', l' ∙ l, a')

on_group-Prepares :
    (g : ℕ) (f : Group → Group) (s : System) → Prepares s.next_pid s (on_group g f s)
unfolding on_group
on_group-Prepares g f s =
    option_cases (Prepares s.next_pid s) (s.groups g) s _ (IsQuiet-refl s, refl, refl)
      (λ a e. (((λ n. refl), refl, refl, (λ k. k), refl), refl, refl))

group_for-Prepares :
    (parent : ℤ) (is_fg : Bool) (s : System) → Prepares s.next_pid s (group_for parent is_fg s).1
unfolding group_for
group_for-Prepares parent is_fg s =
    option_cases (λ (r : ℕ × System). Prepares s.next_pid s r.1) (get_schedulable_process parent s)
      (new_group is_fg s) (λ p. (p.process_group, s))
      (((λ n. refl), refl, refl, (λ k. k), refl), refl, refl) (λ p e. (IsQuiet-refl s, refl, refl))

construct-Prepares :
    (parent : ℤ) (is_fg : Bool) (s : System)
    → Prepares (s.next_pid + 1) s (construct parent is_fg s).1
unfolding construct
construct-Prepares parent is_fg s =
    let s0 = record s { next_pid = s.next_pid + 1 } in
    let r = group_for parent is_fg s0 in
    let s2 = on_group r.0 add_process r.1 in
    let s3 = on_group r.0 (put_on_fg_process_list s.next_pid) s2 in
    let (q, l, a) = group_for-Prepares parent is_fg s0 in
    let (q', l', a') = on_group-Prepares r.0 add_process r.1 in
    let (q'', l'', a'') = on_group-Prepares r.0 (put_on_fg_process_list s.next_pid) s2 in
    let two : Prepares (s.next_pid + 1) s s2 = (IsQuiet-trans s r.1 s2 q q', l' ∙ l, a' ∙ a) in
    if_cases (Prepares (s.next_pid + 1) s) is_fg s3 s2
      (λ b. (IsQuiet-trans s s2 s3 two.0 q'', l'' ∙ two.1, a'' ∙ two.2)) (λ b. two)

length-modify :
    (n : ℕ) (f : Process → Process) (l : List Process) → length (modify n f l) ≡ length l
unfolding modify
length-modify n f [] = refl
length-modify n f (p ∷ l) = ap suc (length-modify n f l)

kernel_process-Prepares :
    (parent : ℤ) (is_fg : Bool) (s : System)
    → Prepares (s.next_pid + 1) s (kernel_process parent is_fg s).1
unfolding kernel_process
kernel_process-Prepares parent is_fg s =
    let (p, s1) = construct parent is_fg s in
    let (q, l, a) = construct-Prepares parent is_fg s in
    option_cases (Prepares (s.next_pid + 1) s) (get_schedulable_process parent s1) s1 _ (q, l, a)
      (λ pp e.
        let f = λ (q' : Process). record q' {
          child_process_ids = add_child p.process_id q'.child_process_ids;
        } in
        (
          IsQuiet-trans s s1 (update_process pp.process_id f s1) q
              (update_process-IsQuiet pp.process_id f s1 (λ q'. (refl, refl)) (λ q' v. (v, refl))),
          length-modify pp.process_id f s1.process_map ∙ l,
          a,
        ))

-- The new process, which nothing in the map refers to yet.
kernel_process_new :
    (parent : ℤ) (is_fg : Bool) (s : System)
    → let p = (kernel_process parent is_fg s).0 in
      (p.process_id ≡ s.next_pid)
      × (p.main_thread_id ≡ s.next_pid)
      × (p.threads ≡ [])
      × (p.next_thread ≡ none)
unfolding kernel_process construct
kernel_process_new parent is_fg s = (refl, refl, refl, refl)

abbrev runnable : Process → Process
runnable p = record p { status = run }

Distinct-end : (l : List ℕ) (x : ℕ) → Distinct l → All (λ k. k ≢ x) l → Distinct (l ++ x ∷ [])
Distinct-end [] x d h = (tt, tt)
Distinct-end (y ∷ l) x d h =
    (All-append (λ z. y ≢ z) l (x ∷ []) d.0 (h.0, tt), Distinct-end l x d.1 h.1)

-- The system with the process added at the end of the map and of the list.
abbrev with_process : Process → System → System
with_process p s = record s {
  process_map = s.process_map ++ runnable p ∷ [];
  scheduler_list = s.scheduler_list ++ p.process_id ∷ [];
}

add_full :
    (p : Process) (s : System)
    → max_no_process ≤ length s.process_map
    → add_to_scheduler_list p s ≡ none
unfolding add_to_scheduler_list add_to_process_map
add_full p s h =
    let full : ltb max_no_process (length s.process_map + 1) ≡ true = ground (arith, h) in
    rw full refl

add_room :
    (p : Process) (s : System)
    → length s.process_map < max_no_process
    → lookup p.process_id s.process_map ≡ none
    → add_to_scheduler_list p s ≡ some (with_process p s)
unfolding add_to_scheduler_list add_to_process_map
add_room p s h e =
    let room : ltb max_no_process (length s.process_map + 1) ≡ false = ground (arith, h) in
    rw (room, e) refl

lookup-end :
    (n : ℕ) (l : List Process) (p : Process)
    → lookup n l ≡ none
    → lookup n (l ++ p ∷ []) ≡ (if p.process_id == n then some p else none)
unfolding lookup
lookup-end n [] p e = refl
lookup-end n (q ∷ l) p e = ground (arith, e, lookup-end n l p)

module _ (p : Process) (s : System) (w : IsWellFormed s)
    (fresh : shape p.process_id s.process_map ≡ none) (own : p.main_thread_id ≡ p.process_id)
    (alone : p.threads ≡ []) (still : p.next_thread ≡ none) where
  shape_before :
      (n : ℕ) (h : Shape)
      → shape n s.process_map ≡ some h
      → shape n (s.process_map ++ runnable p ∷ []) ≡ some h
  shape_before n h e =
      let (q, eq, sh) = found n s.process_map h e in
      ap (Option.map shape_of) (lookup-append n s.process_map (runnable p ∷ []) q eq) ∙ ap some sh

  lookup_fresh : lookup p.process_id s.process_map ≡ none
  lookup_fresh = lookup_of_gone p.process_id s fresh

  shape_new : shape p.process_id (s.process_map ++ runnable p ∷ []) ≡ some (shape_of p)
  shape_new =
      ap (Option.map shape_of) (lookup-end p.process_id s.process_map (runnable p) lookup_fresh)
      ∙ if_cases (λ (o : Option Process). Option.map shape_of o ≡ some (shape_of p))
          (p.process_id == p.process_id) (some (runnable p)) none (λ b. refl)
          (λ b. absurd (ground (arith, b)))

  abbrev Later : ℕ → Shape → Type 0
  Later m h =
      All (ThreadOf (s.process_map ++ runnable p ∷ []) m) h.thread_list
      × NextStands h.next h.thread_list
      × Distinct h.thread_list

  own-Later :
      (m : ℕ) (h : Shape) (b : Bool)
      → Option.map shape_of (if b then some (runnable p) else none) ≡ some h
      → Later m h
  own-Later m h false k = absurd (ground (arith, k))
  own-Later m h true k =
      let eq : h ≡ record { main = p.main_thread_id; thread_list = []; next = none } =
        ground (arith, k, alone, still) in
      subst (Later m) (sym eq) (tt, tt, tt)

  old-Later : (m : ℕ) (h h' : Shape) → shape m s.process_map ≡ some h' → h ≡ h' → Later m h
  old-Later m h h' e eq =
      let (ts, nx, d) = w.sound m h' e in
      subst (Later m) (sym eq) (
        All-map (ThreadOf s.process_map m) (ThreadOf (s.process_map ++ runnable p ∷ []) m)
            h'.thread_list (λ t (a, q, b, c). (a, q, shape_before t q b, c)) ts,
        nx,
        d,
      )

  new-Answers :
      (b : Bool) (q : Process) → (if b then some (runnable p) else none) ≡ some q → Answers s q
  new-Answers true q e =
      let eq : runnable p ≡ q = ground (arith, e) in
      subst (Answers s) eq (λ k. absurd (ground (arith, k)))
  new-Answers false q e = absurd (ground (arith, e))

  with_process-IsWellFormed : IsWellFormed (with_process p s)
  with_process-IsWellFormed = record {
    sound = λ m h f. elim (Option-cases (shape m s.process_map)) [
      | inl e ↦ own-Later m h (p.process_id == m) (
          sym (
            ap (Option.map shape_of)
              (lookup-end m s.process_map (runnable p) (lookup_of_gone m s e)))
          ∙ f)
      | inr (h', e) ↦
          let same : some h' ≡ some h = sym (shape_before m h' e) ∙ f in
          old-Later m h h' e (ground (arith, same))
    ];
    scheduled =
        All-append (IsMain (s.process_map ++ runnable p ∷ [])) s.scheduler_list (p.process_id ∷ [])
          (All-map (IsMain s.process_map) (IsMain (s.process_map ++ runnable p ∷ []))
            s.scheduler_list (λ k (h, e, g). (h, shape_before k h e, g)) w.scheduled)
          ((shape_of p, shape_new, own), tt);
    distinct = Distinct-end s.scheduler_list p.process_id w.distinct (
        All-map (IsMain s.process_map) (λ k. k ≢ p.process_id) s.scheduler_list
          (λ k (h, e, g) same.
            let bad : none ≡ some h = sym fresh ∙ ap (λ j. shape j s.process_map) (sym same) ∙ e in
            ground (arith, bad))
          w.scheduled);
    answering = λ m q e. elim (Option-cases (lookup m s.process_map)) [
      | inl gone ↦
          new-Answers (p.process_id == m) q (sym (lookup-end m s.process_map (runnable p) gone) ∙ e)
      | inr (q', f) ↦
          let before : some q' ≡ some q =
            sym (lookup-append m s.process_map (runnable p ∷ []) q' f) ∙ e in
          let eq : q' ≡ q = ground (arith, before) in subst (Answers s) eq (w.answering m q' f)
    ];
  }

shape-end :
    (k : ℕ) (p : Process) (s : System)
    → shape k s.process_map ≡ none
    → p.process_id ≢ k
    → shape k (with_process p s).process_map ≡ none
shape-end k p s e ne =
    ap (Option.map shape_of) (lookup-end k s.process_map (runnable p) (lookup_of_gone k s e))
    ∙ if_cases (λ (o : Option Process). Option.map shape_of o ≡ none) (p.process_id == k)
        (some (runnable p)) none (λ b. absurd (ne ((==_iff p.process_id k).0 b))) (λ b. refl)

abbrev pub Created : System → ℤ × System → Type 0
Created s (result, s') =
    IsWellFormed s'
    × IsFresh s'
    × ((max_no_process ≤ length s.process_map)
          × (result ≡ negsuc 0)
          × (s'.scheduler_list ≡ s.scheduler_list)
        ⊎ (length s.process_map < max_no_process)
          × (result ≡ pos s.next_pid)
          × (s'.scheduler_list ≡ s.scheduler_list ++ s.next_pid ∷ [])
          × (length s'.process_map ≡ suc (length s.process_map)))

-- In a system that is well formed, as for the turns of the scheduler, and whose ids are below the next one, which
-- both stay so: CreateKernelProcess answers -1 and leaves the list as it was when the map is full; otherwise it
-- answers the next id, which stands at the end of the list then, and the map has one process more.
pub create_kernel_process_lem :
    (parent : ℤ) (is_fg : Bool) (s : System)
    → IsWellFormed s
    → IsFresh s
    → Created s (create_kernel_process parent is_fg s)
unfolding create_kernel_process
create_kernel_process_lem parent is_fg s w fr =
    let r = kernel_process parent is_fg s in
    let p = r.0 in
    let s1 = r.1 in
    let (q, l, a) = kernel_process-Prepares parent is_fg s in
    let (own, main, alone, still) = kernel_process_new parent is_fg s in
    let w1 = KeepsSound-IsWellFormed s s1 w (quiet-KeepsSound s s1 w.sound q) in
    let later : (k : ℕ) → s.next_pid ≤ k → shape k s1.process_map ≡ none =
      λ k le. q.0 k ∙ fr k le in
    let here : shape p.process_id s1.process_map ≡ none = later p.process_id (omega (arith, own)) in
    elim (dec_le max_no_process (length s.process_map)) [
      | yes full ↦
          option_none (Created s) (add_to_scheduler_list p s1) (negsuc 0, s1) _
            (add_full p s1 (omega (arith, l)))
            (w1, (λ k le. later k (omega (arith, a))), inl (full, refl, q.1))
      | no room ↦
          option_some (Created s) (add_to_scheduler_list p s1) (with_process p s1) (negsuc 0, s1) _
            (add_room p s1 (omega (arith, l)) (lookup_of_gone p.process_id s1 here))
            (
              with_process-IsWellFormed p s1 w1 here (main ∙ sym own) alone still,
              (λ k le.
                  shape-end k p s1 (later k (omega (arith, a)))
                    (λ e. absurd (omega (arith, a, own)))),
              inr (
                omega arith,
                ap pos own,
                ap (λ l'. l' ++ p.process_id ∷ []) q.1 ∙ ap (λ j. s.scheduler_list ++ j ∷ []) own,
                length-append s1.process_map (runnable p ∷ []) ∙ omega (arith, l),
              ),
            )
    ]
