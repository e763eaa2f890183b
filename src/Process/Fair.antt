-- ===== src/Process/Fair.antt =====
-- StartScheduler on a system that is well formed: each round succeeds and moves the iterator to the next
-- entry, so each process in the list has its turn.
use upanix_os.Base.{
  ℕ, suc, ◌≡◌, refl, sym, ap, ◌∙◌, inl, inr, Option, none, some, ◌>>=◌, List, [], ◌∷◌, ◌++◌, arith,
  All, Distinct, ◌==◌, ==_iff, length, Option-cases, if_cases, bind_some, option_some, Has, All-Has,
}
use mathlib.Core.Path.{subst}
use mathlib.Core.List.{append_assoc}
use upanix_os.Process.State.{System}
use upanix_os.Process.Store.{lookup, remove_from_process_map, lookup-process_id}
use upanix_os.Process.Group.{remove}
use upanix_os.Process.Destroy.{after, begin, for_schedule}
use upanix_os.Process.Schedule.{do_context_switch, reap, schedule_round, position, start_scheduler}
use upanix_os.Process.Shape.{Shape, shape}
use upanix_os.Process.Sound.{IsMain}
use upanix_os.Process.Choose.{Chosen, for_schedule-Chosen, if_released_cases, found}
use upanix_os.Process.Rounds.{
  IsWellFormed, IsSlice, Switched, KeepsSound-IsWellFormed, do_context_switch-Switched,
}
use upanix_os.Process.Turn.{split_apart, remove_split, after_split, reaped-IsWellFormed}

-- After a round at an entry with `rest` behind it: the iterator stands at the first entry of `rest`, and of
-- what was added.
abbrev pub Rounded : List ℕ → Option (Option ℕ × System) → Type 0
Rounded rest none = ⊥
Rounded rest (some (it, u)) =
    IsWellFormed u
    × ((before : List ℕ) × (more : List ℕ) × (u.scheduler_list ≡ before ++ (rest ++ more))
        × (it ≡ begin (rest ++ more)))

-- The process that had its turn is deleted if it was released.
reap-Rounded :
    (here k : ℕ) (pre rest more : List ℕ) (s : System)
    → IsWellFormed s
    → s.scheduler_list ≡ pre ++ here ∷ (rest ++ more)
    → ((q : Shape) × (shape k s.process_map ≡ some q) × (q.main ≡ here))
    → Rounded rest (reap here k s >>= λ u. some (after here s.scheduler_list, u))
unfolding reap
reap-Rounded here k pre rest more s w e (q, f, g) =
    let (p, ep, sh) = found k s.process_map q f in
    let d = split_apart here pre (rest ++ more) (subst Distinct e w.distinct) in
    let it : after here s.scheduler_list ≡ begin (rest ++ more) =
      ap (after here) e ∙ after_split here pre (rest ++ more) d.0 in
    let P =
      λ (o : Option System). Rounded rest (o >>= λ u. some (after here s.scheduler_list, u)) in
    let stays : P (some s) =
      (w, (pre ++ here ∷ [], more, e ∙ sym (append_assoc pre (here ∷ []) (rest ++ more)), it)) in
    bind_some P (lookup k s.process_map) p _ ep (
      if_released_cases P p.status _ (some s)
        (if_cases (λ (u : System). P (some u)) (p.process_id == p.main_thread_id) _ s
          (λ b.
            let kh : k ≡ here =
              sym (lookup-process_id k s.process_map p ep)
              ∙ (==_iff _ _).0 b
              ∙ ap (λ (x : Shape). x.main) sh
              ∙ g in
            (
              subst
                  (λ j. IsWellFormed (record (remove_from_process_map j s) {
                    scheduler_list = remove (λ i. i == here) s.scheduler_list;
                  }))
                  (sym kh)
                  (reaped-IsWellFormed here s w
                    (q, sym (ap (λ j. shape j s.process_map) kh) ∙ f, g)),
              (
                pre,
                more,
                ap (remove (λ i. i == here)) e ∙ remove_split here pre (rest ++ more) d,
                it,
              ),
            ))
          (λ b. stays))
        stays)

-- A round succeeds.
pub schedule_round-Rounded :
    (slice : System → System) (here : ℕ) (pre rest : List ℕ) (s : System)
    → IsSlice slice
    → IsWellFormed s
    → s.scheduler_list ≡ pre ++ here ∷ rest
    → IsMain s.process_map here
    → Rounded rest (schedule_round slice here s)
unfolding schedule_round
schedule_round-Rounded slice here pre rest s c w e mn = elim (Option-cases (for_schedule here s)) [
  | inl k ↦ absurd (subst (Chosen here s) k (for_schedule-Chosen here s w.sound mn))
  | inr ((k, s1), ek) ↦
      let (ks, h) = subst (Chosen here s) ek (for_schedule-Chosen here s w.sound mn) in
      let w1 = KeepsSound-IsWellFormed s s1 w ks in
      bind_some (Rounded rest) (for_schedule here s) (k, s1) _ ek
        (elim (Option-cases (do_context_switch slice k s1)) [
          | inl j ↦
              absurd
                (subst (Switched k here s1) j (do_context_switch-Switched slice k here s1 c w1 h))
          | inr (s2, ej) ↦
              let (w2, (more, e2), h2) =
                subst (Switched k here s1) ej (do_context_switch-Switched slice k here s1 c w1 h) in
              let list : s2.scheduler_list ≡ pre ++ here ∷ (rest ++ more) =
                e2 ∙ ap (λ l. l ++ more) (ks.2 ∙ e) ∙ append_assoc pre (here ∷ rest) more in
              bind_some (Rounded rest) (do_context_switch slice k s1) s2 _ ej
                (reap-Rounded here k pre rest more s2 w2 list h2)
        ])
]

-- The turn of `target` comes after the rounds of the entries before it.
abbrev pub TurnOf : ℕ → Option (Option ℕ × System) → Type 0
TurnOf target none = ⊥
TurnOf target (some (it, u)) =
    IsWellFormed u
    × ((before : List ℕ) × (behind : List ℕ) × (u.scheduler_list ≡ before ++ target ∷ behind)
        × (it ≡ some target))

Has-middle : (x : ℕ) (pre post : List ℕ) → Has x (pre ++ x ∷ post)
Has-middle x [] post = inl refl
Has-middle x (y ∷ pre) post = inr (Has-middle x pre post)

position_split : (x : ℕ) (pre post : List ℕ) → position (some x) (pre ++ x ∷ post) ≡ some x
unfolding position
position_split x [] post = refl
position_split x (y ∷ pre) post = refl

-- After one round, with the later rounds given.
next_turn :
    (slices : List (System → System)) (u : System) (mid post : List ℕ) (target : ℕ) (it : Option ℕ)
    → ((pre' mid' post' : List ℕ) (here' : ℕ)
        → IsWellFormed u
        → u.scheduler_list ≡ pre' ++ here' ∷ (mid' ++ target ∷ post')
        → length slices ≡ suc (length mid')
        → TurnOf target (start_scheduler slices (some here') u))
    → length slices ≡ length mid
    → Rounded (mid ++ target ∷ post) (some (it, u))
    → TurnOf target (start_scheduler slices it u)
unfolding start_scheduler
next_turn [] u [] post target it rec n (w, (before, more, e, k)) = (w, (before, post ++ more, e, k))
next_turn [] u (x ∷ mid) post target it rec n r = absurd (omega (arith, n))
next_turn (sl ∷ slices) u [] post target it rec n r = absurd (omega (arith, n))
next_turn (sl ∷ slices) u (x ∷ mid) post target it rec n (w, (before, more, e, k)) =
    subst (λ i. TurnOf target (start_scheduler (sl ∷ slices) i u)) (sym k)
      (rec before mid (post ++ more) x w
        (e ∙ ap (λ l. before ++ x ∷ l) (append_assoc mid (target ∷ post) more)) n)

-- The turn of each entry comes. Let every thread of a process be in the map and belong to it, the list hold main
-- processes of the map, each once, and each process that waits on descriptors wait on ones that its table has;
-- and let the slices keep that, add to the list at its end only, and leave the process that runs in the map.
-- With one slice for the entry that the iterator stands at and one for each entry up to `target`, StartScheduler
-- fails in no round, keeps all this, and its iterator stands at `target` then.
pub start_scheduler_turn :
    (slices : List (System → System)) (s : System) (pre mid post : List ℕ) (here target : ℕ)
    → All IsSlice slices
    → IsWellFormed s
    → s.scheduler_list ≡ pre ++ here ∷ (mid ++ target ∷ post)
    → length slices ≡ suc (length mid)
    → TurnOf target (start_scheduler slices (some here) s)
unfolding start_scheduler
start_scheduler_turn [] s pre mid post here target c w e n = absurd (omega arith)
start_scheduler_turn (slice ∷ slices) s pre mid post here target c w e n =
    let mn =
      All-Has (IsMain s.process_map) here s.scheduler_list w.scheduled
        (subst (Has here) (sym e) (Has-middle here pre (mid ++ target ∷ post))) in
    let r = schedule_round-Rounded slice here pre (mid ++ target ∷ post) s c.0 w e mn in
    option_some (TurnOf target) (position (some here) s.scheduler_list) here (some (some here, s)) _
      (ap (position (some here)) e ∙ position_split here pre (mid ++ target ∷ post))
      (elim (Option-cases (schedule_round slice here s)) [
        | inl k ↦ absurd (subst (Rounded (mid ++ target ∷ post)) k r)
        | inr ((it, u), k) ↦
            bind_some (TurnOf target) (schedule_round slice here s) (it, u) _ k
              (next_turn slices u mid post target it
                (λ pre' mid' post' here' w' e' n'.
                  start_scheduler_turn slices u pre' mid' post' here' target c.1 w' e' n')
                (omega (arith, n)) (subst (Rounded (mid ++ target ∷ post)) k r))
      ])
