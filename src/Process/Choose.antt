-- ===== src/Process/Choose.antt =====
-- process/AutonomousProcess.cpp: forSchedule finds the process or one of its threads, and keeps what the
-- scheduler relies on.
use upanix_os.Base.{
  ℕ, zero, suc, ◌≡◌, refl, sym, ap, ◌∙◌, ◌≢◌, inl, inr, Option, none, some, List, [], ◌∷◌, arith,
  All, All-Has, Has, ◌==◌, Option-cases, option_cases, if_cases, bind_some, length,
}
use mathlib.Core.Path.{subst}
use native.Mathlib.Decide.{ℕ_discrete}
use upanix_os.Process.State.{Status, released, Process, System}
use upanix_os.Process.Store.{lookup, modify, update_process, remove_from_process_map, is_ended}
use upanix_os.Process.Destroy.{
  after, begin, move_next, advance, drop_thread, delete_thread, to_begin, current_thread,
  if_released, pick_thread, for_schedule,
}
use upanix_os.Process.Group.{remove}
use upanix_os.Process.Answering.{IsAnswering-update, IsAnswering-erase}
use upanix_os.Process.Shape.{Shape, shape_of, shape, NextStands, ThreadOf, AllSound, IsSound-erase}
use upanix_os.Process.Quiet.{IsQuiet-refl}
use upanix_os.Process.Sound.{IsMain, erase-KeepsMains}
use upanix_os.Process.Reshape.{Acts, modify-IsMain, modify-ThreadOf, modify-AllSound, shape-modify}
use upanix_os.Process.Ending.{ThreadOf-Leaving, KeepsSound, quiet-KeepsSound, KeepsSound-trans}
use upanix_os.Process.Threads.{
  Elsewhere, after-Elsewhere, current_thread-Has, remove-Has, remove-All, remove-Distinct,
  remove_apart, IsSound-erase_apart,
}

abbrev moved : ℕ → Shape → Shape
moved t h = record h { next = after t h.thread_list }

move_next-Acts : (t : ℕ) → Acts (move_next t) (moved t)
unfolding move_next
move_next-Acts t p = (refl, refl, refl)

abbrev dropped : ℕ → Shape → Shape
dropped t h = record h { thread_list = remove (λ k. k == t) h.thread_list }

drop_thread-Acts : (t : ℕ) → Acts (drop_thread t) (dropped t)
unfolding drop_thread
drop_thread-Acts t p = (refl, refl, refl)

module _ (n : ℕ) (s : System) (so : AllSound s.process_map) (h : Shape)
    (e : shape n s.process_map ≡ some h) where
  -- The iterator of a process moves on.
  advance-KeepsSound : (t : ℕ) → KeepsSound s (advance n t s)
  unfolding advance update_process
  advance-KeepsSound t =
      let (ts, nx, d) = so n h e in
      (
        modify-AllSound (move_next t) (moved t) (move_next-Acts t) n s.process_map h e
            (λ m ne. so m)
            (ts, stands (after t h.thread_list) (after-Elsewhere t h.thread_list d), d),
        modify-IsMain (move_next t) (moved t) (move_next-Acts t) n s.process_map h e,
        refl,
        refl,
        IsAnswering-update n (move_next t) s (λ q. refl) (λ q w. (w, refl)),
      )
    where
      stands : (o : Option ℕ) → Elsewhere t h.thread_list o → NextStands o h.thread_list
      stands none k = tt
      stands (some y) k = inl k.0

  advance-shape : (t : ℕ) → shape n (advance n t s).process_map ≡ some (moved t h)
  unfolding advance update_process
  advance-shape t = (shape-modify (move_next t) (moved t) (move_next-Acts t) n s.process_map h e).0

  -- A thread that the iterator does not stand at is taken off the list and deleted.
  delete_thread-KeepsSound :
      (t : ℕ)
      → Has t h.thread_list
      → Elsewhere t h.thread_list h.next
      → KeepsSound s (delete_thread n t s)
  unfolding delete_thread update_process remove_from_process_map
  delete_thread-KeepsSound t m el =
      let (ts, nx, d) = so n h e in
      let l = s.process_map in
      let l1 = modify n (drop_thread t) l in
      let acts = drop_thread-Acts t in
      let sound : AllSound l1 =
        modify-AllSound (drop_thread t) (dropped t) acts n l h e (λ m' ne. so m')
          (
            remove-All (ThreadOf l n) t h.thread_list ts,
            stands h.next el,
            remove-Distinct t h.thread_list d,
          ) in
      let mine = All-Has (ThreadOf l n) t h.thread_list ts m in
      let mine1 : ThreadOf l1 n t =
        modify-ThreadOf (drop_thread t) (dropped t) acts n l h e n t mine in
      let here : shape n l1 ≡ some (dropped t h) =
        (shape-modify (drop_thread t) (dropped t) acts n l h e).0 in
      (
        λ m'. elim (ℕ_discrete m' n) [
          | yes p ↦
              IsSound-erase_apart l1 m' t
                (λ h' f.
                  let k : some h' ≡ some (dropped t h) = sym f ∙ ap (λ j. shape j l1) p ∙ here in
                  let eq : h' ≡ dropped t h = ground (arith, k) in
                  subst (λ (x : Shape). All (λ u. u ≢ t) x.thread_list) (sym eq)
                    (remove_apart t h.thread_list))
                (sound m')
          | no ne ↦ IsSound-erase l1 m' n t mine1.1 mine1.2 mine1.3 ne (sound m')
        ],
        λ m' k.
            erase-KeepsMains l1 n t (ThreadOf-Leaving l1 n t mine1) m'
              (modify-IsMain (drop_thread t) (dropped t) acts n l h e m' k),
        refl,
        refl,
        λ a.
            IsAnswering-erase t (update_process n (drop_thread t) s)
              (IsAnswering-update n (drop_thread t) s (λ q. refl) (λ q w. (w, refl)) a),
      )
    where
      stands :
          (o : Option ℕ)
          → Elsewhere t h.thread_list o
          → NextStands o (remove (λ k. k == t) h.thread_list)
      stands none k = tt
      stands (some y) k = inl (remove-Has t y h.thread_list k.1 k.0)

-- Of a choice that is made: what the scheduler relies on is kept, and it is the process or a thread of it.
abbrev pub Chosen : ℕ → System → Option (ℕ × System) → Type 0
Chosen n s none = ⊥
Chosen n s (some (k, s')) =
    KeepsSound s s' × ((q : Shape) × (shape k s'.process_map ≡ some q) × (q.main ≡ n))

Chosen-trans :
    (n : ℕ) (s t : System) (o : Option (ℕ × System)) → KeepsSound s t → Chosen n t o → Chosen n s o
Chosen-trans n s t none k c = absurd c
Chosen-trans n s t (some (m, s')) k (a, b) = (KeepsSound-trans s t s' k a, b)

pub found :
    (n : ℕ) (l : List Process) (h : Shape)
    → shape n l ≡ some h
    → (p : Process) × (lookup n l ≡ some p) × (shape_of p ≡ h)
found n l h e = elim (Option-cases (lookup n l)) [
  | inl k ↦ absurd (ground (arith, k, e))
  | inr (p, k) ↦ (p, k, ground (arith, k, e))
]

pub if_released_cases :
    {A : Type 0} (P : A → Type 0) (st : Status) (a b : A) → P a → P b → P (if_released st a b)
if_released_cases P released a b x y = x
if_released_cases P _ a b x y = y

pick_thread-Chosen :
    (fuel n : ℕ) (s : System)
    → AllSound s.process_map
    → IsMain s.process_map n
    → Chosen n s (pick_thread fuel n s)
unfolding pick_thread
pick_thread-Chosen zero n s so mn = (quiet-KeepsSound s s so (IsQuiet-refl s), mn)
pick_thread-Chosen (suc fuel) n s so (h, e, g) =
    let (p, ep, sh) = found n s.process_map h e in
    let e' : shape n s.process_map ≡ some (shape_of p) = e ∙ ap some (sym sh) in
    let (ts, nx, d) = so n (shape_of p) e' in
    bind_some (Chosen n s) (lookup n s.process_map) p _ ep (
      option_cases (Chosen n s) (current_thread p.next_thread p.threads) (some (n, s)) _
        (quiet-KeepsSound s s so (IsQuiet-refl s), (h, e, g))
        λ t et.
          let m = current_thread-Has p.next_thread p.threads t nx et in
          let mine = All-Has (ThreadOf s.process_map n) t p.threads ts m in
          let (th, eth, sth) = found t s.process_map mine.1 mine.2 in
          let a = advance n t s in
          let ka = advance-KeepsSound n s so (shape_of p) e' t in
          let ea = advance-shape n s so (shape_of p) e' t in
          let b = delete_thread n t a in
          let kb =
            delete_thread-KeepsSound n a ka.0 (moved t (shape_of p)) ea t m
              (after-Elsewhere t p.threads d) in
          let k = KeepsSound-trans s a b ka kb in
          let there =
            All-Has (ThreadOf a.process_map n) t p.threads (ka.0 n (moved t (shape_of p)) ea).0 m in
          bind_some (Chosen n s) (lookup t s.process_map) th _ eth (
            if_released_cases (Chosen n s) th.status (pick_thread fuel n b) (some (t, a))
              (Chosen-trans n s b (pick_thread fuel n b) k
                (pick_thread-Chosen fuel n b k.0 (k.1 n (h, e, g))))
              (ka, (there.1, there.2, there.3))))

to_begin-Acts : Acts to_begin (λ h. record h { next = begin h.thread_list })
to_begin-Acts p = (refl, refl, refl)

begin-NextStands : (ts : List ℕ) → NextStands (begin ts) ts
begin-NextStands [] = tt
begin-NextStands (t ∷ ts) = inl (inl refl)

to_begin-Chosen :
    (n : ℕ) (s : System)
    → AllSound s.process_map
    → (h : Shape) → shape n s.process_map ≡ some h
    → h.main ≡ n
    → Chosen n s (some (n, update_process n to_begin s))
unfolding update_process
to_begin-Chosen n s so h e g =
    let (ts, nx, d) = so n h e in
    let g' = λ (h : Shape). record h { next = begin h.thread_list } in
    let mains = modify-IsMain to_begin g' to_begin-Acts n s.process_map h e in
    (
      (
        modify-AllSound to_begin g' to_begin-Acts n s.process_map h e (λ m ne. so m)
            (ts, begin-NextStands h.thread_list, d),
        mains,
        refl,
        refl,
        IsAnswering-update n to_begin s (λ q. refl) (λ q w. (w, refl)),
      ),
      mains n (h, e, g),
    )

-- forSchedule always finds a process to run, the process itself or a thread of it.
pub for_schedule-Chosen :
    (n : ℕ) (s : System)
    → AllSound s.process_map
    → IsMain s.process_map n
    → Chosen n s (for_schedule n s)
unfolding for_schedule
for_schedule-Chosen n s so (h, e, g) =
    let (p, ep, sh) = found n s.process_map h e in
    bind_some (Chosen n s) (lookup n s.process_map) p _ ep (
      if_cases (Chosen n s) (is_ended p.status) (some (n, s)) _
        (λ k. (quiet-KeepsSound s s so (IsQuiet-refl s), (h, e, g)))
        (λ k.
          option_cases (Chosen n s) p.next_thread (some (n, update_process n to_begin s)) _
            (to_begin-Chosen n s so h e g)
            (λ t et. pick_thread-Chosen (length p.threads) n s so (h, e, g))))
