-- ===== src/Process/Ending.antt =====
-- process/SchedulableProcess.cpp: the end of a process keeps what the scheduler relies on.
use upanix_os.Base.{
  ℕ, ◌≡◌, refl, sym, ap, ◌∙◌, ◌≢◌, inr, Option, none, some, List, [], ◌∷◌, arith, All, All-map,
  if◌then◌else◌, option_cases, option_some, if_cases,
}
use mathlib.Core.Option
use upanix_os.Process.State.{terminated, Process, System}
use upanix_os.Process.Store.{
  lookup, update_process, set_status, release, remove_from_process_map, is_ended,
}
use upanix_os.Process.Destroy.{
  finish_destroy, destroy_thread, clear_threads, destroy_threads, destroy,
}
use upanix_os.Process.Shape.{
  Shape, shape_of, shape, NextStands, ThreadOf, AllSound, AllSound-SameShapes,
}
use upanix_os.Process.Answering.{IsAnswering, IsAnswering-update}
use upanix_os.Process.Ended.{HasEnded, destroy-HasEnded}
use upanix_os.Process.Quiet.{
  IsQuiet, IsQuiet-refl, set_status-IsQuiet, destroy_thread-IsQuiet, finish_destroy-IsQuiet,
}
use upanix_os.Process.Sound.{
  SoundBut, Leaving, KeepsMains, Deletes, Deletes-trans, delete_released, Leaving-Within,
  IsMain-SameShapes,
}
use upanix_os.Process.Reshape.{Acts, modify-IsMain, modify-AllSound, shape-modify}

-- The loop of DestroyThreads.
pub destroy_threads-Deletes :
    (n : ℕ) (ts : List ℕ) (s : System)
    → SoundBut n s.process_map
    → All (Leaving s.process_map n) ts
    → Deletes n s (destroy_threads ts s)
unfolding destroy_threads
destroy_threads-Deletes n [] s so lv = (so, (λ m h. h), refl, refl, refl, (λ a. a))
destroy_threads-Deletes n (t ∷ ts) s so lv =
    option_cases (Deletes n s) (lookup t s.process_map) (destroy_threads ts s) _
      (destroy_threads-Deletes n ts s so lv.1)
      λ p e.
        let ended = if is_ended p.status then s else destroy_thread p s in
        let q : IsQuiet s ended =
          if_cases (IsQuiet s) (is_ended p.status) s (destroy_thread p s) (λ k. IsQuiet-refl s)
            (λ k. destroy_thread-IsQuiet p s) in
        let v = remove_from_process_map t (release t ended) in
        let (one, w) = delete_released n t p s ended so e lv.0 q in
        Deletes-trans n s v (destroy_threads ts v) one (
          destroy_threads-Deletes n ts v one.0 (
            All-map (Leaving s.process_map n) (Leaving v.process_map n) ts
              (λ x. Leaving-Within s.process_map v.process_map n x w) lv.1))

abbrev pub without_threads : Shape → Shape
without_threads h = record h { thread_list = [] }

pub clear_threads-Acts : Acts clear_threads without_threads
clear_threads-Acts p = (refl, refl, refl)

NextStands-empty : (o : Option ℕ) → NextStands o []
NextStands-empty none = tt
NextStands-empty (some t) = inr refl

-- What the scheduler relies on after a step, from what held before it.
abbrev pub KeepsSound : System → System → Type 0
KeepsSound s s' =
    AllSound s'.process_map
    × KeepsMains s.process_map s'.process_map
    × (s'.scheduler_list ≡ s.scheduler_list)
    × (s'.current_process_id ≡ s.current_process_id)
    × (IsAnswering s → IsAnswering s')

pub quiet-KeepsSound : (s s' : System) → AllSound s.process_map → IsQuiet s s' → KeepsSound s s'
quiet-KeepsSound s s' so (a, b, c, d, r) = (
  AllSound-SameShapes s.process_map s'.process_map a so,
  IsMain-SameShapes s.process_map s'.process_map a,
  b,
  c,
  d,
)

pub KeepsSound-trans : (s t u : System) → KeepsSound s t → KeepsSound t u → KeepsSound s u
KeepsSound-trans s t u (a, b, c, d, e) (a', b', c', d', e') =
    (a', λ m h. b' m (b m h), c' ∙ c, d' ∙ d, (λ k. e' (e k)))

pub ThreadOf-Leaving : (l : List Process) (n t : ℕ) → ThreadOf l n t → Leaving l n t
ThreadOf-Leaving l n t (ne, q, e, g) =
    (ne, λ r f. let same : some r ≡ some q = sym f ∙ e in ground (arith, same, g))

-- The process is in the map still, with its main thread.
abbrev pub Stays : ℕ → System → System → Type 0
Stays n s s' =
    (h : Shape)
    → shape n s.process_map ≡ some h
    → (q : Shape) × (shape n s'.process_map ≡ some q) × (q.main ≡ h.main)

pub quiet-Stays : (n : ℕ) (s s' : System) → IsQuiet s s' → Stays n s s'
quiet-Stays n s s' q h e = (h, q.0 n ∙ e, refl)

pub Stays-trans : (n : ℕ) (s t u : System) → Stays n s t → Stays n t u → Stays n s u
Stays-trans n s t u a b h e = let (q, f, g) = a h e in let (r, f', g') = b q f in (r, f', g' ∙ g)

-- After the threads and their list are gone.
alone-KeepsSound :
    (n : ℕ) (p : Process) (s : System)
    → AllSound s.process_map
    → lookup n s.process_map ≡ some p
    → KeepsSound s
        (update_process n clear_threads (destroy_threads p.threads (set_status n terminated s)))
      × (shape n
            (update_process n clear_threads
              (destroy_threads p.threads (set_status n terminated s))).process_map
          ≡ some (without_threads (shape_of p)))
unfolding update_process
alone-KeepsSound n p s so e =
    let s1 = set_status n terminated s in
    let k1 = quiet-KeepsSound s s1 so (set_status-IsQuiet n terminated s refl) in
    let s2 = destroy_threads p.threads s1 in
    let here : shape n s.process_map ≡ some (shape_of p) = ap (Option.map shape_of) e in
    let here1 = (set_status-IsQuiet n terminated s refl).0 n ∙ here in
    let lv =
      All-map (ThreadOf s1.process_map n) (Leaving s1.process_map n) p.threads
        (ThreadOf-Leaving s1.process_map n) (k1.0 n (shape_of p) here1).0 in
    let d = destroy_threads-Deletes n p.threads s1 (λ m ne. k1.0 m) lv in
    let here2 = d.3 ∙ here1 in
    (
      (
        modify-AllSound clear_threads without_threads clear_threads-Acts n s2.process_map
            (shape_of p) here2 d.0 (tt, NextStands-empty p.next_thread, tt),
        λ m h.
            modify-IsMain clear_threads without_threads clear_threads-Acts n s2.process_map
              (shape_of p) here2 m (d.1 m (k1.1 m h)),
        d.2 ∙ k1.2,
        d.4 ∙ k1.3,
        λ a. IsAnswering-update n clear_threads s2 (λ q. refl) (λ q w. (w, refl)) (d.5 (k1.4 a)),
      ),
      (shape-modify clear_threads without_threads clear_threads-Acts n s2.process_map (shape_of p)
          here2).0,
    )

alone-Stays :
    (n : ℕ) (p : Process) (s u : System)
    → lookup n s.process_map ≡ some p
    → shape n u.process_map ≡ some (without_threads (shape_of p))
    → Stays n s u
alone-Stays n p s u e k h f =
    let same : some h ≡ some (shape_of p) = sym f ∙ ap (Option.map shape_of) e in
    (without_threads (shape_of p), k, ground (arith, same))

pub destroy_sound :
    (n : ℕ) (s : System)
    → AllSound s.process_map
    → KeepsSound s (destroy n s) × Stays n s (destroy n s)
unfolding destroy
destroy_sound n s so =
    option_cases (λ (u : System). KeepsSound s u × Stays n s u) (lookup n s.process_map) s _
      (quiet-KeepsSound s s so (IsQuiet-refl s), quiet-Stays n s s (IsQuiet-refl s))
      λ p e.
        let alone =
          update_process n clear_threads (destroy_threads p.threads (set_status n terminated s)) in
        let (k, sh) = alone-KeepsSound n p s so e in
        let st = alone-Stays n p s alone e sh in
        option_cases (λ (u : System). KeepsSound s u × Stays n s u) (lookup n alone.process_map)
          alone (λ q. finish_destroy q alone) (k, st)
          λ q f.
            let fin = finish_destroy-IsQuiet q alone in
            (
              KeepsSound-trans s alone (finish_destroy q alone) k
                  (quiet-KeepsSound alone (finish_destroy q alone) k.0 fin),
              Stays-trans n s alone (finish_destroy q alone) st
                  (quiet-Stays n alone (finish_destroy q alone) fin),
            )

shape-destroy :
    (n : ℕ) (p : Process) (s : System)
    → AllSound s.process_map
    → lookup n s.process_map ≡ some p
    → shape n (destroy n s).process_map ≡ some (without_threads (shape_of p))
unfolding destroy
shape-destroy n p s so e =
    let P = λ (u : System). shape n u.process_map ≡ some (without_threads (shape_of p)) in
    let alone =
      update_process n clear_threads (destroy_threads p.threads (set_status n terminated s)) in
    let sh = (alone-KeepsSound n p s so e).1 in
    option_some P (lookup n s.process_map) p s _ e (
      option_cases P (lookup n alone.process_map) alone (λ q. finish_destroy q alone) sh
        (λ q f. (finish_destroy-IsQuiet q alone).0 n ∙ sh))

-- In a map in which every thread of a process is there and belongs to it, Destroy of a process in the map keeps
-- that so. It keeps all main processes in the map as such, the list of the scheduler and the current process,
-- and if each process that waits on descriptors knew them before, it does after. The object of the process stays
-- in the map, with its main thread, no threads and a status of one that has ended.
pub destroy-KeepsSound :
    (n : ℕ) (p : Process) (s : System)
    → AllSound s.process_map
    → lookup n s.process_map ≡ some p
    → KeepsSound s (destroy n s)
      × HasEnded n (destroy n s)
      × (shape n (destroy n s).process_map ≡ some (without_threads (shape_of p)))
destroy-KeepsSound n p s so e =
    let here = ap (Option.map shape_of) e in
    (
      (destroy_sound n s so).0,
      destroy-HasEnded n p s e (
          All-map (ThreadOf s.process_map n) (λ t. t ≢ n) p.threads (λ t h. h.0)
            (so n (shape_of p) here).0),
      shape-destroy n p s so e,
    )
