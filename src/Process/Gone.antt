-- ===== src/Process/Gone.antt =====
-- The threads of a process that ends are deleted, also the one that runs.
use upanix_os.Base.{
  ℕ, ◌≡◌, refl, sym, ap, ◌∙◌, ◌≢◌, inl, inr, true, false, Option, none, some, List, [], ◌∷◌, arith,
  Has, All-Has, if◌then◌else◌, Option-cases, option_cases, option_some, if_cases,
}
use mathlib.Core.Option
use mathlib.Core.Path.{subst}
use native.Mathlib.Decide.{ℕ_discrete}
use upanix_os.Base.Int.{ℤ, pos}
use upanix_os.Process.State.{terminated, Process, System, ◌==ℤ◌, ==ℤ→eq}
use upanix_os.Process.Store.{
  lookup, erase, update_process, set_status, release, remove_from_process_map, is_ended,
  lookup-process_id, get_schedulable_process, get_cur_proc_id,
}
use upanix_os.Process.Destroy.{
  finish_destroy, destroy_thread, clear_threads, destroy_threads, destroy,
}
use upanix_os.Process.Schedule.{store_back}
use upanix_os.Process.Wait.{Progress, runs, kill}
use upanix_os.Process.Shape.{shape_of, shape, ThreadOf, AllSound, shape-erase_ne, shape-erase_self}
use upanix_os.Process.Quiet.{
  IsQuiet, IsQuiet-refl, release-IsQuiet, destroy_thread-IsQuiet, finish_destroy-IsQuiet,
}
use upanix_os.Process.Reshape.{shape-modify_ne}
use upanix_os.Process.Ending.{without_threads, clear_threads-Acts}

abbrev pub IsGone : ℕ → System → Type 0
IsGone t s = shape t s.process_map ≡ none

quiet-IsGone : (t : ℕ) (s u : System) → IsQuiet s u → IsGone t s → IsGone t u
quiet-IsGone t s u q g = q.0 t ∙ g

remove-IsGone : (t k : ℕ) (s : System) → IsGone t s → IsGone t (remove_from_process_map k s)
unfolding remove_from_process_map
remove-IsGone t k s g = elim (ℕ_discrete t k) [
  | yes p ↦ subst (λ j. shape t (erase j s.process_map) ≡ none) p (shape-erase_self t s.process_map)
  | no ne ↦ shape-erase_ne t k s.process_map ne ∙ g
]

shape_of_none : (t : ℕ) (l : List Process) → lookup t l ≡ none → shape t l ≡ none
shape_of_none t l e = ap (Option.map shape_of) e

-- One thread is destroyed, if it is not yet, released and deleted.
abbrev rid_of : ℕ → Process → System → System
rid_of t p s =
    remove_from_process_map t (release t (if is_ended p.status then s else destroy_thread p s))

ended-IsQuiet :
    (p : Process) (s : System) → IsQuiet s (if is_ended p.status then s else destroy_thread p s)
ended-IsQuiet p s =
    if_cases (IsQuiet s) (is_ended p.status) s (destroy_thread p s) (λ k. IsQuiet-refl s)
      (λ k. destroy_thread-IsQuiet p s)

rid_of-IsGone : (u t : ℕ) (p : Process) (s : System) → IsGone u s → IsGone u (rid_of t p s)
rid_of-IsGone u t p s g =
    let ended = if is_ended p.status then s else destroy_thread p s in
    remove-IsGone u t (release t ended) (
      quiet-IsGone u ended (release t ended) (release-IsQuiet t ended)
        (quiet-IsGone u s ended (ended-IsQuiet p s) g))

remove_self-IsGone : (t : ℕ) (s : System) → IsGone t (remove_from_process_map t s)
unfolding remove_from_process_map
remove_self-IsGone t s = shape-erase_self t s.process_map

destroy_threads-IsGone :
    (u : ℕ) (ts : List ℕ) (s : System) → IsGone u s → IsGone u (destroy_threads ts s)
unfolding destroy_threads
destroy_threads-IsGone u [] s g = g
destroy_threads-IsGone u (t ∷ ts) s g =
    option_cases (IsGone u) (lookup t s.process_map) (destroy_threads ts s)
      (λ p. destroy_threads ts (rid_of t p s)) (destroy_threads-IsGone u ts s g)
      (λ p e. destroy_threads-IsGone u ts (rid_of t p s) (rid_of-IsGone u t p s g))

destroy_threads-Has :
    (u : ℕ) (ts : List ℕ) (s : System) → Has u ts → IsGone u (destroy_threads ts s)
unfolding destroy_threads
destroy_threads-Has u [] s h = absurd h
destroy_threads-Has u (t ∷ ts) s (inl e) = elim (Option-cases (lookup t s.process_map)) [
  | inl k ↦
      subst
        (λ (o : Option Process).
          IsGone u
            (elim o [ none ↦ destroy_threads ts s | some p ↦ destroy_threads ts (rid_of t p s) ]))
        (sym k)
        (destroy_threads-IsGone u ts s
          (subst (λ j. shape j s.process_map ≡ none) (sym e) (shape_of_none t s.process_map k)))
  | inr (p, k) ↦
      option_some (IsGone u) (lookup t s.process_map) p (destroy_threads ts s)
        (λ q. destroy_threads ts (rid_of t q s)) k
        (destroy_threads-IsGone u ts (rid_of t p s) (
          subst (λ j. IsGone j (rid_of t p s)) (sym e)
            (remove_self-IsGone t
              (release t (if is_ended p.status then s else destroy_thread p s)))))
]
destroy_threads-Has u (t ∷ ts) s (inr h) =
    option_cases (IsGone u) (lookup t s.process_map) (destroy_threads ts s)
      (λ p. destroy_threads ts (rid_of t p s)) (destroy_threads-Has u ts s h)
      (λ p e. destroy_threads-Has u ts (rid_of t p s) h)

clear-IsGone :
    (u n : ℕ) (s : System) → u ≢ n → IsGone u s → IsGone u (update_process n clear_threads s)
unfolding update_process
clear-IsGone u n s ne g =
    shape-modify_ne clear_threads without_threads clear_threads-Acts u n s.process_map ne ∙ g

-- Destroy deletes the threads of the process.
pub destroy-IsGone :
    (n t : ℕ) (p : Process) (s : System)
    → t ≢ n
    → lookup n s.process_map ≡ some p
    → Has t p.threads
    → IsGone t (destroy n s)
unfolding destroy
destroy-IsGone n t p s ne e h =
    let s2 = destroy_threads p.threads (set_status n terminated s) in
    let alone = update_process n clear_threads s2 in
    let g =
      clear-IsGone t n s2 ne (destroy_threads-Has t p.threads (set_status n terminated s) h) in
    option_some (IsGone t) (lookup n s.process_map) p s _ e (
      option_cases (IsGone t) (lookup n alone.process_map) alone (λ q. finish_destroy q alone) g
        (λ q f. quiet-IsGone t alone (finish_destroy q alone) (finish_destroy-IsQuiet q alone) g))

pub lookup_of_gone : (t : ℕ) (s : System) → IsGone t s → lookup t s.process_map ≡ none
lookup_of_gone t s g = elim (Option-cases (lookup t s.process_map)) [
  | inl k ↦ k
  | inr (p, k) ↦ absurd (ground (arith, k, g))
]

-- Kill of another process destroys it at once.
kill_other :
    (n t : ℕ) (p : Process) (s : System)
    → t ≢ n
    → get_cur_proc_id s ≡ pos t
    → lookup n s.process_map ≡ some p
    → is_ended p.status ≡ false
    → kill (pos n) s ≡ runs tt (destroy n s)
unfolding kill get_schedulable_process
kill_other n t p s apart cur e al =
    let P = λ (x : Progress Unit). x ≡ runs tt (destroy n s) in
    option_some P (lookup n s.process_map) p (runs tt s) _ e (
      if_cases P (is_ended p.status) (runs tt s) _ (λ b. absurd (ground (arith, b, al)))
        (λ b.
          if_cases P (pos n ==ℤ get_cur_proc_id s) _ (runs tt (destroy p.process_id s))
            (λ eq.
              let same : pos n ≡ pos t = ==ℤ→eq (pos n) (get_cur_proc_id s) eq ∙ cur in
              absurd (apart (ground (arith, same))))
            (λ eq. ap (λ j. runs tt (destroy j s)) (lookup-process_id n s.process_map p e))))

current_in_user_mode :
    (s : System) (z : ℤ) → s.kernel_mode ≡ false → s.current_process_id ≡ z → get_cur_proc_id s ≡ z
unfolding get_cur_proc_id
current_in_user_mode s z km c = rw km c

-- A thread that kills the process it belongs to, which has not ended, is deleted while it runs: the scheduler, which stores the
-- state of the thread afterwards, has no object to store it in.
pub kill-IsGone :
    (n t : ℕ) (p : Process) (s : System)
    → AllSound s.process_map
    → s.kernel_mode ≡ false
    → s.current_process_id ≡ pos t
    → lookup n s.process_map ≡ some p
    → is_ended p.status ≡ false
    → Has t p.threads
    → (u : System) × (kill (pos n) s ≡ runs tt u)
      × (lookup t u.process_map ≡ none)
      × (store_back t (record u { kernel_mode = true }) ≡ none)
unfolding store_back
kill-IsGone n t p s so km c e al h =
    let apart : t ≢ n =
      (All-Has (ThreadOf s.process_map n) t p.threads
        (so n (shape_of p) (shape_of_some n s.process_map p e)).0 h).0 in
    let gone = lookup_of_gone t (destroy n s) (destroy-IsGone n t p s apart e h) in
    (
      destroy n s,
      kill_other n t p s apart (current_in_user_mode s (pos t) km c) e al,
      gone,
      rw gone refl,
    )
  where
    shape_of_some :
        (n : ℕ) (l : List Process) (p : Process)
        → lookup n l ≡ some p
        → shape n l ≡ some (shape_of p)
    shape_of_some n l p e = ap (Option.map shape_of) e
