-- ===== src/Process/Answering.antt =====
-- process/ProcessManager.cpp, the case WAIT_IO_DESCRIPTORS: the processes that wait on descriptors wait on ones
-- that their tables have, so that selectCheck throws no exception.
use upanix_os.Base.{
  ℕ, ◌≡◌, sym, ap, ◌∙◌, ◌≢◌, Bool, true, false, some, arith, All, inl, inr, Option-cases,
}
use mathlib.Core.Option
use mathlib.Core.Path.{subst}
use native.Mathlib.Decide.{ℕ_discrete}
use upanix_os.Process.State.{Status, wait_io_descriptors, Process, System}
use upanix_os.Process.Store.{
  lookup, modify, erase, update_process, remove_from_process_map, lookup-modify_self,
  lookup-modify_ne, lookup-erase_self, lookup-erase_ne,
}
use upanix_os.Process.Ready.{IsKnown}

abbrev pub waits_io : Status → Bool
waits_io wait_io_descriptors = true
waits_io _ = false

abbrev pub Answers : (s : System) → Process → Type 0
Answers s p =
    waits_io p.status ≡ true → All (IsKnown (s.can p.process_id)) p.state_info.io_descriptors

-- A process that waits on descriptors knows them.
abbrev pub IsAnswering : System → Type 0
IsAnswering s = (n : ℕ) (p : Process) → lookup n s.process_map ≡ some p → Answers s p

abbrev pub AnsweringBut : ℕ → System → Type 0
AnsweringBut k s = (n : ℕ) (p : Process) → n ≢ k → lookup n s.process_map ≡ some p → Answers s p

-- The change keeps the id.
abbrev KeepsId : (Process → Process) → Type 0
KeepsId f = (p : Process) → (f p).process_id ≡ p.process_id

pub AnsweringBut-update :
    (k : ℕ) (f : Process → Process) (s : System)
    → KeepsId f
    → AnsweringBut k s
    → AnsweringBut k (update_process k f s)
unfolding update_process
AnsweringBut-update k f s id a n p ne e =
    a n p ne (sym (lookup-modify_ne n k f s.process_map id ne) ∙ e)

update-IsAnswering :
    (k : ℕ) (f : Process → Process) (s : System)
    → KeepsId f
    → AnsweringBut k s
    → ((q : Process) → lookup k s.process_map ≡ some q → Answers s (f q))
    → IsAnswering (update_process k f s)
unfolding update_process
update-IsAnswering k f s id a own n p e = elim (ℕ_discrete n k) [
  | no ne ↦ a n p ne (sym (lookup-modify_ne n k f s.process_map id ne) ∙ e)
  | yes same ↦
      let here : Option.map f (lookup k s.process_map) ≡ some p =
        sym (lookup-modify_self k f s.process_map id)
        ∙ sym (ap (λ j. lookup j (modify k f s.process_map)) same)
        ∙ e in
      elim (Option-cases (lookup k s.process_map)) [
        | inl gone ↦ absurd (ground (arith, sym (ap (Option.map f) gone) ∙ here))
        | inr (q, found) ↦
            let eq : some (f q) ≡ some p = sym (ap (Option.map f) found) ∙ here in
            let eq' : f q ≡ p = ground (arith, eq) in subst (Answers s) eq' (own q found)
      ]
]

-- A change that leaves alone what a process waits for.
abbrev pub KeepsWait : (Process → Process) → Type 0
KeepsWait f =
    (p : Process)
    → waits_io (f p).status ≡ true
    → (waits_io p.status ≡ true) × ((f p).state_info.io_descriptors ≡ p.state_info.io_descriptors)

pub IsAnswering-update :
    (k : ℕ) (f : Process → Process) (s : System)
    → KeepsId f
    → KeepsWait f
    → IsAnswering s
    → IsAnswering (update_process k f s)
IsAnswering-update k f s id keeps a =
    update-IsAnswering k f s id (λ n p ne e. a n p e)
      λ q e w.
        let (w', io) = keeps q w in
        subst (λ i. All (IsKnown (s.can i)) (f q).state_info.io_descriptors) (sym (id q))
          (subst (All (IsKnown (s.can q.process_id))) (sym io) (a k q e w'))

-- A process that waits on nothing of the kind any more.
pub IsAnswering-settled :
    (k : ℕ) (f : Process → Process) (s : System)
    → KeepsId f
    → ((p : Process) → waits_io (f p).status ≡ false)
    → AnsweringBut k s
    → IsAnswering (update_process k f s)
IsAnswering-settled k f s id done a =
    update-IsAnswering k f s id a (λ q e w. absurd (ground (arith, w, done q)))

pub IsAnswering-erase :
    (k : ℕ) (s : System) → IsAnswering s → IsAnswering (remove_from_process_map k s)
unfolding remove_from_process_map
IsAnswering-erase k s a n p e = elim (ℕ_discrete n k) [
  | no ne ↦ a n p (sym (lookup-erase_ne n k s.process_map ne) ∙ e)
  | yes same ↦ absurd (
      ground (
        arith,
        sym (lookup-erase_self k s.process_map)
            ∙ sym (ap (λ j. lookup j (erase k s.process_map)) same)
            ∙ e,
      ))
]
