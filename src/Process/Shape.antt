-- ===== src/Process/Shape.antt =====
-- What the scheduler follows of a process: its main thread, its threads and the iterator over them; and the
-- operations on the process map by what they do to that.
use upanix_os.Base.{
  ℕ, ◌≡◌, refl, sym, ap, ◌∙◌, ◌≢◌, ◌⊎◌, Option, none, some, List, [], arith, All, All-map, Has,
  Distinct,
}
use mathlib.Core.Option
use native.Mathlib.Decide.{ℕ_discrete}
use upanix_os.Process.State.{Process}
use upanix_os.Process.Store.{
  lookup, modify, erase, lookup-modify_self, lookup-modify_ne, lookup-erase_self, lookup-erase_ne,
}

pub record Shape : Type 0 where
  pub main : ℕ
  pub thread_list : List ℕ
  pub next : Option ℕ

abbrev pub shape_of : Process → Shape
shape_of p = record { main = p.main_thread_id; thread_list = p.threads; next = p.next_thread }

abbrev pub shape : ℕ → List Process → Option Shape
shape n l = Option.map shape_of (lookup n l)

-- The change keeps the id and the shape.
abbrev pub IsPlain : (Process → Process) → Type 0
IsPlain f = (p : Process) → ((f p).process_id ≡ p.process_id) × (shape_of (f p) ≡ shape_of p)

abbrev pub SameShapes : List Process → List Process → Type 0
SameShapes l k = (n : ℕ) → shape n k ≡ shape n l

-- `t` is a thread of another process, `m`.
abbrev pub ThreadOf : List Process → ℕ → ℕ → Type 0
ThreadOf l m t = (t ≢ m) × (q : Shape) × (shape t l ≡ some q) × (q.main ≡ m)

abbrev pub NextStands : Option ℕ → List ℕ → Type 0
NextStands none ts = Unit
NextStands (some t) ts = Has t ts ⊎ (ts ≡ [])

abbrev pub IsSound : List Process → ℕ → Type 0
IsSound l m =
    (h : Shape)
    → shape m l ≡ some h
    → All (ThreadOf l m) h.thread_list × NextStands h.next h.thread_list × Distinct h.thread_list

-- Every thread that a process schedules is in the map, and belongs to it.
abbrev pub AllSound : List Process → Type 0
AllSound l = (m : ℕ) → IsSound l m

pub shape-modify_plain :
    (k : ℕ) (f : Process → Process) (l : List Process) → IsPlain f → SameShapes l (modify k f l)
shape-modify_plain k f l h n = elim (ℕ_discrete n k) [
  | yes e ↦ rw (e, lookup-modify_self k f l (λ p. (h p).0)) (through (lookup k l))
  | no ne ↦ rw (lookup-modify_ne n k f l (λ p. (h p).0) ne) refl
]
  where
    through : (o : Option Process) → Option.map shape_of (Option.map f o) ≡ Option.map shape_of o
    through none = refl
    through (some p) = ap some (h p).1

pub ThreadOf-SameShapes :
    (l k : List Process) (m t : ℕ) → SameShapes l k → ThreadOf l m t → ThreadOf k m t
ThreadOf-SameShapes l k m t e (ne, q, f, g) = (ne, q, e t ∙ f, g)

pub AllSound-SameShapes : (l k : List Process) → SameShapes l k → AllSound l → AllSound k
AllSound-SameShapes l k e s m h f =
    let (ts, nx, d) = s m h (sym (e m) ∙ f) in
    (
      All-map (ThreadOf l m) (ThreadOf k m) h.thread_list (λ t. ThreadOf-SameShapes l k m t e) ts,
      nx,
      d,
    )

pub SameShapes-trans : (l k j : List Process) → SameShapes l k → SameShapes k j → SameShapes l j
SameShapes-trans l k j e f n = f n ∙ e n

pub shape-erase_ne : (n m : ℕ) (l : List Process) → n ≢ m → shape n (erase m l) ≡ shape n l
shape-erase_ne n m l h = rw (lookup-erase_ne n m l h) refl

pub shape-erase_self : (n : ℕ) (l : List Process) → shape n (erase n l) ≡ none
shape-erase_self n l = rw (lookup-erase_self n l) refl

-- Nothing but what was in `l`, with its shape, is in `k`.
abbrev pub Within : List Process → List Process → Type 0
Within l k = (n : ℕ) (h : Shape) → shape n k ≡ some h → shape n l ≡ some h

pub erase-Within : (m : ℕ) (l : List Process) → Within l (erase m l)
erase-Within m l n h e = elim (ℕ_discrete n m) [
  | yes p ↦ absurd (clash (sym (shape-erase_self m l) ∙ sym (ap (λ j. shape j (erase m l)) p) ∙ e))
  | no ne ↦ sym (shape-erase_ne n m l ne) ∙ e
]
  where
    clash : {h' : Shape} → none ≡ some h' → ⊥
    clash c = ground arith

-- A thread is not its own main thread, so the other processes keep their threads when it is deleted.
pub IsSound-erase :
    (l : List Process) (m n t : ℕ) (q : Shape)
    → shape t l ≡ some q
    → q.main ≡ n
    → m ≢ n
    → IsSound l m
    → IsSound (erase t l) m
IsSound-erase l m n t q e g ne s h f =
    let (ts, nx, d) = s h (erase-Within t l m h f) in
    (All-map (ThreadOf l m) (ThreadOf (erase t l) m) h.thread_list keep ts, nx, d)
  where
    keep : (u : ℕ) → ThreadOf l m u → ThreadOf (erase t l) m u
    keep u (a, r, b, c) =
        let apart : u ≢ t = λ p.
          let same : some r ≡ some q = sym b ∙ ap (λ j. shape j l) p ∙ e in
          ne (ground (arith, c, g, same)) in
        (a, r, shape-erase_ne u t l apart ∙ b, c)
