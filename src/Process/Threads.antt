-- ===== src/Process/Threads.antt =====
-- The list of threads of a process and the iterator over it.
use upanix_os.Base.{
  ℕ, ◌≡◌, refl, sym, ◌∙◌, ◌≢◌, inl, inr, Option, none, some, List, [], ◌∷◌, arith, All, Has,
  Distinct, ◌==◌, ==_iff, if_cases,
}
use mathlib.Core.Path.{subst}
use upanix_os.Process.State.{Process}
use upanix_os.Process.Store.{erase}
use upanix_os.Process.Destroy.{after, current_thread}
use upanix_os.Process.Group.{remove}
use upanix_os.Process.Shape.{
  Shape, shape, NextStands, ThreadOf, IsSound, erase-Within, shape-erase_ne,
}

abbrev pub Elsewhere : ℕ → List ℕ → Option ℕ → Type 0
Elsewhere t ts none = Unit
Elsewhere t ts (some y) = Has y ts × (y ≢ t)

-- The iterator moves to another element of the list.
pub after-Elsewhere : (t : ℕ) (ts : List ℕ) → Distinct ts → Elsewhere t ts (after t ts)
unfolding after
after-Elsewhere t [] d = tt
after-Elsewhere t (x ∷ []) d =
    if_cases (Elsewhere t (x ∷ [])) (x == t) none none (λ e. tt) (λ e. tt)
after-Elsewhere t (x ∷ y ∷ ts) d =
    if_cases (Elsewhere t (x ∷ y ∷ ts)) (x == t) (some y) (after t (y ∷ ts))
      (λ e. (inr (inl refl), λ k. d.0.0 ((==_iff x t).0 e ∙ sym k)))
      (λ e. wider (after t (y ∷ ts)) (after-Elsewhere t (y ∷ ts) d.1))
  where
    wider : (o : Option ℕ) → Elsewhere t (y ∷ ts) o → Elsewhere t (x ∷ y ∷ ts) o
    wider none h = tt
    wider (some z) (h, ne) = (inr h, ne)

pub current_thread-Has :
    (o : Option ℕ) (ts : List ℕ) (t : ℕ) → NextStands o ts → current_thread o ts ≡ some t → Has t ts
unfolding current_thread
current_thread-Has o [] t h e = ground arith
current_thread-Has none (x ∷ ts) t h e = ground arith
current_thread-Has (some k) (x ∷ ts) t (inl h) e =
    let eq : k ≡ t = ground (arith, e) in subst (λ j. Has j (x ∷ ts)) eq h
current_thread-Has (some k) (x ∷ ts) t (inr h) e = absurd (ground (arith, h))

pub remove-Has : (t u : ℕ) (ts : List ℕ) → u ≢ t → Has u ts → Has u (remove (λ k. k == t) ts)
unfolding remove
remove-Has t u [] ne h = h
remove-Has t u (x ∷ ts) ne h =
    if_cases (Has u) (x == t) (remove (λ k. k == t) ts) (x ∷ remove (λ k. k == t) ts)
      (λ e. elim h [ inl k ↦ absurd (ne (k ∙ (==_iff x t).0 e)) | inr m ↦ remove-Has t u ts ne m ])
      (λ e. elim h [ inl k ↦ inl k | inr m ↦ inr (remove-Has t u ts ne m) ])

pub remove-All : (P : ℕ → Type 0) (t : ℕ) (ts : List ℕ) → All P ts → All P (remove (λ k. k == t) ts)
unfolding remove
remove-All P t [] h = tt
remove-All P t (x ∷ ts) h =
    if_cases (All P) (x == t) (remove (λ k. k == t) ts) (x ∷ remove (λ k. k == t) ts)
      (λ e. remove-All P t ts h.1) (λ e. (h.0, remove-All P t ts h.1))

pub remove-Distinct : (t : ℕ) (ts : List ℕ) → Distinct ts → Distinct (remove (λ k. k == t) ts)
unfolding remove
remove-Distinct t [] h = tt
remove-Distinct t (x ∷ ts) h =
    if_cases Distinct (x == t) (remove (λ k. k == t) ts) (x ∷ remove (λ k. k == t) ts)
      (λ e. remove-Distinct t ts h.1)
      (λ e. (remove-All (λ y. x ≢ y) t ts h.0, remove-Distinct t ts h.1))

pub remove_apart : (t : ℕ) (ts : List ℕ) → All (λ u. u ≢ t) (remove (λ k. k == t) ts)
unfolding remove
remove_apart t [] = tt
remove_apart t (x ∷ ts) =
    if_cases (All (λ u. u ≢ t)) (x == t) (remove (λ k. k == t) ts) (x ∷ remove (λ k. k == t) ts)
      (λ e. remove_apart t ts) (λ e. ((λ k. ground (arith, e, k)), remove_apart t ts))

-- A thread that no list holds is deleted.
pub IsSound-erase_apart :
    (l : List Process) (m t : ℕ)
    → ((h : Shape) → shape m l ≡ some h → All (λ u. u ≢ t) h.thread_list)
    → IsSound l m
    → IsSound (erase t l) m
IsSound-erase_apart l m t apart s h f =
    let g = erase-Within t l m h f in
    let (ts, nx, d) = s h g in (keep h.thread_list ts (apart h g), nx, d)
  where
    keep :
        (us : List ℕ)
        → All (ThreadOf l m) us
        → All (λ u. u ≢ t) us
        → All (ThreadOf (erase t l) m) us
    keep [] a b = tt
    keep (u ∷ us) ((ne, q, e, g), a) (k, b) = ((ne, q, shape-erase_ne u t l k ∙ e, g), keep us a b)
