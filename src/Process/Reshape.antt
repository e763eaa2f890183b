-- ===== src/Process/Reshape.antt =====
-- A change of one process that keeps its id and its main thread: what it does to the shape, and that the
-- threads of all processes stay sound, if those of the process itself do.
use upanix_os.Base.{
  ℕ, ◌≡◌, refl, sym, ap, ◌∙◌, ◌≢◌, Option, none, some, List, arith, All, All-map, Distinct,
}
use mathlib.Core.Option
use mathlib.Core.Path.{subst}
use native.Mathlib.Decide.{ℕ_discrete}
use upanix_os.Process.State.{Process}
use upanix_os.Process.Store.{lookup, modify, lookup-modify_self, lookup-modify_ne}
use upanix_os.Process.Shape.{Shape, shape_of, shape, NextStands, ThreadOf, AllSound}
use upanix_os.Process.Sound.{SoundBut, KeepsMains}

-- The change of a process acts on its shape.
abbrev pub Acts : (Process → Process) → (Shape → Shape) → Type 0
Acts f g =
    (p : Process)
    → ((f p).process_id ≡ p.process_id)
      × (shape_of (f p) ≡ g (shape_of p))
      × ((g (shape_of p)).main ≡ p.main_thread_id)

module _ (f : Process → Process) (g : Shape → Shape) (acts : Acts f g) where
  reshaped :
      (o : Option Process) (h : Shape)
      → Option.map shape_of o ≡ some h
      → (Option.map shape_of (Option.map f o) ≡ some (g h)) × ((g h).main ≡ h.main)
  reshaped none h k = ground arith
  reshaped (some p) h k =
      let e : shape_of p ≡ h = ground (arith, k) in
      (
        ap some ((acts p).1 ∙ ap g e),
        sym (ap (λ (x : Shape). (g x).main) e) ∙ (acts p).2 ∙ ap (λ (x : Shape). x.main) e,
      )

  pub shape-modify :
      (n : ℕ) (l : List Process) (h : Shape)
      → shape n l ≡ some h
      → (shape n (modify n f l) ≡ some (g h)) × ((g h).main ≡ h.main)
  shape-modify n l h e = rw (lookup-modify_self n f l (λ p. (acts p).0)) (reshaped (lookup n l) h e)

  pub shape-modify_ne : (m n : ℕ) (l : List Process) → m ≢ n → shape m (modify n f l) ≡ shape m l
  shape-modify_ne m n l ne = rw (lookup-modify_ne m n f l (λ p. (acts p).0) ne) refl

  module _ (n : ℕ) (l : List Process) (h0 : Shape) (e0 : shape n l ≡ some h0) where
    at : (m : ℕ) → m ≡ n → shape m (modify n f l) ≡ some (g h0)
    at m p = ap (λ j. shape j (modify n f l)) p ∙ (shape-modify n l h0 e0).0

    same : (m : ℕ) (h : Shape) → m ≡ n → shape m l ≡ some h → some h ≡ some h0
    same m h p e = sym e ∙ ap (λ j. shape j l) p ∙ e0

    keeps_main : (m : ℕ) (h : Shape) → m ≡ n → shape m l ≡ some h → (g h0).main ≡ h.main
    keeps_main m h p e =
        let k = same m h p e in let j = (shape-modify n l h0 e0).1 in ground (arith, k, j)

    pub modify-IsMain : KeepsMains l (modify n f l)
    modify-IsMain m (h, e, k) = elim (ℕ_discrete m n) [
      | yes p ↦ (g h0, at m p, keeps_main m h p e ∙ k)
      | no ne ↦ (h, shape-modify_ne m n l ne ∙ e, k)
    ]

    pub modify-ThreadOf : (m t : ℕ) → ThreadOf l m t → ThreadOf (modify n f l) m t
    modify-ThreadOf m t (a, q, b, c) = elim (ℕ_discrete t n) [
      | yes p ↦ (a, g h0, at t p, keeps_main t q p b ∙ c)
      | no ne ↦ (a, q, shape-modify_ne t n l ne ∙ b, c)
    ]

    pub modify-AllSound :
        SoundBut n l
        → All (ThreadOf l n) (g h0).thread_list
          × NextStands (g h0).next (g h0).thread_list
          × Distinct (g h0).thread_list
        → AllSound (modify n f l)
    modify-AllSound so own m h e = elim (ℕ_discrete m n) [
      | yes p ↦
          let k : some h ≡ some (g h0) = sym e ∙ at m p in
          let eq : h ≡ g h0 = ground (arith, k) in
          let threads : All (ThreadOf (modify n f l) m) (g h0).thread_list =
            subst (λ j. All (ThreadOf (modify n f l) j) (g h0).thread_list) (sym p)
              (All-map (ThreadOf l n) (ThreadOf (modify n f l) n) (g h0).thread_list
                (modify-ThreadOf n) own.0) in
          subst
            (λ (x : Shape).
              All (ThreadOf (modify n f l) m) x.thread_list
              × NextStands x.next x.thread_list
              × Distinct x.thread_list)
            (sym eq) (threads, own.1, own.2)
      | no ne ↦
          let (ts, nx, d) = so m ne h (sym (shape-modify_ne m n l ne) ∙ e) in
          (
            All-map (ThreadOf l m) (ThreadOf (modify n f l) m) h.thread_list (modify-ThreadOf m) ts,
            nx,
            d,
          )
    ]
