-- ===== src/Process/Turn.antt =====
-- The end of a round of StartScheduler: the list without the process that was released.
use upanix_os.Base.{
  ℕ, ◌≡◌, refl, sym, ap, ◌∙◌, ◌≢◌, some, List, [], ◌∷◌, ◌++◌, arith, All, All-map, All-right,
  Distinct, ◌==◌, ==_iff, if_cases,
}
use upanix_os.Process.State.{System}
use upanix_os.Process.Store.{erase, remove_from_process_map}
use upanix_os.Process.Group.{remove}
use upanix_os.Process.Destroy.{after, begin}
use upanix_os.Process.Answering.{IsAnswering-erase}
use upanix_os.Process.Shape.{shape, ThreadOf, shape-erase_ne}
use upanix_os.Process.Sound.{IsMain}
use upanix_os.Process.Threads.{remove_apart, remove-All, remove-Distinct, IsSound-erase_apart}
use upanix_os.Process.Rounds.{IsWellFormed}

pub split_apart :
    (x : ℕ) (pre post : List ℕ)
    → Distinct (pre ++ x ∷ post)
    → All (λ y. y ≢ x) pre × All (λ y. y ≢ x) post
split_apart x [] post d = (tt, All-map (λ y. x ≢ y) (λ y. y ≢ x) post (λ y ne e. ne (sym e)) d.0)
split_apart x (y ∷ pre) post d =
    let (a, b) = split_apart x pre post d.1 in
    (((All-right (λ z. y ≢ z) pre (x ∷ post) d.0).0, a), b)

remove_absent : (x : ℕ) (l : List ℕ) → All (λ y. y ≢ x) l → remove (λ k. k == x) l ≡ l
unfolding remove
remove_absent x [] h = refl
remove_absent x (y ∷ l) h =
    if_cases (λ k. k ≡ y ∷ l) (y == x) (remove (λ k. k == x) l) (y ∷ remove (λ k. k == x) l)
      (λ e. absurd (h.0 ((==_iff y x).0 e))) (λ e. ap (◌∷◌ y) (remove_absent x l h.1))

pub remove_split :
    (x : ℕ) (pre post : List ℕ)
    → All (λ y. y ≢ x) pre × All (λ y. y ≢ x) post
    → remove (λ k. k == x) (pre ++ x ∷ post) ≡ pre ++ post
unfolding remove
remove_split x [] post h =
    if_cases (λ k. k ≡ post) (x == x) (remove (λ k. k == x) post) (x ∷ remove (λ k. k == x) post)
      (λ e. remove_absent x post h.1) (λ e. absurd (ground (arith, e)))
remove_split x (y ∷ pre) post h =
    if_cases (λ k. k ≡ y ∷ pre ++ post) (y == x) (remove (λ k. k == x) (pre ++ x ∷ post)) _
      (λ e. absurd (h.0.0 ((==_iff y x).0 e)))
      (λ e. ap (◌∷◌ y) (remove_split x pre post (h.0.1, h.1)))

pub after_split :
    (x : ℕ) (pre post : List ℕ) → All (λ y. y ≢ x) pre → after x (pre ++ x ∷ post) ≡ begin post
unfolding after
after_split x [] [] h = ground arith
after_split x [] (y ∷ post) h = ground arith
after_split x (y ∷ pre) post h =
    if_cases (λ k. k ≡ begin post) (y == x) _ (after x (pre ++ x ∷ post))
      (λ e. absurd (h.0 ((==_iff y x).0 e))) (λ e. after_split x pre post h.1)

both : (P Q R : ℕ → Type 0) (l : List ℕ) → ((x : ℕ) → P x → Q x → R x) → All P l → All Q l → All R l
both P Q R [] f a b = tt
both P Q R (x ∷ l) f a b = (f x a.0 b.0, both P Q R l f a.1 b.1)

-- A main process that was released is deleted and leaves the list.
pub reaped-IsWellFormed :
    (n : ℕ) (s : System)
    → IsWellFormed s
    → IsMain s.process_map n
    → IsWellFormed (record (remove_from_process_map n s) {
      scheduler_list = remove (λ k. k == n) s.scheduler_list;
    })
unfolding remove_from_process_map
reaped-IsWellFormed n s w (h, e, g) = record {
  sound = λ m.
      IsSound-erase_apart s.process_map m n
        (λ h' f.
          All-map (ThreadOf s.process_map m) (λ u. u ≢ n) h'.thread_list
            (λ u (a, q, b, c) p.
              let same : some q ≡ some h = sym b ∙ ap (λ j. shape j s.process_map) p ∙ e in
              let eq : m ≡ n = ground (arith, same, c, g) in a (p ∙ sym eq))
            (w.sound m h' f).0)
        (w.sound m);
  scheduled =
      both (IsMain s.process_map) (λ k. k ≢ n) (IsMain (erase n s.process_map))
        (remove (λ k. k == n) s.scheduler_list)
        (λ k (q, f, j) ne. (q, shape-erase_ne k n s.process_map ne ∙ f, j))
        (remove-All (IsMain s.process_map) n s.scheduler_list w.scheduled)
        (remove_apart n s.scheduler_list);
  distinct = remove-Distinct n s.scheduler_list w.distinct;
  answering = IsAnswering-erase n s w.answering;
}
