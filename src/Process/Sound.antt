-- ===== src/Process/Sound.antt =====
-- What the scheduler relies on: the processes in its list and the threads of a process are in the map; and
-- what the deletion of the threads of one process keeps of that.
use upanix_os.Base.{ℕ, ◌≡◌, refl, sym, ap, ◌∙◌, ◌≢◌, some, List, arith, All-map}
use mathlib.Core.Option
use upanix_os.Process.State.{Process, System}
use upanix_os.Process.Store.{lookup, erase, release, remove_from_process_map}
use upanix_os.Process.Shape.{
  Shape, shape_of, shape, ThreadOf, IsSound, SameShapes, Within, erase-Within, IsSound-erase,
  shape-erase_ne, ThreadOf-SameShapes,
}
use upanix_os.Process.Answering.{IsAnswering, IsAnswering-erase}
use upanix_os.Process.Quiet.{IsQuiet, IsQuiet-trans, release-IsQuiet}

-- In the map, as its own main thread.
abbrev pub IsMain : List Process → ℕ → Type 0
IsMain l n = (h : Shape) × (shape n l ≡ some h) × (h.main ≡ n)

-- Every process but `n` has sound threads.
abbrev pub SoundBut : ℕ → List Process → Type 0
SoundBut n l = (m : ℕ) → m ≢ n → IsSound l m

-- `t` was a thread of `n`, if it is in the map still.
abbrev pub Leaving : List Process → ℕ → ℕ → Type 0
Leaving l n t = (t ≢ n) × ((q : Shape) → shape t l ≡ some q → q.main ≡ n)

abbrev pub KeepsMains : List Process → List Process → Type 0
KeepsMains l k = (m : ℕ) → IsMain l m → IsMain k m

pub IsSound-SameShapes : (l k : List Process) (m : ℕ) → SameShapes l k → IsSound l m → IsSound k m
IsSound-SameShapes l k m e s h f =
    let (ts, nx, d) = s h (sym (e m) ∙ f) in
    (
      All-map (ThreadOf l m) (ThreadOf k m) h.thread_list (λ t. ThreadOf-SameShapes l k m t e) ts,
      nx,
      d,
    )

pub IsMain-SameShapes : (l k : List Process) → SameShapes l k → KeepsMains l k
IsMain-SameShapes l k e m (h, f, g) = (h, e m ∙ f, g)

pub Leaving-Within : (l k : List Process) (n t : ℕ) → Within l k → Leaving l n t → Leaving k n t
Leaving-Within l k n t w (ne, f) = (ne, λ q e. f q (w t q e))

pub SameShapes-Within : (l k : List Process) → SameShapes l k → Within l k
SameShapes-Within l k e n h f = sym (e n) ∙ f

-- What the deletion of threads of `n` keeps.
abbrev pub Deletes : ℕ → System → System → Type 0
Deletes n s s' =
    SoundBut n s'.process_map
    × KeepsMains s.process_map s'.process_map
    × (s'.scheduler_list ≡ s.scheduler_list)
    × (shape n s'.process_map ≡ shape n s.process_map)
    × (s'.current_process_id ≡ s.current_process_id)
    × (IsAnswering s → IsAnswering s')

pub erase-KeepsMains : (l : List Process) (n t : ℕ) → Leaving l n t → KeepsMains l (erase t l)
erase-KeepsMains l n t (ne, f) m (h, e, g) =
    let apart : m ≢ t =
      λ p. let k = f h (ap (λ j. shape j l) (sym p) ∙ e) in ne (ground (arith, p, k, g)) in
    (h, shape-erase_ne m t l apart ∙ e, g)

-- One thread of `n` is deleted.
pub delete_one :
    (n t : ℕ) (q : Shape) (s : System)
    → SoundBut n s.process_map
    → shape t s.process_map ≡ some q
    → Leaving s.process_map n t
    → Deletes n s (remove_from_process_map t s)
unfolding remove_from_process_map
delete_one n t q s so e lv = (
  λ m ne. IsSound-erase s.process_map m n t q e (lv.1 q e) ne (so m ne),
  erase-KeepsMains s.process_map n t lv,
  refl,
  shape-erase_ne n t s.process_map (λ p. lv.0 (sym p)),
  refl,
  IsAnswering-erase t s,
)

pub Deletes-after_quiet : (n : ℕ) (s t u : System) → IsQuiet s t → Deletes n t u → Deletes n s u
Deletes-after_quiet n s t u (a, b, b', b'', r) (c, d, e, f, g, i) = (
  c,
  λ m h. d m (IsMain-SameShapes s.process_map t.process_map a m h),
  e ∙ b,
  f ∙ a n,
  g ∙ b',
  λ k. i (b'' k),
)

pub Deletes-trans : (n : ℕ) (s t u : System) → Deletes n s t → Deletes n t u → Deletes n s u
Deletes-trans n s t u (a, b, c, d, e, f) (a', b', c', d', e', f') =
    (a', λ m h. b' m (b m h), c' ∙ c, d' ∙ d, e' ∙ e, (λ k. f' (f k)))

pub remove-Within :
    (t : ℕ) (s : System) → Within s.process_map (remove_from_process_map t s).process_map
unfolding remove_from_process_map
remove-Within t s = erase-Within t s.process_map

-- A thread is destroyed, if it is not yet, released and deleted.
pub delete_released :
    (n t : ℕ) (p : Process) (s ended : System)
    → SoundBut n s.process_map
    → lookup t s.process_map ≡ some p
    → Leaving s.process_map n t
    → IsQuiet s ended
    → Deletes n s (remove_from_process_map t (release t ended))
      × Within s.process_map (remove_from_process_map t (release t ended)).process_map
delete_released n t p s ended so e lv q =
    let u = release t ended in
    let r : IsQuiet s u = IsQuiet-trans s ended u q (release-IsQuiet t ended) in
    let w = SameShapes-Within s.process_map u.process_map r.0 in
    let here : shape t u.process_map ≡ some (shape_of p) = r.0 t ∙ ap (Option.map shape_of) e in
    let one =
      delete_one n t (shape_of p) u
        (λ m ne. IsSound-SameShapes s.process_map u.process_map m r.0 (so m ne)) here
        (Leaving-Within s.process_map u.process_map n t w lv) in
    (
      Deletes-after_quiet n s u (remove_from_process_map t u) r one,
      λ m h f. w m h (remove-Within t u m h f),
    )
