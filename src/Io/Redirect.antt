-- ===== src/Io/Redirect.antt =====
-- Redirections: what a read of a table finds after a write, and what becomes of the counts of references.
use upanix_os.Base.{
  ℕ, ◌-◌, ◌&&◌, ◌≡◌, refl, ap, ◌∙◌, inl, inr, Bool, true, false, Option, none, some, ◌>>=◌, arith,
  ◌==◌, if◌then◌else◌, Option-cases, bind_some, option_some, option_cases, if_cases,
}
use mathlib.Core.Option
use upanix_os.Base.Int.{ℤ, pos, negsuc, ◌+ℤ◌, ltb_ℤ}
use upanix_os.Io.Table.{
  Kind, stream, file, null, redirect, Descriptor, DescriptorTable, Tables, ◌is◌, get, with_entry,
  on_table, put_entry, add_ref, get_real, parent_descriptor, new_redirect, drop_parent, free,
}

-- Whether two places in the tables are the same.
abbrev pub same_place : ℤ → ℕ → ℤ → ℕ → Bool
same_place p f q g = (p is q) && (f == g)

pub same_place_refl : (p : ℤ) (f : ℕ) → same_place p f p f ≡ true
same_place_refl p f = ground arith

same_place_sym :
    (p : ℤ) (f : ℕ) (q : ℤ) (g : ℕ) → same_place p f q g ≡ false → same_place q g p f ≡ false
same_place_sym p f q g h = ground arith

-- A change of a table that writes one entry.
abbrev Writes : ℕ → Option Descriptor → (DescriptorTable → DescriptorTable) → Type 0
Writes g v h = (u : DescriptorTable) (k : ℕ) → (h u).iod_map k ≡ (if k == g then v else u.iod_map k)

get-on_table_ne :
    (p q : ℤ) (f g : ℕ) (v : Option Descriptor) (h : DescriptorTable → DescriptorTable) (w : Tables)
    → Writes g v h
    → same_place p f q g ≡ false
    → get p f (on_table q h w) ≡ get p f w
unfolding get on_table
get-on_table_ne p q f g v h w wr ne = at (p is q) (f == g) (w p) refl ne
  where
    at :
        (b c : Bool) (o : Option DescriptorTable)
        → (f == g) ≡ c
        → (b && c) ≡ false
        → ((if b then Option.map h o else o) >>= λ t. t.iod_map f) ≡ (o >>= λ t. t.iod_map f)
    at b c none k e = ground arith
    at false c (some t) k e = refl
    at true true (some t) k e = absurd (ground (arith, e))
    at true false (some t) k e = wr t f ∙ ap (λ x. if x then v else t.iod_map f) k

get-on_table_self :
    (p : ℤ) (f : ℕ) (v : Option Descriptor) (h : DescriptorTable → DescriptorTable)
    (t : DescriptorTable) (w : Tables)
    → Writes f v h
    → w p ≡ some t
    → get p f (on_table p h w) ≡ v
unfolding get on_table
get-on_table_self p f v h t w wr e =
    let here : (p is p) ≡ true = ground arith in
    let own : (f == f) ≡ true = ground arith in
    ap (λ c. (if c then Option.map h (w p) else w p) >>= λ u. u.iod_map f) here
    ∙ ap (λ o. Option.map h o >>= λ u. u.iod_map f) e
    ∙ wr t f
    ∙ ap (λ x. if x then v else t.iod_map f) own

with_entry-Writes : (g : ℕ) (v : Option Descriptor) → Writes g v (with_entry g v)
with_entry-Writes g v u k = refl

-- A descriptor that is found stands in a table.
table_of :
    (p : ℤ) (f : ℕ) (d : Descriptor) (w : Tables)
    → get p f w ≡ some d
    → (t : DescriptorTable) × (w p ≡ some t)
unfolding get
table_of p f d w e = elim (Option-cases (w p)) [
  | inl k ↦ absurd (ground (arith, k, e))
  | inr (t, k) ↦ (t, k)
]

-- One count changes, by the given amount.
pub get-add_ref_self :
    (by p : ℤ) (f : ℕ) (d : Descriptor) (w : Tables)
    → get p f w ≡ some d
    → get p f (add_ref by p f w) ≡ some (record d { ref_count = d.ref_count +ℤ by })
unfolding add_ref put_entry
get-add_ref_self by p f d w e =
    let (t, k) = table_of p f d w e in
    let v = some (record d { ref_count = d.ref_count +ℤ by }) in
    option_some (λ (u : Tables). get p f u ≡ v) (get p f w) d w _ e
      (get-on_table_self p f v (with_entry f v) t w (with_entry-Writes f v) k)

pub get-add_ref_ne :
    (by p q : ℤ) (f g : ℕ) (w : Tables)
    → same_place p f q g ≡ false
    → get p f (add_ref by q g w) ≡ get p f w
unfolding add_ref put_entry
get-add_ref_ne by p q f g w ne =
    option_cases (λ (u : Tables). get p f u ≡ get p f w) (get q g w) w _ refl
      (λ d e.
        let v = some (record d { ref_count = d.ref_count +ℤ by }) in
        get-on_table_ne p q f g v (with_entry g v) w (with_entry-Writes g v) ne)

-- The change of the table that free makes.
abbrev cleared : ℕ → DescriptorTable → DescriptorTable
cleared fd u = with_entry fd none (record u { size = u.size - 1 })

cleared-Writes : (fd : ℕ) → Writes fd none (cleared fd)
cleared-Writes fd u k = refl

parent-redirect :
    (fuel : ℕ) (d : Descriptor) (pp : ℤ) (pd : ℕ) (r : ℤ × ℕ) (w : Tables)
    → d.kind ≡ redirect pp pd
    → get_real fuel pp pd w ≡ some r
    → parent_descriptor fuel d w ≡ some (some r)
unfolding parent_descriptor
parent-redirect fuel d pp pd r w k e =
    ap
      (λ (x : Kind). elim x as (λ _. Option (Option (ℤ × ℕ))) [
        | redirect p f ↦ get_real fuel p f w >>= λ q. some (some q)
        | stream a b ↦ some none
        | file ↦ some none
        | null ↦ some none
      ])
      k
    ∙ ap (λ (o : Option (ℤ × ℕ)). o >>= λ q. some (some q)) e

-- A redirection that is freed: the reference that goes is one of the real descriptor at the end of the
-- way, wherever the redirection leads to; all other descriptors keep their counts, its parent too unless
-- that is the real one.
pub free-redirect :
    (fuel fd pd rd : ℕ) (pid pp rp : ℤ) (d r : Descriptor) (w : Tables)
    → get pid fd w ≡ some d
    → d.kind ≡ redirect pp pd
    → ltb_ℤ (pos 1) d.ref_count ≡ false
    → get_real fuel pp pd w ≡ some (rp, rd)
    → get rp rd w ≡ some r
    → same_place rp rd pid fd ≡ false
    → (w' : Tables) × (free fuel pid fd w ≡ some w')
      × (get pid fd w' ≡ none)
      × (get rp rd w' ≡ some (record r { ref_count = r.ref_count +ℤ negsuc 0 }))
      × ((p : ℤ) (f : ℕ)
          → same_place p f pid fd ≡ false
          → same_place p f rp rd ≡ false
          → get p f w' ≡ get p f w)
unfolding free drop_parent
free-redirect fuel fd pd rd pid pp rp d r w e k one re ge apart =
    let w1 = add_ref (negsuc 0) rp rd w in
    let (t, te) =
      table_of pid fd d w1
        (get-add_ref_ne (negsuc 0) pid rp fd rd w (same_place_sym rp rd pid fd apart) ∙ e) in
    (
      on_table pid (cleared fd) w1,
      bind_some (λ x. x ≡ some (on_table pid (cleared fd) w1)) (get pid fd w) d _ e
          (if_cases (λ x. x ≡ some (on_table pid (cleared fd) w1)) (ltb_ℤ (pos 1) d.ref_count) none
            _ (λ b. absurd (ground (arith, b, one)))
            (λ b.
              bind_some (λ x. x ≡ some (on_table pid (cleared fd) w1)) (parent_descriptor fuel d w)
                (some (rp, rd)) _ (parent-redirect fuel d pp pd (rp, rd) w k re) refl)),
      get-on_table_self pid fd none (cleared fd) t w1 (cleared-Writes fd) te,
      get-on_table_ne rp pid rd fd none (cleared fd) w1 (cleared-Writes fd) apart
          ∙ get-add_ref_self (negsuc 0) rp rd r w ge,
      λ p f a b.
          get-on_table_ne p pid f fd none (cleared fd) w1 (cleared-Writes fd) a
          ∙ get-add_ref_ne (negsuc 0) p rp f rd w b,
    )

-- A new redirection counts with the descriptor that it names, whatever that leads to.
pub new_redirect_lem :
    (fd pd : ℕ) (pid pp : ℤ) (parent : Descriptor) (w : Tables)
    → get pp pd w ≡ some parent
    → same_place pp pd pid fd ≡ false
    → (d : Descriptor) × (w' : Tables) × (new_redirect pid fd pp pd w ≡ some (d, w'))
      × (d.kind ≡ redirect pp pd)
      × (d.ref_count ≡ pos 1)
      × (get pp pd w' ≡ some (record parent { ref_count = parent.ref_count +ℤ pos 1 }))
      × ((p : ℤ) (f : ℕ) → same_place p f pp pd ≡ false → get p f w' ≡ get p f w)
unfolding new_redirect
new_redirect_lem fd pd pid pp parent w e apart =
    let d : Descriptor = record {
      id = fd;
      mode = parent.mode;
      ref_count = pos 1;
      kind = redirect pp pd;
    } in
    let w1 = add_ref (pos 1) pp pd w in
    (
      d,
      w1,
      bind_some (λ x. x ≡ some (d, w1)) (get pp pd w) parent _ e
          (if_cases (λ x. x ≡ some (d, w1)) (same_place pp pd pid fd) none _
            (λ b. absurd (ground (arith, b, apart))) (λ b. refl)),
      refl,
      refl,
      get-add_ref_self (pos 1) pp pd parent w e,
      λ p f ne. get-add_ref_ne (pos 1) p pp f pd w ne,
    )
