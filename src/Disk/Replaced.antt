-- ===== src/Disk/Replaced.antt =====
-- drivers/DiskCache.cpp: ReplaceCache, which makes room for a sector.
use upanix_os.Base.{
  ℕ, Bool, true, false, none, some, inl, inr, ◌⊎◌, List, [], ◌∷◌, ◌≡◌, refl, ◌∙◌, arith,
  if◌then◌else◌, if_cases, option_some, ◌≢◌, Bool-cases,
}
use upanix_os.Disk.Cache.{Sector, DiskCache, elem, next_clean, is_empty, exchange, replace_cache}
use upanix_os.Disk.Drive.{DiskDrive}
use upanix_os.Disk.Coherent.{
  content, cached, listed, dirty, Once, IsCoherent, Step, ==_refl, tree_insert-Step,
  tree_delete-Step,
}

-- What the loop finds: a sector of the list that is not dirty, and a part of the list without it.
next_clean-Found :
    (dirty_list : List ℕ) (xs : List ℕ)
    → Once xs
    → (next_clean dirty_list xs ≡ none)
      ⊎ ((x : ℕ) × (rest : List ℕ) × (next_clean dirty_list xs ≡ some (x, rest))
          × ((elem x xs ≡ true)
              × (elem x dirty_list ≡ false)
              × (elem x rest ≡ false)
              × Once rest
              × ((j : ℕ) → elem j rest ≡ true → elem j xs ≡ true)))
unfolding next_clean elem
next_clean-Found ds [] o = inl refl
next_clean-Found ds (y ∷ ys) (a, o) = elim (Bool-cases (elem y ds)) [
  | inl t ↦ elim (next_clean-Found ds ys o) [
    | inl e ↦ inl (rw t e)
    | inr (x, rest, e, (here, clean, gone, once, sub)) ↦
        inr (
          x,
          rest,
          rw t e,
          (ground (arith, here), clean, gone, once, λ j k. ground (arith, sub j k)),
        )
  ]
  | inr f ↦ inr (y, ys, rw f refl, (rw (==_refl y) refl, f, a, o, λ j k. ground (arith, k)))
]

pub Step-trans :
    (k : ℕ) (f : ℕ → Sector) (d t u : DiskDrive)
    → Step k f d t
    → Step k (content t) t u
    → Step k f d u
Step-trans k f d t u a b = record {
  coherent = b.coherent;
  holds = λ j. b.holds j ∙ a.holds j;
  lists = λ j e. b.lists j (a.lists j e);
  stays = λ j n e. b.stays j n (a.lists j e) ∙ a.stays j n e;
  same_drive = (b.same_drive.0 ∙ a.same_drive.0, b.same_drive.1 ∙ a.same_drive.1);
}

-- A part of the list stays, and the mark whether it is built changes.
relist-Step :
    (k : ℕ) (rest : List ℕ) (b : Bool) (d : DiskDrive)
    → IsCoherent d
    → ((j : ℕ) → elem j rest ≡ true → listed d j ≡ true)
    → Once rest
    → Step k
        (content d)
        d
        (record d { cache = record d.cache { release_list = rest; release_list_built = b } })
relist-Step k rest b d h sub once = record {
  coherent = record {
    dirty_cached = h.dirty_cached;
    clean_same = h.clean_same;
    listed_cached = λ j e. h.listed_cached j (sub j e);
    listed_once = once;
  };
  holds = λ j. refl;
  lists = λ j e. elim (Bool-cases (elem j rest)) [
    | inl t ↦ absurd (ground (arith, e, sub j t))
    | inr f ↦ f
  ];
  stays = λ j n e. refl;
  same_drive = (refl, refl);
}

no_member : (j : ℕ) → elem j [] ≢ true
unfolding elem
no_member j e = ground (arith, e)

pub Step-refl : (k : ℕ) (d : DiskDrive) → IsCoherent d → Step k (content d) d d
Step-refl k d h = record {
  coherent = h;
  holds = λ j. refl;
  lists = λ j e. e;
  stays = λ j n e. refl;
  same_drive = (refl, refl);
}

exchange-Step :
    (k x : ℕ) (rest : List ℕ) (d : DiskDrive)
    → IsCoherent d
    → cached d k ≡ false
    → listed d x ≡ true
    → dirty d x ≡ false
    → elem x rest ≡ false
    → Once rest
    → ((j : ℕ) → elem j rest ≡ true → listed d j ≡ true)
    → (c : DiskCache) × (exchange k (d.disk k) x rest d.cache ≡ (true, c))
      × Step k (content d) d (record d { cache = c })
unfolding exchange
exchange-Step k x rest d h un li cl gone once sub =
    let (c1, e1, un1, s1) = tree_delete-Step k x rest d h sub once gone li cl in
    let d1 : DiskDrive = record d { cache = c1 } in
    let (c2, e2, s2) = tree_insert-Step k d1 s1.coherent (un1 k un) in
    let d2 : DiskDrive = record d { cache = c2 } in
    let b = if is_empty rest then false else c2.release_list_built in
    let c3 : DiskCache = record c2 { release_list_built = b } in
    let s3 = relist-Step k c2.release_list b d2 s2.coherent (λ j e. e) s2.coherent.listed_once in
    (
      c3,
      option_some (λ (r : Bool × DiskCache). r ≡ (true, c3)) _ c1 _ _ e1
          (option_some (λ (r : Bool × DiskCache). r ≡ (true, c3)) _ c2 _ _ e2 refl),
      Step-trans k (content d) d d1 _ s1 (Step-trans k (content d1) d1 d2 _ s2 s3),
    )

-- ReplaceCache for a sector that the disk has already: the drive holds what it held.
pub replace_cache-Step :
    (k : ℕ) (d : DiskDrive)
    → IsCoherent d
    → cached d k ≡ false
    → (c : DiskCache) × (replace_cache k (d.disk k) d.cache ≡ (true, c))
      × Step k (content d) d (record d { cache = c })
unfolding replace_cache
replace_cache-Step k d h un =
    if_cases
      (λ (r : Bool × DiskCache).
        (c : DiskCache) × (r ≡ (true, c)) × Step k (content d) d (record d { cache = c }))
      d.cache.release_list_built _ _
      (λ built.
        elim (next_clean-Found d.cache.dirty_cache_list d.cache.release_list h.listed_once) [
          | inl e ↦ (
            record d.cache { release_list = []; release_list_built = false },
            rw e refl,
            relist-Step k [] false d h (λ j n. absurd (no_member j n)) tt,
          )
          | inr (x, rest, e, (here, clean, gone, once, sub)) ↦
              let (c, eq, step) = exchange-Step k x rest d h un here clean gone once sub in
              (c, rw e eq, step)
        ])
      λ not_built. (d.cache, refl, Step-refl k d h)
