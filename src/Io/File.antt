-- ===== src/Io/File.antt =====
-- io/FileDescriptor.cpp: seek, and the calls of Directory_FileWrite that write makes.
use upanix_os.Base.{
  ℕ, zero, suc, ◌+◌, ◌-◌, ◌%◌, ◌^◌, ◌≤◌, ◌<◌, ◌≡◌, refl, sym, ap, ◌∙◌, ◌&&◌, ◌>>=◌, Bool, true,
  false, Option, none, some, List, [], ◌∷◌, arith, ltb, leb, ◌==◌, min, length, take, get_elem?,
  length-take, if◌then◌else◌, if_cases,
}
use mathlib.Core.Path.{subst}
use native.Mathlib.Decide.{dec_lt}
use upanix_os.Base.Int.{ℤ, pos, negsuc}

-- The kinds of seek, with what is no kind.
pub data SeekType : Type 0 where
  seek_set seek_cur seek_end seek_other : SeekType

pub record FileDescriptor : Type 0 where
  pub offset : ℕ
  pub file_size : ℕ

-- An int is added to a number of 32 bits, as a number of 32 bits.
unfoldable pub add_32 : ℤ → ℕ → ℕ
add_32 (pos n) k = (n + k) % 2 ^ 32
add_32 (negsuc n) k = (2 ^ 32 - (n + 1) % 2 ^ 32 + k) % 2 ^ 32

-- A number of 32 bits as an int.
unfoldable pub to_int : ℕ → ℤ
to_int n = if ltb n (2 ^ 31) then pos n else negsuc (2 ^ 32 - n - 1)

-- seek; the exceptions are none.
unfoldable pub seek_offset : SeekType → ℤ → FileDescriptor → Option ℤ
unfolding add_32 to_int
seek_offset seek_set off f = some off
seek_offset seek_cur off f = some (to_int (add_32 off f.offset))
seek_offset seek_end off f = some (to_int (add_32 off f.file_size))
seek_offset seek_other off f = none

unfoldable pub seek : SeekType → ℤ → FileDescriptor → Option FileDescriptor
unfolding seek_offset
seek t off f = elim (seek_offset t off f) [
  | none ↦ none
  | some (negsuc _) ↦ none
  | some (pos n) ↦ some (record f { offset = n })
]

-- 1 MB
abbrev pub limit : ℕ
limit = 1048576

-- A write: the calls of Directory_FileWrite that were made, each with the offset in the file and the bytes that
-- it is given, the offset of the descriptor then, and whether all went well. `accepts` says which calls
-- Directory_FileWrite carries out; the exception of another one ends the write.
abbrev pub Written : Type 0
Written = List (ℕ × List ℕ) × (ℕ × Bool)

-- A call before the others
abbrev with_call : ℕ → List ℕ → Option Written → Option Written
with_call o bytes w = w >>= λ v. some ((o, bytes) ∷ v.0, v.1)

-- The loop of write; every round but the last writes 1 MB. A loop that goes on after `fuel` rounds is none.
unfoldable pub write_loop : (ℕ → List ℕ → Bool) → ℕ → List ℕ → ℕ → ℕ → Option Written
write_loop accepts zero buffer offset inc = none
write_loop accepts (suc fuel) buffer offset inc =
    let n = min inc limit in
    let bytes = take n buffer in
    let next = (offset + n) % 2 ^ 32 in
    let rest = write_loop accepts fuel buffer next (inc - n) in
    if accepts offset bytes
    then if inc - n == 0
      then some ((offset, bytes) ∷ [], (next, true))
      else with_call offset bytes rest
    else some ([], (offset, false))

abbrev with_descriptor :
    FileDescriptor → Option Written → Option (List (ℕ × List ℕ) × FileDescriptor × Bool)
with_descriptor f none = none
with_descriptor f (some (calls, (offset, ok))) = some (calls, record f { offset = offset }, ok)

-- write: the calls, the descriptor after them and whether all went well; the exception for a mode without write
-- access is none.
unfoldable pub file_write :
    (ℕ → List ℕ → Bool)
    → Bool
    → List ℕ
    → ℕ
    → FileDescriptor
    → Option (List (ℕ × List ℕ) × FileDescriptor × Bool)
unfolding write_loop
file_write accepts may buffer len f =
    if may then with_descriptor f (write_loop accepts (suc len) buffer f.offset len) else none

-- The byte that the calls leave at a place in the file.
abbrev pub byte_at : ℕ → List (ℕ × List ℕ) → Option ℕ
byte_at k [] = none
byte_at k ((o, bytes) ∷ calls) =
    if leb o k && ltb k (o + length bytes) then get_elem? bytes (k - o) else byte_at k calls

get_elem?-take : (n i : ℕ) (l : List ℕ) → i < n → get_elem? (take n l) i ≡ get_elem? l i
get_elem?-take zero i l h = absurd (omega arith)
get_elem?-take (suc n) i [] h = refl
get_elem?-take (suc n) zero (x ∷ l) h = refl
get_elem?-take (suc n) (suc i) (x ∷ l) h = get_elem?-take n i l (omega arith)

-- Directory_FileWrite carries out the calls that stay within a range of the file.
abbrev pub AcceptsWithin : (ℕ → List ℕ → Bool) → ℕ → ℕ → Type 0
AcceptsWithin accepts low top =
    (o : ℕ) (bytes : List ℕ)
    → 0 < length bytes
    → low ≤ o
    → o + length bytes ≤ top
    → accepts o bytes ≡ true

-- The loop went well, and left the offset at `end`.
abbrev LoopEnds : ℕ → Option Written → Type 0
LoopEnds end none = ⊥
LoopEnds end (some w) = (w.1.0 ≡ end) × (w.1.1 ≡ true)

-- Its calls leave the byte `b` at a place.
abbrev LoopLeaves : ℕ → Option ℕ → Option Written → Type 0
LoopLeaves k b none = ⊥
LoopLeaves k b (some w) = byte_at k w.0 ≡ b

LoopEnds-with_call :
    (end o : ℕ) (bytes : List ℕ) (w : Option Written)
    → LoopEnds end w
    → LoopEnds end (with_call o bytes w)
LoopEnds-with_call end o bytes none h = h
LoopEnds-with_call end o bytes (some w) h = h

-- A call before the others, which writes elsewhere, and one which writes the byte.
LoopLeaves-after :
    (k o : ℕ) (bytes : List ℕ) (b : Option ℕ) (w : Option Written)
    → (leb o k && ltb k (o + length bytes)) ≡ false
    → LoopLeaves k b w
    → LoopLeaves k b (with_call o bytes w)
LoopLeaves-after k o bytes b none apart h = h
LoopLeaves-after k o bytes b (some w) apart h = rw apart h

LoopLeaves-first :
    (end k o : ℕ) (bytes : List ℕ) (b : Option ℕ) (w : Option Written)
    → (leb o k && ltb k (o + length bytes)) ≡ true
    → get_elem? bytes (k - o) ≡ b
    → LoopEnds end w
    → LoopLeaves k b (with_call o bytes w)
LoopLeaves-first end k o bytes b none here h f = f
LoopLeaves-first end k o bytes b (some w) here h f = rw here h

-- One round of the loop, when its call is carried out.
write_round :
    (accepts : ℕ → List ℕ → Bool) (fuel offset inc : ℕ) (buffer : List ℕ)
    → AcceptsWithin accepts offset (offset + inc)
    → offset + inc < 2 ^ 32
    → 0 < inc
    → inc ≤ length buffer
    → write_loop accepts (suc fuel) buffer offset inc ≡ (
        if inc - min inc limit == 0
        then some ((offset, take (min inc limit) buffer) ∷ [], (offset + min inc limit, true))
        else with_call offset
            (take (min inc limit) buffer)
            (write_loop accepts fuel buffer (offset + min inc limit) (inc - min inc limit)))
unfolding write_loop
write_round accepts fuel offset inc buffer ac fits some_bytes b =
    let n = min inc limit in
    let len : length (take n buffer) ≡ n = omega (arith, length-take n buffer) in
    let next : (offset + n) % 2 ^ 32 ≡ offset + n = omega (arith, fits) in
    let yes : accepts offset (take n buffer) ≡ true =
      ac offset (take n buffer) (omega (arith, len, some_bytes)) (omega arith)
        (omega (arith, len)) in
    rw (yes, next) refl

AcceptsWithin-rest :
    (accepts : ℕ → List ℕ → Bool) (offset inc n : ℕ)
    → n ≤ inc
    → AcceptsWithin accepts offset (offset + inc)
    → AcceptsWithin accepts (offset + n) (offset + n + (inc - n))
AcceptsWithin-rest accepts offset inc n le ac o bytes some_bytes lo hi =
    ac o bytes some_bytes (omega (arith, lo)) (omega (arith, hi, le))

write_loop-end :
    (accepts : ℕ → List ℕ → Bool) (fuel offset inc : ℕ) (buffer : List ℕ)
    → AcceptsWithin accepts offset (offset + inc)
    → offset + inc < 2 ^ 32
    → inc < fuel
    → 0 < inc
    → inc ≤ length buffer
    → LoopEnds (offset + inc) (write_loop accepts fuel buffer offset inc)
write_loop-end accepts zero offset inc buffer ac fits f h b = absurd (omega arith)
write_loop-end accepts (suc fuel) offset inc buffer ac fits f h b =
    let n = min inc limit in
    subst (LoopEnds (offset + inc)) (sym (write_round accepts fuel offset inc buffer ac fits h b)) (
      if_cases (LoopEnds (offset + inc)) (inc - n == 0) _ _ (λ z. (ground (arith, z), refl))
        (λ z. LoopEnds-with_call (offset + inc) offset (take n buffer) _ (
          subst (λ e. LoopEnds e (write_loop accepts fuel buffer (offset + n) (inc - n)))
            (omega arith)
            (write_loop-end accepts fuel (offset + n) (inc - n) buffer
              (AcceptsWithin-rest accepts offset inc n (omega arith) ac) (omega (arith, fits))
              (omega arith) (ground (arith, z)) (omega arith)))))

write_loop-byte :
    (accepts : ℕ → List ℕ → Bool) (fuel i offset inc : ℕ) (buffer : List ℕ)
    → AcceptsWithin accepts offset (offset + inc)
    → offset + inc < 2 ^ 32
    → inc < fuel
    → i < inc
    → inc ≤ length buffer
    → LoopLeaves
        (offset + i)
        (get_elem? buffer (i % limit))
        (write_loop accepts fuel buffer offset inc)
write_loop-byte accepts zero i offset inc buffer ac fits f h b = absurd (omega arith)
write_loop-byte accepts (suc fuel) i offset inc buffer ac fits f h b =
    let n = min inc limit in
    let bytes = take n buffer in
    let len : length bytes ≡ n = omega (arith, length-take n buffer) in
    let P = LoopLeaves (offset + i) (get_elem? buffer (i % limit)) in
    let here : i < n → get_elem? bytes (offset + i - offset) ≡ get_elem? buffer (i % limit) = λ lt.
      let back : offset + i - offset ≡ i = omega arith in
      let small : i % limit ≡ i = omega arith in
      ap (get_elem? bytes) back
      ∙ get_elem?-take n i buffer lt
      ∙ ap (get_elem? buffer) (sym small) in
    let ac' = AcceptsWithin-rest accepts offset inc n (omega arith) ac in
    subst P (sym (write_round accepts fuel offset inc buffer ac fits (omega arith) b)) (
      if_cases P (inc - n == 0) _ _
        (λ z.
          let lt : i < n = ground (arith, z) in
          let in_call : (leb offset (offset + i) && ltb (offset + i) (offset + length bytes))
              ≡ true =
            ground (arith, len, lt) in
          rw in_call (here lt))
        (λ z.
          let more : 0 < inc - n = ground (arith, z) in
          elim (dec_lt i n) [
            | yes lt ↦
                LoopLeaves-first (offset + n + (inc - n)) (offset + i) offset bytes _ _
                  (ground (arith, len, lt)) (here lt)
                  (write_loop-end accepts fuel (offset + n) (inc - n) buffer ac'
                    (omega (arith, fits)) (omega (arith, more)) more (omega arith))
            | no ge ↦
                let place : offset + n + (i - n) ≡ offset + i = omega (arith, ge) in
                let wrap : (i - n) % limit ≡ i % limit = omega (arith, ge, more) in
                LoopLeaves-after (offset + i) offset bytes _ _ (ground (arith, len, ge)) (
                  subst
                    (λ k.
                      LoopLeaves k (get_elem? buffer (i % limit))
                        (write_loop accepts fuel buffer (offset + n) (inc - n)))
                    place
                    (subst
                      (λ j.
                        LoopLeaves (offset + n + (i - n)) (get_elem? buffer j)
                          (write_loop accepts fuel buffer (offset + n) (inc - n)))
                      wrap
                      (write_loop-byte accepts fuel (i - n) (offset + n) (inc - n) buffer ac'
                        (omega (arith, fits)) (omega (arith, more)) (omega (arith, ge))
                        (omega arith))))
          ]))

-- A write of at least one byte, with access, from a buffer that has the bytes, that ends within 32 bits of the file.
-- If Directory_FileWrite carries out each call with bytes for that range of the file, the write succeeds and moves the
-- offset by its length. The byte of the file at a place is the one that stands in the first megabyte of the buffer
-- at that place modulo 1 MB: right for up to 1 MB, and the first megabyte again and again for more.
pub write-byte :
    (accepts : ℕ → List ℕ → Bool) (i len : ℕ) (buffer : List ℕ) (f : FileDescriptor)
    → AcceptsWithin accepts f.offset (f.offset + len)
    → f.offset + len < 2 ^ 32
    → i < len
    → len ≤ length buffer
    → (calls : List (ℕ × List ℕ)) × (file_write accepts true buffer len f
        ≡ some (calls, record f { offset = f.offset + len }, true))
      × (byte_at (f.offset + i) calls ≡ get_elem? buffer (i % limit))
unfolding file_write
write-byte accepts i len buffer f ac fits h b =
    outcome i len buffer f (write_loop accepts (suc len) buffer f.offset len)
      (write_loop-end accepts (suc len) f.offset len buffer ac fits (omega arith) (omega arith) b)
      (write_loop-byte accepts (suc len) i f.offset len buffer ac fits (omega arith) h b)
  where
    outcome :
        (i len : ℕ) (buffer : List ℕ) (f : FileDescriptor) (o : Option Written)
        → LoopEnds (f.offset + len) o
        → LoopLeaves (f.offset + i) (get_elem? buffer (i % limit)) o
        → (calls : List (ℕ × List ℕ)) × (with_descriptor f o
            ≡ some (calls, record f { offset = f.offset + len }, true))
          × (byte_at (f.offset + i) calls ≡ get_elem? buffer (i % limit))
    outcome i len buffer f none e l = absurd e
    outcome i len buffer f (some (calls, (offset, ok))) (e, t) l = (calls, rw (e, t) refl, l)
