-- ===== src/Io/Table.antt =====
-- io/IODescriptorTable.cpp, io/IODescriptor.h and io/RedirectDescriptor.cpp: the table of descriptors that
-- each process has, and descriptors that stand for one of another table. An exception is none.
use upanix_os.Base.{
  ℕ, zero, suc, ◌+◌, ◌-◌, ◌&&◌, Bool, Option, none, some, ◌>>=◌, leb, ◌==◌, if◌then◌else◌,
}
use mathlib.Core.Option
use upanix_os.Base.Int.{ℤ, pos, negsuc, ◌+ℤ◌, ltb_ℤ, pos_part, neg_part}

-- PROC_SYS_MAX_OPEN_FILES
abbrev pub proc_sys_max_open_files : ℕ
proc_sys_max_open_files = 4096

-- The classes of descriptors. A stream is reduced to the bytes that it holds and the size of its buffer.
pub data Kind : Type 0 where
  stream : ℕ → ℕ → Kind
  file : Kind
  null : Kind
  redirect : ℤ → ℕ → Kind

pub record Descriptor : Type 0 where
  pub id : ℕ
  pub mode : ℕ
  pub ref_count : ℤ
  pub kind : Kind

pub record DescriptorTable : Type 0 where
  pub fd_id_counter : ℕ
  pub size : ℕ
  pub iod_map : ℕ → Option Descriptor

-- GetProcess with iodTable(): the table of each process that there is.
abbrev pub Tables : Type 0
Tables = ℤ → Option DescriptorTable

infix 50 ◌is◌
abbrev pub ◌is◌ : ℤ → ℤ → Bool
a is b = (pos_part a == pos_part b) && (neg_part a == neg_part b)

-- get
unfoldable pub get : ℤ → ℕ → Tables → Option Descriptor
get pid fd w = w pid >>= λ t. t.iod_map fd

abbrev pub with_entry : ℕ → Option Descriptor → DescriptorTable → DescriptorTable
with_entry fd v t = record t { iod_map = λ k. if k == fd then v else t.iod_map k }

-- The table of one process changes.
unfoldable pub on_table : ℤ → (DescriptorTable → DescriptorTable) → Tables → Tables
on_table pid f w q = if q is pid then Option.map f (w q) else w q

-- An entry is written.
unfoldable pub put_entry : ℤ → ℕ → Option Descriptor → Tables → Tables
unfolding on_table
put_entry pid fd v w = on_table pid (with_entry fd v) w

-- incrementRefCount and decrementRefCount of the descriptor in the table
unfoldable pub add_ref : ℤ → ℤ → ℕ → Tables → Tables
unfolding get put_entry ◌+ℤ◌
add_ref by pid fd w = elim (get pid fd w) [
  | none ↦ w
  | some d ↦ put_entry pid fd (some (record d { ref_count = d.ref_count +ℤ by })) w
]

-- getRealNonDupped: where the descriptor that a redirection leads to stands. The fuel is the number of
-- redirections on the way.
unfoldable pub get_real : ℕ → ℤ → ℕ → Tables → Option (ℤ × ℕ)
unfolding get
get_real zero pid fd w =
    get pid fd w >>= λ d. elim d.kind [ redirect pp pd ↦ none | _ ↦ some (pid, fd) ]
get_real (suc fuel) pid fd w = get pid fd w >>= λ d. elim d.kind [
  | redirect pp pd ↦ get_real fuel pp pd w
  | _ ↦ some (pid, fd)
]

-- getParentDescriptor: only a redirection has one, the real descriptor that it leads to.
unfoldable pub parent_descriptor : ℕ → Descriptor → Tables → Option (Option (ℤ × ℕ))
unfolding get_real
parent_descriptor fuel d w = elim d.kind [
  | redirect pp pd ↦ get_real fuel pp pd w >>= λ r. some (some r)
  | _ ↦ some none
]

-- RedirectDescriptor(pid, id, parentDesc)
unfoldable pub new_redirect : ℤ → ℕ → ℤ → ℕ → Tables → Option (Descriptor × Tables)
unfolding get add_ref
new_redirect pid fd pp pd w = get pp pd w >>= λ parent.
    if (pp is pid) && (pd == fd)
    then none
    else some (
      record { id = fd; mode = parent.mode; ref_count = pos 1; kind = redirect pp pd },
      add_ref (pos 1) pp pd w,
    )

-- allocate, with what builds the descriptor for the new number
unfoldable pub allocate :
    ℤ → (ℕ → Tables → Option (Descriptor × Tables)) → Tables → Option (ℕ × Tables)
unfolding on_table
allocate pid builder w = w pid >>= λ t.
    if leb proc_sys_max_open_files t.size
    then none
    else builder t.fd_id_counter
        (on_table pid (λ u. record u { fd_id_counter = u.fd_id_counter + 1 }) w)
      >>= λ r. some (
        t.fd_id_counter,
        on_table pid (λ u. with_entry t.fd_id_counter (some r.0) (record u { size = u.size + 1 }))
            r.1,
      )

-- The parent of a redirection that is freed loses a reference.
unfoldable pub drop_parent : Option (ℤ × ℕ) → Tables → Tables
unfolding add_ref
drop_parent none w = w
drop_parent (some (pp, pd)) w = add_ref (negsuc 0) pp pd w

-- free
unfoldable pub free : ℕ → ℤ → ℕ → Tables → Option Tables
unfolding get parent_descriptor drop_parent on_table
free fuel pid fd w = get pid fd w >>= λ d.
    if ltb_ℤ (pos 1) d.ref_count
    then none
    else parent_descriptor fuel d w >>= λ parent. some (
        on_table pid (λ u. with_entry fd none (record u { size = u.size - 1 }))
          (drop_parent parent w))

-- dup2; the reference to the old descriptor is one to the same object, if it is still there.
unfoldable pub dup2 : ℕ → ℤ → ℕ → ℕ → Tables → Option Tables
unfolding get free new_redirect on_table
dup2 fuel pid old_fd new_fd w = get pid old_fd w >>= λ o. get pid new_fd w >>= λ n.
    free fuel pid new_fd w >>= λ w'. new_redirect pid new_fd pid old_fd w' >>= λ r.
    some (on_table pid (λ u. with_entry new_fd (some r.0) (record u { size = u.size + 1 })) r.1)
