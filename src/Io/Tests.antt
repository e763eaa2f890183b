-- ===== src/Io/Tests.antt =====
-- A child whose standard output stands for that of its parent, and a short write; the theorems at them.
use upanix_os.Base.{
  ℕ, ◌%◌, ◌≡◌, refl, true, false, none, some, List, arith, ◌==◌, get_elem?, length,
  length-replicate, replicate, Bool, ltb, lt→ltb, ◌+◌, if◌then◌else◌,
}
use upanix_os.Base.Int.{ℤ, pos, negsuc, ◌+ℤ◌}
use upanix_os.Io.Table.{
  stream, redirect, Descriptor, DescriptorTable, Tables, ◌is◌, get, get_real, free,
}
use upanix_os.Io.Redirect.{same_place, free-redirect}
use upanix_os.Io.File.{
  FileDescriptor, seek_cur, seek, limit, file_write, byte_at, AcceptsWithin, write-byte,
}

-- The kernel's stream, which process 1 redirects to, and process 2 to that redirection.
abbrev root_stdout : Descriptor
root_stdout = record { id = 1; mode = 0; ref_count = pos 2; kind = stream 0 4096 }

abbrev parent_stdout : Descriptor
parent_stdout = record { id = 1; mode = 0; ref_count = pos 2; kind = redirect (negsuc 0) 1 }

abbrev child_stdout : Descriptor
child_stdout = record { id = 1; mode = 0; ref_count = pos 1; kind = redirect (pos 1) 1 }

abbrev holding : Descriptor → DescriptorTable
holding d = record { fd_id_counter = 2; size = 1; iod_map = λ k. if k == 1 then some d else none }

abbrev tables : Tables
tables p =
    if p is negsuc 0
    then some (holding root_stdout)
    else if p is pos 1
    then some (holding parent_stdout)
    else if p is pos 2
    then some (holding child_stdout)
    else none

found_child : get (pos 2) 1 tables ≡ some child_stdout
unfolding get
found_child = refl

found_parent : get (pos 1) 1 tables ≡ some parent_stdout
unfolding get
found_parent = refl

found_root : get (negsuc 0) 1 tables ≡ some root_stdout
unfolding get
found_root = refl

leads_to_root : get_real 1 (pos 1) 1 tables ≡ some (negsuc 0, 1)
unfolding get_real
leads_to_root = refl

-- The count of the parent's redirection, 2 with the child's, stays 2.
free-redirect_example :
    (w' : Tables) × (free 1 (pos 2) 1 tables ≡ some w')
    × (get (pos 2) 1 w' ≡ none)
    × (get (negsuc 0) 1 w' ≡ some (record root_stdout { ref_count = pos 2 +ℤ negsuc 0 }))
    × ((p : ℤ) (f : ℕ)
        → same_place p f (pos 2) 1 ≡ false
        → same_place p f (negsuc 0) 1 ≡ false
        → get p f w' ≡ get p f tables)
free-redirect_example =
    free-redirect 1 1 1 1 (pos 2) (pos 1) (negsuc 0) child_stdout root_stdout tables found_child
      refl refl leads_to_root found_root refl

abbrev at_5 : FileDescriptor
at_5 = record { offset = 5; file_size = 9 }

-- `n` bytes
unfoldable sevens : ℕ → List ℕ
sevens n = replicate n 7

length-sevens : (n : ℕ) → length (sevens n) ≡ n
unfolding sevens
length-sevens n = length-replicate n 7

abbrev not_empty : ℕ → List ℕ → Bool
not_empty o bytes = ltb 0 (length bytes)

not_empty-AcceptsWithin : AcceptsWithin not_empty 5 (5 + 1048580)
not_empty-AcceptsWithin o bytes some_bytes lo hi = lt→ltb 0 (length bytes) some_bytes

-- More than 1 MB
write-byte_example :
    (calls : List (ℕ × List ℕ)) × (file_write not_empty true (sevens 1048580) 1048580 at_5
      ≡ some (calls, record at_5 { offset = 5 + 1048580 }, true))
    × (byte_at (5 + 1048577) calls ≡ get_elem? (sevens 1048580) (1048577 % limit))
write-byte_example =
    write-byte not_empty 1048577 1048580 (sevens 1048580) at_5 not_empty-AcceptsWithin (omega arith)
      (omega arith) (omega (arith, length-sevens 1048580))

seek_back : seek seek_cur (negsuc 1) at_5 ≡ some (record { offset = 3; file_size = 9 })
unfolding seek
seek_back = refl

seek_too_far_back : seek seek_cur (negsuc 6) at_5 ≡ none
unfolding seek
seek_too_far_back = refl
