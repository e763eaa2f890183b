-- ===== src/Memory/Heap.antt =====
-- The heap of the kernel in memory/DMM.cpp: DMM_AllocateForKernel and DMM_DeAllocateForKernel.
--
-- Memory holds a tracker at each address where the code keeps one; trackers of blocks that are in use or
-- free never overlap. Sums of addresses of the heap do not wrap; the size of a request may.
pub mod Cover
pub mod Chain
pub mod Partition
pub mod Take
mod Count
pub mod Allocate
pub mod Release
mod Tests
use Prim.Native.Nat.{bit_and, bit_xor}
use upanix_os.Base.{
  ℕ, zero, suc, ◌+◌, ◌-◌, ◌*◌, ◌/◌, ◌%◌, ◌^◌, Bool, true, false, ltb, leb, ◌==◌, if◌then◌else◌, not,
  ◌||◌,
}

-- `AllocationUnitTracker`; `next` is the union of `uiNextAUTAddress` and `uiByteStuffForAlign`.
pub record Tracker : Type 0 where
  pub allocated_address : ℕ
  pub return_address : ℕ
  pub size : ℕ
  pub check_sum : ℕ
  pub next : ℕ

pub record Heap : Type 0 where
  pub store : ℕ → Tracker
  pub aut_address : ℕ

pub data HeapError : Type 0 where
  bad_align : HeapError
  heap_corrupted : HeapError
  out_of_memory : HeapError
  bad_address : HeapError
  double_delete : HeapError
  endless_list : HeapError

pub data HeapResult (A : Type 0) : Type 0 where
  done : A → HeapResult A
  thrown : HeapError → HeapResult A

abbrev pub tracker_size : ℕ
tracker_size = 20

abbrev pub mem_kernel_heap_size : ℕ
mem_kernel_heap_size = 0x3000000

-- `DMM_GetByteStuffForAlign`
pub get_byte_stuff_for_align : ℕ → ℕ → ℕ
get_byte_stuff_for_align address align =
    if align == 0 then 0 else if address % align == 0 then 0 else align - address % align

-- `DMM_CheckAlignNumber`, with `Bit::IsPowerOfTwo`.
abbrev pub is_align_number : ℕ → Bool
is_align_number align = (align == 0) || (bit_and align (align - 1) == 0)

-- `calculateCheckSum`
pub calculate_check_sum : Tracker → ℕ
calculate_check_sum t =
    bit_xor (bit_xor (bit_xor t.allocated_address t.size) t.return_address) t.next

-- `updateCheckSum`
abbrev pub update_check_sum : Tracker → Tracker
update_check_sum t = record t { check_sum = calculate_check_sum t }

abbrev pub put : (ℕ → Tracker) → ℕ → Tracker → ℕ → Tracker
put store at t a = if a == at then t else store a

-- A free block, with the one after it.
abbrev pub free_tracker : ℕ → ℕ → ℕ → Tracker
free_tracker address size next = update_check_sum (record {
  allocated_address = address;
  return_address = 0;
  size = size;
  check_sum = 0;
  next = next;
})

-- A block in use, with the bytes before its tracker.
abbrev pub used_tracker : ℕ → ℕ → ℕ → Tracker
used_tracker address size stuff = update_check_sum (record {
  allocated_address = address;
  return_address = address + tracker_size + stuff;
  size = size;
  check_sum = 0;
  next = stuff;
})

-- The block before, or the head of the list, is made to point to `link`.
pub relink : ℕ → ℕ → Heap → Heap
relink prev link h = if prev == 0 then record h { aut_address = link } else record h {
  store = put h.store prev (update_check_sum (record (h.store prev) { next = link }));
}

-- The body of the loop, for a block of `max` bytes at `address` that is large enough: it is parted if more is left
-- than a tracker and a byte.
pub take_from : ℕ → ℕ → ℕ → ℕ → ℕ → ℕ → Heap → ℕ × Heap
take_from need stuff prev address max next h =
    let remaining = max - need in
    let used = λ (size : ℕ). put h.store (address + stuff) (used_tracker address size stuff) in
    let parted = put (used need) (address + need) (free_tracker (address + need) remaining next) in
    (
      address + tracker_size + stuff,
      (if ltb (tracker_size + 1) remaining
          then relink prev (address + need) (record h { store = parted })
          else relink prev next (record h { store = used (need + remaining) })),
    )

abbrev pub take_block : ℕ → ℕ → ℕ → ℕ → Heap → ℕ × Heap
take_block need stuff prev aut h =
    let t = h.store aut in take_from need stuff prev t.allocated_address t.size t.next h

-- The loop of `DMM_AllocateForKernel`.
pub allocate_loop : ℕ → ℕ → ℕ → ℕ → ℕ → Heap → HeapResult (ℕ × Heap)
allocate_loop zero size align prev aut h = thrown endless_list
allocate_loop (suc fuel) size align prev aut h =
    let t = h.store aut in
    let stuff = get_byte_stuff_for_align (t.allocated_address + tracker_size) align in
    let need = (size + tracker_size + stuff) % 2 ^ 32 in
    let rest = allocate_loop fuel size align aut t.next h in
    if aut == 0
    then thrown out_of_memory
    else if not (calculate_check_sum t == t.check_sum)
    then thrown heap_corrupted
    else if leb need t.size
    then done (take_block need stuff prev aut h)
    else rest

-- The heap as one free block, the first time.
pub with_head : ℕ → Heap → Heap
with_head start h =
    if h.aut_address == 0
    then record h {
      store = put h.store start (free_tracker start mem_kernel_heap_size 0);
      aut_address = start;
    }
    else h

-- `DMM_AllocateForKernel`, of a heap that starts at `start`.
pub allocate_for_kernel : ℕ → ℕ → ℕ → Heap → HeapResult (ℕ × Heap)
allocate_for_kernel start size align h =
    let ready = with_head start h in
    if is_align_number align
    then allocate_loop (mem_kernel_heap_size / tracker_size + 2) size align 0 ready.aut_address
        ready
    else thrown bad_align

pub data Dealloc : Type 0 where
  success bad_dealloc : Dealloc

-- `DMM_DeAllocateForKernel`
pub deallocate_for_kernel : ℕ → ℕ → Heap → HeapResult (Dealloc × Heap)
deallocate_for_kernel start address h =
    let t = h.store (address - tracker_size) in
    let base = address - tracker_size - t.next in
    if address == 0
    then done (success, h)
    else if leb address start
    then done (bad_dealloc, h)
    else if not (calculate_check_sum t == t.check_sum)
    then thrown bad_address
    else if t.return_address == 0
    then thrown double_delete
    else done (
      success,
      record h {
        store = put h.store base (free_tracker base t.size h.aut_address);
        aut_address = base;
      },
    )
