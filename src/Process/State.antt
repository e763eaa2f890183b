-- ===== src/Process/State.antt =====
-- process/ProcessStateInfo.h, process/SchedulableProcess.h, process/ProcessGroup.h and the members of
-- process/ProcessManager.h, with the counters of kernel/PIT.cpp and kernel/IrqManager.cpp that they read.
-- A pointer to a process is its id, and an object that was deleted is no longer in `process_map`.
use upanix_os.Base.{ℕ, ◌≡◌, ◌&&◌, Bool, true, false, Option, List, [], arith, ◌==◌, if◌then◌else◌}
use upanix_os.Base.Int.{ℤ, pos, negsuc, pos_part, neg_part}

-- PROCESS_STATUS
pub data Status : Type 0 where
  new run wait_sleep wait_int wait_event wait_child wait_resource : Status
  wait_kernel_service wait_io_descriptors terminated released : Status

-- IO_OP_TYPES
pub data IoOp : Type 0 where
  io_read io_write : IoOp

-- io_descriptor
pub record IoDescriptor : Type 0 where
  pub fd : ℤ
  pub io_type : IoOp

pub record StateInfo : Type 0 where
  pub sleep_time : ℕ
  pub irq : ℕ
  pub wait_child_proc_id : ℤ
  pub wait_resource_id : ℕ
  pub event_completed : Bool
  pub kernel_service_complete : Bool
  pub io_descriptors : List IoDescriptor

-- NO_PROCESS_ID
abbrev pub no_process_id : ℤ
no_process_id = negsuc 0

-- RESOURCE_NIL
abbrev pub resource_nil : ℕ
resource_nil = 999

-- StdIRQ::NO_IRQ
abbrev pub no_irq : ℕ
no_irq = 999

-- MAX_NO_PROCESS
abbrev pub max_no_process : ℕ
max_no_process = 3500

-- The constructor ProcessStateInfo().
abbrev pub fresh_info : StateInfo
fresh_info = record {
  sleep_time = 0;
  irq = no_irq;
  wait_child_proc_id = no_process_id;
  wait_resource_id = resource_nil;
  event_completed = false;
  kernel_service_complete = false;
  io_descriptors = [];
}

-- Ids are taken from a counter that starts at 0. `threads` is the list of threads that an AutonomousProcess
-- schedules, `next_thread` its iterator: the thread it stands at, or none at the end of the list.
pub record Process : Type 0 where
  pub process_id : ℕ
  pub main_thread_id : ℕ
  pub parent_process_id : ℤ
  pub status : Status
  pub state_info : StateInfo
  pub process_group : ℕ
  pub child_process_ids : List ℕ
  pub threads : List ℕ
  pub next_thread : Option ℕ

pub record Group : Type 0 where
  pub id : ℕ
  pub process_count : ℤ
  pub fg_process_list : List ℕ

-- `pending` counts the interrupts that were signalled and not consumed; `can` answers what canRead and
-- canWrite of a process's descriptor would, none where the table of the process has no such descriptor.
pub record System : Type 0 where
  pub clock_count : ℕ
  pub context_switch : Bool
  pub task_switch : Bool
  pub kernel_mode : Bool
  pub current_process_id : ℤ
  pub upanix_kernel_process_id : ℤ
  pub resource_list : ℕ → Bool
  pub pending : ℕ → ℕ
  pub can : ℕ → IoDescriptor → Option Bool
  pub kernel_mode_state_info : StateInfo
  pub process_map : List Process
  pub scheduler_list : List ℕ
  pub groups : ℕ → Option Group
  pub fg_process_group : Option ℕ
  pub next_pid : ℕ
  pub id_seq : ℕ

infix 50 ◌==ℤ◌
abbrev pub ◌==ℤ◌ : ℤ → ℤ → Bool
a ==ℤ b = (pos_part a == pos_part b) && (neg_part a == neg_part b)

pub ==ℤ→eq : (a b : ℤ) → (a ==ℤ b) ≡ true → a ≡ b
==ℤ→eq a b h = ground arith

-- id < 0
abbrev pub is_negative : ℤ → Bool
is_negative (pos n) = false
is_negative (negsuc n) = true

-- A function with one value changed.
unfoldable pub set_at {ℓ} : {A : Type ℓ} → (ℕ → A) → ℕ → A → ℕ → A
set_at f k v n = if n == k then v else f n

pub set_at_self {ℓ} : {A : Type ℓ} (f : ℕ → A) (k : ℕ) (v : A) → set_at f k v k ≡ v
unfolding set_at
set_at_self f k v = ground arith
