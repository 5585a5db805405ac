-- ===== src/Os1k/Process.antt =====
-- `create_process` of kvm-vmm-x86/os-1k/kernel.c: a slot of the process table, the first stack frame
-- and the address space. The linker places the process table, so the kernel address just behind a
-- slot's `stack` is a parameter, like the address of `user_entry`.
pub mod Frame
pub mod EmptyDirectory
pub mod AddressSpace
pub mod Create
use mini_kvm.Base.{
  ℕ, zero, suc, ◌+◌, ◌-◌, ◌*◌, ◌/◌, Option, none, some, List, [], ◌∷◌, length, set, Bool, true,
  false, if◌then◌else◌,
}
use mini_kvm.Base.{bit_and, u32}
use mini_kvm.GuestMem.{Mem, store}
use mini_kvm.Os1k.Memory.{Ram, phys, page_size, page_rw, alloc_pages, map_range, map_user, ◌>>=◌}
use mini_kvm.Os1k.Sched.{Process, ProcState, unused, runnable, exited, proc_at}

abbrev pub user_base : ℕ
user_base = 0x01000000

abbrev pub stack_top : ℕ
stack_top = 0x01004000

-- `state == PROC_UNUSED`
abbrev pub is_unused : ProcState → Bool
is_unused unused = true
is_unused runnable = false
is_unused exited = false

-- The first slot that is free, from index `i` on; `none` is the PANIC.
unfoldable pub find_slot : List Process → ℕ → Option ℕ
find_slot [] i = none
find_slot (p ∷ procs) i = if is_unused p.state then some i else find_slot procs (i + 1)

-- EBP, EDI, ESI, EBX and the return address, from the end of the stack down.
unfoldable pub push_frame : Mem → (stack_end user_entry : ℕ) → Mem
push_frame m stack_end user_entry =
    let m = store 4 m (phys (stack_end - 4)) 0 in
    let m = store 4 m (phys (stack_end - 8)) 0 in
    let m = store 4 m (phys (stack_end - 12)) 0 in
    let m = store 4 m (phys (stack_end - 16)) 0 in store 4 m (phys (stack_end - 20)) user_entry

abbrev pub pages_for : ℕ → ℕ
pages_for bytes = (bytes + (page_size - 1)) / page_size

abbrev pub code_end : ℕ → ℕ
code_end image_size = user_base + bit_and (u32 (image_size + (page_size - 1))) 0xFFFFF000

-- The four loops.
unfoldable pub map_process : (ram_end page_table : ℕ) → List ℕ → Ram → Option Ram
map_process ram_end page_table image r =
    map_range ram_end page_table page_rw 1024 0x80000000 0 r
    >>= (λ r. map_range ram_end page_table page_rw 1024 0 0 r)
    >>= (λ r. map_user ram_end page_table (pages_for (length image)) user_base image r)
    >>= (λ r.
        map_user ram_end page_table (pages_for (stack_top - code_end (length image)))
          (code_end (length image)) [] r)

-- The new process, by its slot, and what it leaves.
pub record Created : Type 0 where
  pub slot : ℕ
  pub procs : List Process
  pub ram : Ram

abbrev pub finish : (slot sp page_table : ℕ) → List Process → Option Ram → Option Created
finish slot sp page_table procs none = none
finish slot sp page_table procs (some r) = some record {
  slot = slot;
  procs =
      set procs slot
        record { pid = slot + 1; state = runnable; sp = sp; page_table = phys page_table };
  ram = r;
}

abbrev pub with_directory :
    (ram_end slot sp : ℕ) → List Process → List ℕ → Option (ℕ × Ram) → Option Created
with_directory ram_end slot sp procs image none = none
with_directory ram_end slot sp procs image (some (page_table, r)) =
    finish slot sp page_table procs (map_process ram_end page_table image r)

abbrev pub in_slot :
    (ram_end user_entry : ℕ) (stack_end : ℕ → ℕ)
    → List Process
    → List ℕ
    → Ram
    → Option ℕ
    → Option Created
in_slot ram_end user_entry stack_end procs image r none = none
in_slot ram_end user_entry stack_end procs image r (some slot) =
    with_directory ram_end slot (stack_end slot - 20) procs image
      (alloc_pages ram_end 1 record r { mem = push_frame r.mem (stack_end slot) user_entry })

-- `none` stands for a PANIC.
unfoldable pub create_process :
    (ram_end user_entry : ℕ) (stack_end : ℕ → ℕ) → List Process → List ℕ → Ram → Option Created
unfolding find_slot alloc_pages map_process
create_process ram_end user_entry stack_end procs image r =
    in_slot ram_end user_entry stack_end procs image r (find_slot procs 0)
