-- ===== src/Tests/Os.antt =====
-- The 1K OS at concrete inputs: its memory and processes, its text functions and its shell.
use mini_kvm.Base.{ℕ, zero, suc, ◌+◌, ◌-◌, ◌*◌, ◌^◌, ◌<◌, ◌≡◌, refl, arith, true}
use mini_kvm.Base.{some, List, [], ◌∷◌, replicate, inl, inr}
use mini_kvm.Base.Int.{ℤ, pos, negsuc, ◌*ℤ◌}
use mini_kvm.Os1k.Memory.{Ram, map_page}
use mini_kvm.Os1k.Memory.Directory.{pd_index}
use mini_kvm.Os1k.Memory.Fresh.{Extends}
use mini_kvm.Os1k.Memory.MapPage.{map_page-Maps, Maps}
use mini_kvm.Os1k.Process.{Created, create_process}
use mini_kvm.Os1k.Process.EmptyDirectory.{cleared, cleared-IsSpace}
use mini_kvm.Os1k.Process.AddressSpace.{cost-le}
use mini_kvm.Os1k.Process.Create.{IsCreated, create_process-IsCreated}
use mini_kvm.Os1k.Sched.{Process, Kernel, empty_slot, runnable, exited, yield_cpu, procs_max}
use mini_kvm.Os1k.Sched.Fair.{IsTable, after, yield_fair}
use mini_kvm.Os1k.Text.{printf, print_decimal, print_magnitude, find_divisor, print_digits}
use mini_kvm.Os1k.Text.Decimal.{Denotes, int_of, print_decimal-Denotes}
use mini_kvm.Os1k.Text.Format.{
  Piece, plain, string, decimal, hex, format_of, args_of, RendersAll, printf_renders,
}
use mini_kvm.Os1k.User.{Line, readline}
use mini_kvm.Os1k.User.Editor
use mini_kvm.Os1k.User.Readline.{Matches, readline_refines}
use mini_kvm.Os1k.User.Typed.{readline_returns}
use mini_kvm.Os1k.Files.{File, fs_init, fs_flush}
use mini_kvm.Os1k.Files.Archive.{AllFiles, fs_init-fs_flush, fs_flush_bounds}
use mini_kvm.Os1k.Shell.{calculate, apply_op, result, trial_division}
use mini_kvm.Os1k.Shell.Answers.{IsAnswer}
use mini_kvm.Os1k.Shell.Parse.{calculate-Denotes}
use mini_kvm.Os1k.Shell.Arithmetic.{Verdict, trial_division-Verdict}

-- Free memory from 2MB on, up to 4MB.
abbrev free_ram : Ram
free_ram = record { mem = λ a. 0xCC; next_paddr = 0x80200000 }

abbrev ram_end : ℕ
ram_end = 0x80400000

abbrev stacks : ℕ → ℕ
stacks slot = 0x80100000 + (slot + 1) * 8208

abbrev no_procs : List Process
no_procs = replicate 8 empty_slot

abbrev shell_image : List ℕ
shell_image = 0xB8 ∷ 0x2A ∷ 0xC3 ∷ []

create_process-IsCreated_example :
    (c : Created) × (create_process ram_end 0x80001200 stacks no_procs shell_image free_ram
      ≡ some c)
    × IsCreated 0x80001200 (stacks c.slot - 20) shell_image no_procs free_ram c
create_process-IsCreated_example =
    create_process-IsCreated ram_end 0x80001200 stacks no_procs shell_image free_ram 0 (omega arith)
      refl (omega arith) refl (omega arith) (omega arith) (omega arith) (omega arith)

map_page-Maps_example :
    (r : Ram) × (map_page ram_end (cleared free_ram) 0x80200000 0x01000000 0x00300000 6 ≡ some r)
    × Extends 0x00200000 0x80200000 (pd_index 0x01000000) (cleared free_ram) r
    × Maps 0x80200000 0x01000000 0x00300000 (cleared free_ram) r
map_page-Maps_example =
    map_page-Maps 0x00200000 ram_end 0x80200000 0x01000000 0x00300000 6 (cleared free_ram)
      (cleared-IsSpace free_ram refl (omega arith)) (omega arith)
      (omega (arith, cost-le 0x80200000 (pd_index 0x01000000) (cleared free_ram))) (omega arith)
      refl (omega arith) refl (omega arith)

-- The idle process, one that has ended, and two that may run, the first of them now.
abbrev four_procs : List Process
four_procs =
    record { pid = 0; state = runnable; sp = 0; page_table = 0x00200000 }
    ∷ record { pid = 2; state = exited; sp = 0; page_table = 0x00210000 }
    ∷ record { pid = 3; state = runnable; sp = 0; page_table = 0x00220000 }
    ∷ record { pid = 4; state = runnable; sp = 0; page_table = 0x00230000 }
    ∷ []

four_procs-IsTable : IsTable four_procs
four_procs-IsTable zero h run = cc
four_procs-IsTable (suc zero) h run = cc
four_procs-IsTable (suc (suc zero)) h run = refl
four_procs-IsTable (suc (suc (suc zero))) h run = refl
four_procs-IsTable (suc (suc (suc (suc i)))) h run = cc

abbrev running : Kernel
running = record { procs = four_procs; current_proc = 2; idle_proc = 0; cr3 = 0x00220000 }

yields : ((yield_cpu running).0.current_proc ≡ 3) × ((yield_cpu running).1 ≡ some (2, 3))
unfolding yield_cpu
yields = (refl, refl)

yield_fair_example : (n : ℕ) × (n < procs_max) × ((after (suc n) running).current_proc ≡ 3)
yield_fair_example = yield_fair running 3 four_procs-IsTable (omega arith) refl

-- -2147483648
least_int :
    print_decimal (2 ^ 31) ≡ some (45 ∷ 50 ∷ 49 ∷ 52 ∷ 55 ∷ 52 ∷ 56 ∷ 51 ∷ 54 ∷ 52 ∷ 56 ∷ [])
unfolding print_decimal print_magnitude find_divisor print_digits
least_int = refl

print_decimal-Denotes_example :
    (out : List ℕ) × (print_decimal (2 ^ 31) ≡ some out) × Denotes out (int_of (2 ^ 31))
print_decimal-Denotes_example = print_decimal-Denotes (2 ^ 31) (omega arith)

-- "n=%d %s %x"
abbrev pieces : List Piece
pieces =
    plain 110
    ∷ plain 61
    ∷ decimal (2 ^ 32 - 7)
    ∷ plain 32
    ∷ string (111 ∷ 107 ∷ [])
    ∷ plain 32
    ∷ hex 0xBEEF
    ∷ []

printf_renders_example :
    (out : List ℕ) × (printf (format_of pieces) (args_of pieces) ≡ some out) × RendersAll pieces out
printf_renders_example = printf_renders pieces (omega arith)

-- 'a', backspace, 'h', 'i', newline
abbrev typed_keys : List ℤ
typed_keys = pos 97 ∷ pos 8 ∷ pos 104 ∷ pos 105 ∷ pos 10 ∷ []

readline_refines_example :
    Matches 8 (readline 8 typed_keys (replicate 8 0xAA)) (Editor.read 7 typed_keys [])
readline_refines_example = readline_refines 8 typed_keys (replicate 8 0xAA) (omega arith) refl

readline_returns_example : (l : Line) × (readline 8 typed_keys (replicate 8 0xAA) ≡ some l)
readline_returns_example =
    readline_returns 8 typed_keys (replicate 8 0xAA) (omega arith) refl
      (inr (inr (inr (inr (inl refl)))))

-- "12" and "-5"
twelve-Denotes : Denotes (49 ∷ 50 ∷ []) (pos 12)
twelve-Denotes = record { digits = omega arith; value = refl; canonical = λ e. omega arith }

minus_five-Denotes : Denotes (45 ∷ 53 ∷ []) (negsuc 4)
minus_five-Denotes = (53 ∷ [], refl, record { digits = omega arith; value = refl; canonical = tt })

calculate-Denotes_example :
    IsAnswer 42 (pos 12) (negsuc 4) (calculate (49 ∷ 50 ∷ 32 ∷ 42 ∷ 32 ∷ 45 ∷ 53 ∷ []))
calculate-Denotes_example =
    calculate-Denotes 0 1 1 42 (49 ∷ 50 ∷ []) (45 ∷ 53 ∷ []) [] (pos 12) (negsuc 4) twelve-Denotes
      minus_five-Denotes (omega arith) (omega arith) refl tt

minus_sixty : apply_op 42 (pos 12) (negsuc 4) ≡ some (result (negsuc 59))
unfolding apply_op ◌*ℤ◌
minus_sixty = refl

trial_division-Verdict_example : Verdict 97 (trial_division 98 97 2)
trial_division-Verdict_example = trial_division-Verdict 97 (omega arith)

-- A file "a" with two bytes.
abbrev one_file : List File
one_file = record { in_use = true; name = 97 ∷ []; contents = 104 ∷ 105 ∷ [] } ∷ []

one_file-AllFiles : AllFiles one_file
one_file-AllFiles = (
  record { name = omega arith; named = omega arith; short = omega arith; small = omega arith },
  tt,
)

fs_init-fs_flush_example : fs_init (fs_flush (λ x. 0xEE) one_file) ≡ some one_file
fs_init-fs_flush_example =
    fs_init-fs_flush (λ x. 0xEE) one_file one_file-AllFiles (omega arith) (omega arith)

fs_flush_bounds_example : fs_flush (λ x. 0xEE) one_file 2560 ≡ 0xEE
fs_flush_bounds_example =
    fs_flush_bounds (λ x. 0xEE) one_file 2560 one_file-AllFiles (omega arith) (omega arith)
