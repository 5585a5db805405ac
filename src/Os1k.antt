-- ===== src/Os1k.antt =====
-- The guest operating system "1K OS" (kvm-vmm-x86/os-1k): its C library, its shell, its kernel.
pub mod Text
pub mod User
pub mod Shell
pub mod Sched
pub mod Memory
pub mod Process
pub mod Switch
pub mod Files
pub mod Syscall
pub mod Boot
