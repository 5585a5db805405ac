-- ===== src/Os1k/Boot/Kept.antt =====
-- The address map of one process while another one is made.
use mini_kvm.Base.{ℕ, ◌+◌, ◌*◌, ◌≤◌, ◌<◌, ◌≡◌, arith}
use mini_kvm.GuestMem.{Mem}
use mini_kvm.GuestMem.Laws.{load_ext}
use mini_kvm.Paging32.Walk.{walk, frame}
use mini_kvm.Os1k.Memory.Directory.{IsDirectory, entry, pd_index, pt_index, walk_same}

-- A directory maps what it did, where the pages from `lo` to `hi`, in which it lies with its
-- tables, are as they were.
pub walk_kept :
    (lo hi : ℕ) (m m' : Mem) (d va : ℕ)
    → IsDirectory lo hi m d
    → ((x : ℕ) → lo ≤ x → x < hi → m' x ≡ m x)
    → walk m' d va ≡ walk m d va
walk_kept lo hi m m' d va dir same =
    walk_same m m' d va dir.aligned
      (load_ext 4 m' m (d + 4 * pd_index va)
        (λ x p q. same x (omega (arith, dir.above)) (omega (arith, dir.below))))
      (λ present.
        let (low, high, ne) = dir.tables (pd_index va) (omega arith) present in
        load_ext 4 m' m (frame (entry m d (pd_index va)) + 4 * pt_index va)
          (λ x p q. same x (omega arith) (omega arith)))
