-- ===== src/Segments/RealMode.antt =====
-- Where a real-mode guest finds its memory.
use mini_kvm.Base.{ℕ, ◌*◌, ◌≤◌, ◌≡◌, arith, false}
use mini_kvm.Segments.{Segment, Sregs, setup_realmode_segments}

-- As the processor computes it from the selector.
abbrev pub IsRealModeAt : ℕ → Segment → Type 0
IsRealModeAt start seg = (seg.base ≡ start) × (seg.base ≡ seg.selector * 16) × (seg.limit ≡ 0xFFFF)

abbrev pub AreRealModeAt : ℕ → Sregs → Type 0
AreRealModeAt start s =
    IsRealModeAt start s.cs
    × IsRealModeAt start s.ds
    × IsRealModeAt start s.es
    × IsRealModeAt start s.fs
    × IsRealModeAt start s.gs
    × IsRealModeAt start s.ss

-- The segments of each of the four real-mode vCPUs with 256KB start at the guest physical address
-- where that vCPU's memory is mapped, and agree with their selectors.
pub setup_realmode_segments-own_memory :
    (sregs : Sregs) (vcpu_id : ℕ)
    → vcpu_id ≤ 3
    → AreRealModeAt (vcpu_id * 0x40000) (setup_realmode_segments sregs false vcpu_id 0x40000)
unfolding setup_realmode_segments
setup_realmode_segments-own_memory sregs vcpu_id h = ground arith
