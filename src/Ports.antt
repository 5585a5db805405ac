-- ===== src/Ports.antt =====
-- The legacy ports (`misc_port_out`, `misc_port_in` of kvm-vmm-x86/src/main.c): the fast A20 gate,
-- the CMOS index, and ports that read as 0.
use mini_kvm.Base.{ℕ, List, ◌==◌, if◌then◌else◌, u8, bit_or, get_or, set, replicate}
use mini_kvm.Machine.{Devices}

-- Ports 0x20, 0x21, 0xA0, 0xA1, 0x80, 0x60, 0x64 and all others ignore what is written.
unfoldable pub misc_port_out : Devices → ℕ → List ℕ → Devices
misc_port_out d port bytes =
    let value = u8 (get_or bytes 0 0) in
    if port == 0x92
    then record d { port92 = u8 (bit_or value 0x02) }
    else if port == 0x70
    then record d { cmos_index = value }
    else d

-- `memset(data, 0, size)`, then `data[0]`, which 0x64, 0x60, 0x71 and the PIC ports set to 0.
unfoldable pub misc_port_in : Devices → ℕ → ℕ → List ℕ
misc_port_in d port size =
    let zeros = replicate size 0 in if port == 0x92 then set zeros 0 d.port92 else zeros
