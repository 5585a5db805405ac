-- ===== src/TarOctal.antt =====
-- The octal numbers of the tar headers in the file system of the 1K OS (`oct2int` and the size
-- loop of `fs_flush`, kvm-vmm-x86/os-1k/kernel.c). A field is its bytes; the `int` is a natural
-- number, exact as long as it stays below 2^31.
pub mod RoundTrip
use mini_kvm.Base.{
  ℕ, zero, suc, ◌+◌, ◌-◌, ◌*◌, ◌/◌, ◌%◌, ◌||◌, ltb, if◌then◌else◌, List, [], ◌∷◌, ◌++◌,
}

-- The loop from a value `dec` on. '0' is 48 and '7' is 55; a negative `char`, a byte from 128 on,
-- ends it as well.
unfoldable pub oct_from : ℕ → List ℕ → ℕ
oct_from dec [] = dec
oct_from dec (c ∷ cs) =
    let rest = oct_from (dec * 8 + (c - 48)) cs in if ltb c 48 || ltb 55 c then dec else rest

pub oct2int : List ℕ → ℕ
oct2int oct = oct_from 0 oct

-- The bytes that the loop puts into a field of `len`, from its last byte backwards.
unfoldable pub octal_digits : (len filesz : ℕ) → List ℕ
octal_digits zero filesz = []
octal_digits (suc len) filesz = octal_digits len (filesz / 8) ++ ((filesz % 8 + 48) ∷ [])
