-- ===== src/Os1k/Switch/Resume.antt =====
-- A process goes on where it was switched away from.
use mini_kvm.Base.{ℕ, ◌+◌, ◌-◌, ◌*◌, ◌^◌, ◌≤◌, ◌<◌, ◌≡◌, ap, ◌∙◌, arith, inr, List}
use mini_kvm.GuestMem.{Mem, store, load}
use mini_kvm.GuestMem.Laws.{load-store, load-store-IsOutside, load_ext}
use mini_kvm.Os1k.Memory.{phys, kernel_base}
use mini_kvm.Os1k.Memory.{Ram}
use mini_kvm.Os1k.Process.{Created}
use mini_kvm.Os1k.Process.Create.{IsCreated}
use mini_kvm.Os1k.Sched.{Process}
use mini_kvm.Os1k.Switch.{Regs, save, restore, switch_context}

pub record IsRegs (r : Regs) : Type 0 where
  pub ebx : r.ebx < 2 ^ 32
  pub esi : r.esi < 2 ^ 32
  pub edi : r.edi < 2 ^ 32
  pub ebp : r.ebp < 2 ^ 32
  pub esp : kernel_base + 16 ≤ r.esp

module _ (m : Mem) (r : Regs) (ok : IsRegs r) where
  saved_ebp : load 4 (save m r) (phys (r.esp - 16)) ≡ r.ebp
  unfolding save
  saved_ebp = load-store 4 _ (phys (r.esp - 16)) r.ebp (omega (arith, ok.ebp))

  saved_edi : load 4 (save m r) (phys (r.esp - 12)) ≡ r.edi
  unfolding save
  saved_edi =
      load-store-IsOutside 4 4 _ (phys (r.esp - 16)) (phys (r.esp - 12)) r.ebp
        (inr (omega (arith, ok.esp)))
      ∙ load-store 4 _ (phys (r.esp - 12)) r.edi (omega (arith, ok.edi))

  saved_esi : load 4 (save m r) (phys (r.esp - 8)) ≡ r.esi
  unfolding save
  saved_esi =
      load-store-IsOutside 4 4 _ (phys (r.esp - 16)) (phys (r.esp - 8)) r.ebp
        (inr (omega (arith, ok.esp)))
      ∙ load-store-IsOutside 4 4 _ (phys (r.esp - 12)) (phys (r.esp - 8)) r.edi
          (inr (omega (arith, ok.esp)))
      ∙ load-store 4 _ (phys (r.esp - 8)) r.esi (omega (arith, ok.esi))

  -- What stands from the last register on is not overwritten by those below it.
  above :
      (a : ℕ)
      → phys (r.esp - 4) ≤ a
      → load 4 (save m r) a ≡ load 4 (store 4 m (phys (r.esp - 4)) r.ebx) a
  unfolding save
  above a h =
      load-store-IsOutside 4 4 _ (phys (r.esp - 16)) a r.ebp (inr (omega (arith, ok.esp)))
      ∙ load-store-IsOutside 4 4 _ (phys (r.esp - 12)) a r.edi (inr (omega (arith, ok.esp)))
      ∙ load-store-IsOutside 4 4 _ (phys (r.esp - 8)) a r.esi (inr (omega (arith, ok.esp)))

  saved_ebx : load 4 (save m r) (phys (r.esp - 4)) ≡ r.ebx
  saved_ebx =
      above (phys (r.esp - 4)) (omega arith)
      ∙ load-store 4 m (phys (r.esp - 4)) r.ebx (omega (arith, ok.ebx))

  return_address : load 4 (save m r) (phys r.esp) ≡ load 4 m (phys r.esp)
  return_address =
      above (phys r.esp) (omega arith)
      ∙ load-store-IsOutside 4 4 m (phys (r.esp - 4)) (phys r.esp) r.ebx
          (inr (omega (arith, ok.esp)))

-- A process that was switched away from by `switch_context`, and whose stack from the saved top to
-- the return address nobody has written to since, goes on behind its call when a later switch
-- chooses it: with the registers and the stack that it had, whatever ran in between.
pub switch_context-resumes :
    (m later : Mem) (r other : Regs) (next : ℕ)
    → IsRegs r
    → let (sp, m', running) = switch_context m r next in
      ((x : ℕ) → phys sp ≤ x → x < phys sp + 20 → save later other x ≡ m' x)
      → (switch_context later other sp).2
        ≡ record r { eip = load 4 m (phys r.esp); esp = r.esp + 4 }
unfolding switch_context restore
switch_context-resumes m later r other next ok same = λ i. record {
  eip =
      (kept 16 (phys (r.esp - 16 + 16)) (omega arith) (omega (arith, ok.esp))
          ∙ ap (λ a. load 4 (save m r) (phys a)) (omega (arith, ok.esp))
          ∙ return_address m r ok)
        i;
  esp = (let e : r.esp - 16 + 20 ≡ r.esp + 4 = omega (arith, ok.esp) in e) i;
  ebx =
      (kept 12 (phys (r.esp - 16 + 12)) (omega arith) (omega (arith, ok.esp))
          ∙ ap (λ a. load 4 (save m r) (phys a)) (omega (arith, ok.esp))
          ∙ saved_ebx m r ok)
        i;
  esi =
      (kept 8 (phys (r.esp - 16 + 8)) (omega arith) (omega (arith, ok.esp))
          ∙ ap (λ a. load 4 (save m r) (phys a)) (omega (arith, ok.esp))
          ∙ saved_esi m r ok)
        i;
  edi =
      (kept 4 (phys (r.esp - 16 + 4)) (omega arith) (omega (arith, ok.esp))
          ∙ ap (λ a. load 4 (save m r) (phys a)) (omega (arith, ok.esp))
          ∙ saved_edi m r ok)
        i;
  ebp = (kept 0 (phys (r.esp - 16)) (omega arith) (omega (arith, ok.esp)) ∙ saved_ebp m r ok) i;
}
  where
    kept :
        (k a : ℕ)
        → k ≤ 16
        → a ≡ phys (r.esp - 16) + k
        → load 4 (save later other) a ≡ load 4 (save m r) a
    kept k a h e = load_ext 4 _ _ a (λ x p q. same x (omega (arith, e)) (omega (arith, e)))

-- A process that `create_process` has just made, and that no one has run, goes on at address 0
-- when `switch_context` chooses it: the address of `user_entry` is what `ebp` gets.
pub switch_context-first :
    (user_entry user_stack : ℕ) (image : List ℕ) (procs : List Process) (r : Ram) (c : Created)
    (later : Mem) (other : Regs)
    → IsCreated user_entry user_stack image procs r c
    → kernel_base ≤ user_stack
    → user_stack + 20 ≤ r.next_paddr
    → ((x : ℕ) → phys user_stack ≤ x → x < phys user_stack + 20 → save later other x ≡ c.ram.mem x)
    → let (_, _, running) = switch_context later other user_stack in
      (running.eip ≡ 0) × (running.ebp ≡ user_entry)
unfolding switch_context restore
switch_context-first user_entry user_stack image procs r c later other made high below same = (
  ap (load 4 (save later other)) (last)
      ∙ load_ext 4 _ _ (phys user_stack + 4 + 4 * 3) (λ x p q. same x (omega arith) (omega arith))
      ∙ (made.frame high below).zeros 3 (omega arith),
  load_ext 4 _ _ (phys user_stack) (λ x p q. same x (omega arith) (omega arith))
      ∙ (made.frame high below).entry,
)
  where
    last : phys (user_stack + 16) ≡ phys user_stack + 4 + 4 * 3
    last = omega arith
