-- ===== src/Machine/Trace.antt =====
-- The single-step setting that KVM was last given.
use mini_kvm.Base.{ℕ, Bool, List, [], ◌∷◌, ◌++◌, ◌≡◌, refl}
use mini_kvm.Machine.{Event, uart_char, vcpu_char, irq_line, guest_debug}

-- The setting after `events`, if it was `on` before.
unfoldable pub stepping : Bool → List Event → Bool
stepping on [] = on
stepping on (guest_debug b ∷ es) = stepping b es
stepping on (uart_char c ∷ es) = stepping on es
stepping on (vcpu_char i c ∷ es) = stepping on es
stepping on (irq_line i l ∷ es) = stepping on es

pub stepping-append :
    (on : Bool) (es fs : List Event) → stepping on (es ++ fs) ≡ stepping (stepping on es) fs
unfolding stepping
stepping-append on [] fs = refl
stepping-append on (guest_debug b ∷ es) fs = stepping-append b es fs
stepping-append on (uart_char c ∷ es) fs = stepping-append on es fs
stepping-append on (vcpu_char i c ∷ es) fs = stepping-append on es fs
stepping-append on (irq_line i l ∷ es) fs = stepping-append on es fs

pub stepping-debug : (on b : Bool) (es : List Event) → stepping on (es ++ guest_debug b ∷ []) ≡ b
unfolding stepping
stepping-debug on b es = stepping-append on es (guest_debug b ∷ [])

pub stepping-uart_char :
    (on : Bool) (c : ℕ) (es : List Event) → stepping on (es ++ uart_char c ∷ []) ≡ stepping on es
unfolding stepping
stepping-uart_char on c es = stepping-append on es (uart_char c ∷ [])

pub stepping-vcpu_char :
    (on : Bool) (i c : ℕ) (es : List Event)
    → stepping on (es ++ vcpu_char i c ∷ []) ≡ stepping on es
unfolding stepping
stepping-vcpu_char on i c es = stepping-append on es (vcpu_char i c ∷ [])

pub stepping-irq_pulse :
    (on : Bool) (i : ℕ) (es : List Event)
    → stepping on (es ++ irq_line i 1 ∷ irq_line i 0 ∷ []) ≡ stepping on es
unfolding stepping
stepping-irq_pulse on i es = stepping-append on es (irq_line i 1 ∷ irq_line i 0 ∷ [])
