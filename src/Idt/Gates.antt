-- ===== src/Idt/Gates.antt =====
-- What the processor finds in the table.
use nuts_os.Base.{
  ℕ, zero, suc, ◌+◌, ◌*◌, ◌^◌, ◌<◌, ◌≡◌, ◌==◌, ◌&&◌, leb, ltb, if◌then◌else◌, arith, refl, update,
}
use nuts_os.Base.Bits.{bit_and_mod}
use nuts_os.Idt.{Gates, Handlers, gate, idt_set, set_all, idt_init, IdtDesc, empty_gate}

-- The address that a gate leads to.
abbrev pub target : IdtDesc → ℕ
target d = d.offset_low + d.offset_high * 2 ^ 16

target-gate : (address : ℕ) → target (gate address) ≡ address
unfolding gate
target-gate address = omega (arith, bit_and_mod 16 address)

set_all_at :
    (left i address : ℕ) (gates : Gates) (k : ℕ)
    → set_all left i address gates k
      ≡ (if leb i k && ltb k (i + left) then gate address else gates k)
unfolding set_all idt_set
set_all_at zero i address gates k = ground arith
set_all_at (suc left) i address gates k =
    ground (arith, set_all_at left (i + 1) address (update gates i (gate address)) k)

-- The handler that the source means for each interrupt.
abbrev pub handler : Handlers → ℕ → ℕ
handler h k =
    if k == 0x80
    then h.isr80h_wrapper
    else if k == 0x21
    then h.int21h
    else if k == 0
    then h.idt_zero
    else h.no_interrupt

-- The three gates that are set after the loop.
handlers_set :
    (h : Handlers) (all : Gates) (k : ℕ)
    → all k ≡ gate h.no_interrupt
    → idt_set (idt_set (idt_set all 0x00 h.idt_zero) 0x21 h.int21h) 0x80 h.isr80h_wrapper k
      ≡ gate (handler h k)
unfolding idt_set
handlers_set h all k e = ground arith

all_set :
    (left address k : ℕ) (gates : Gates) → k < left → set_all left 0 address gates k ≡ gate address
all_set left address k gates small = ground (arith, set_all_at left 0 address gates k)

idt_init-gate : (h : Handlers) (idt k : ℕ) → k < 512 → (idt_init h idt).0 k ≡ gate (handler h k)
unfolding idt_init
idt_init-gate h idt k small =
    handlers_set h (set_all 512 0 h.no_interrupt (λ _. empty_gate)) k
      (all_set 512 h.no_interrupt k (λ _. empty_gate) small)

selector-gate : (address : ℕ) → (gate address).selector ≡ 8
unfolding gate
selector-gate address = refl

type_attr-gate : (address : ℕ) → (gate address).type_attr ≡ 0xee
unfolding gate
type_attr-gate address = refl

-- After idt_init every one of the 512 interrupts leads to its handler, through the kernel's code
-- segment, by a present 32-bit gate that ring 3 may use.
pub idt_init_lem :
    (h : Handlers) (idt k : ℕ)
    → k < 512
    → (target ((idt_init h idt).0 k) ≡ handler h k)
      × (((idt_init h idt).0 k).selector ≡ 8)
      × (((idt_init h idt).0 k).type_attr ≡ 0xee)
idt_init_lem h idt k small =
    rw (idt_init-gate h idt k small)
      (target-gate (handler h k), selector-gate (handler h k), type_attr-gate (handler h k))
