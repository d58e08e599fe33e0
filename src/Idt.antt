-- ===== src/Idt.antt =====
-- idt/idt.c: the interrupt descriptor table.
pub mod Gates
pub mod Traps
pub mod Syscall
mod Tests
use nuts_os.Base.{
  ℕ, zero, suc, ◌+◌, ◌-◌, ◌*◌, ◌/◌, ◌%◌, ◌^◌, ◌==◌, if◌then◌else◌, update, bit_and, bit_or,
}

abbrev pub total_interrupts : ℕ
total_interrupts = 512

abbrev pub kernel_code_offset : ℕ
kernel_code_offset = 1 * (2 * 4)

-- The packed gate of 8 bytes.
pub record IdtDesc : Type 0 where
  pub offset_low : ℕ
  pub selector : ℕ
  pub unused : ℕ
  pub type_attr : ℕ
  pub offset_high : ℕ

pub record IdtrDesc : Type 0 where
  pub limit : ℕ
  pub base : ℕ

abbrev pub attr_ring : ℕ → ℕ
attr_ring v = bit_and v 0b00000011 * 2 ^ 5

abbrev pub attr_int32 : ℕ
attr_int32 = 0b00001110

abbrev pub attr_present : ℕ
attr_present = 0b10000000

abbrev pub Gates : Type 0
Gates = ℕ → IdtDesc

unfoldable pub gate : ℕ → IdtDesc
gate address = record {
  offset_low = bit_and address 0x0000ffff;
  selector = kernel_code_offset;
  unused = 0;
  type_attr = bit_or (bit_or attr_present attr_int32) (attr_ring 3);
  offset_high = address / 2 ^ 16;
}

unfoldable pub idt_set : Gates → ℕ → ℕ → Gates
unfolding gate
idt_set gates interrupt_no address = update gates interrupt_no (gate address)

-- The loop of idt_init, with the interrupts left.
set_all : ℕ → ℕ → ℕ → Gates → Gates
set_all zero i address gates = gates
set_all (suc left) i address gates = set_all left (i + 1) address (idt_set gates i address)

-- The addresses of the four handlers, which stand in idt.asm and idt.c.
pub record Handlers : Type 0 where
  pub no_interrupt : ℕ
  pub idt_zero : ℕ
  pub int21h : ℕ
  pub isr80h_wrapper : ℕ

abbrev pub empty_gate : IdtDesc
empty_gate = record { offset_low = 0; selector = 0; unused = 0; type_attr = 0; offset_high = 0 }

-- The table and the register that idt_load is given, for the table's address.
unfoldable pub idt_init : Handlers → ℕ → Gates × IdtrDesc
unfolding set_all
idt_init h idt_descriptors =
    let cleared : Gates = λ _. empty_gate in
    let all = set_all total_interrupts 0 h.no_interrupt cleared in
    (
      idt_set (idt_set (idt_set all 0x00 h.idt_zero) 0x21 h.int21h) 0x80 h.isr80h_wrapper,
      record { limit = (8 * total_interrupts - 1) % 2 ^ 16; base = idt_descriptors },
    )
