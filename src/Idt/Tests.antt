-- ===== src/Idt/Tests.antt =====
-- The theorem on the interrupt table at four handlers.
use nuts_os.Base.{◌≡◌, arith}
use nuts_os.Idt.{Handlers, idt_init}
use nuts_os.Idt.Gates.{target, handler, idt_init_lem}

abbrev handlers : Handlers
handlers = record {
  no_interrupt = 0x100100;
  idt_zero = 0x100200;
  int21h = 0x100300;
  isr80h_wrapper = 0x100400;
}

idt_init_lem_example :
    (target ((idt_init handlers 0x9000).0 0x80) ≡ handler handlers 0x80)
    × (((idt_init handlers 0x9000).0 0x80).selector ≡ 8)
    × (((idt_init handlers 0x9000).0 0x80).type_attr ≡ 0xee)
idt_init_lem_example = idt_init_lem handlers 0x9000 0x80 (omega arith)
