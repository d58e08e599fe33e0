-- ===== src/Fat/Volume/Blocks.antt =====
-- The blocks that fat16_resolve takes from the heap, and gives back.
use nuts_os.Base.{
  ℕ, ◌+◌, ◌-◌, ◌/◌, ◌%◌, ◌^◌, ◌<◌, ◌≤◌, ◌≡◌, ◌≢◌, ◌==◌, true, false, some, none, ltb, arith, ◌∙◌,
  refl,
}
use nuts_os.Memory.{memset}
use nuts_os.Heap.{Heap, address_to_block, mark_blocks_free}
use nuts_os.Heap.Malloc.{release-pos}
use nuts_os.Base.Int.{pos}
use nuts_os.Heap.Kernel.{kfree}
use nuts_os.Heap.Store.{Store, IsUsable, free_blocks, Fresh, zalloc}
use nuts_os.Heap.Store.Taking.{zalloc-Fresh}
use nuts_os.Disk.{stream_new, disk_get}
use nuts_os.Disk.Stream.{at_pos}
use nuts_os.Fat.{FatPrivate, is_err}
use nuts_os.Fat.Volume.{new_stream, init_private, finish}

-- A heap after `n` more blocks are taken.
pub record Grown (h h' : Heap) (n : ℕ) : Type 0 where
  pub usable : IsUsable h'
  pub room : free_blocks h' + n ≡ free_blocks h
  pub start : h'.saddr ≡ h.saddr

pub Fresh-Grown : (s s' : Store) (p size : ℕ) → Fresh s s' p size → Grown s.heap s'.heap 1
Fresh-Grown s s' p size f = record {
  usable = f.usable;
  room = omega (arith, f.room);
  start = f.start;
}

pub Grown-trans : (h g k : Heap) (m n : ℕ) → Grown h g m → Grown g k n → Grown h k (m + n)
Grown-trans h g k m n a b = record {
  usable = b.usable;
  room = omega (arith, a.room, b.room);
  start = b.start ∙ a.start;
}

-- A new stream on a usable heap with a free block.
pub new_stream-Fresh :
    (s : Store)
    → IsUsable s.heap
    → 0 < free_blocks s.heap
    → (q : ℕ) × (s' : Store) × (new_stream 0 s ≡ (q, some (at_pos 0), s')) × Fresh s s' q 8
unfolding new_stream stream_new disk_get
new_stream-Fresh s u room =
    let f = zalloc-Fresh s 8 u (omega arith) (omega arith) room in
    let ne : ((zalloc s 8).0 == 0) ≡ false = ground (arith, f.nonnull) in
    ((zalloc s 8).0, (zalloc s 8).1, rw ne refl, f)

-- The structure with its three streams.
pub init_private-Grown :
    (p : ℕ) (s : Store)
    → IsUsable s.heap
    → 3 ≤ free_blocks s.heap
    → (private : FatPrivate) × (s' : Store) × (init_private 0 p s ≡ (private, s'))
      × (private.cluster_read_stream ≡ some (at_pos 0))
      × (private.fat_read_stream ≡ some (at_pos 0))
      × (private.directory_stream ≡ some (at_pos 0))
      × Grown s.heap s'.heap 3
unfolding init_private
init_private-Grown p s u room =
    let s₀ = record s { memory = memset p 0 104 s.memory } in
    let (q₁, s₁, e₁, f₁) = new_stream-Fresh s₀ u (omega arith) in
    let (q₂, s₂, e₂, f₂) = new_stream-Fresh s₁ f₁.usable (omega (arith, f₁.room)) in
    let (q₃, s₃, e₃, f₃) = new_stream-Fresh s₂ f₂.usable (omega (arith, f₁.room, f₂.room)) in
    (
      (init_private 0 p s).0,
      s₃,
      rw (e₁, e₂, e₃, init_private) refl,
      rw (e₁, init_private) refl,
      rw (e₁, e₂, init_private) refl,
      rw (e₁, e₂, e₃, init_private) refl,
      Grown-trans s.heap s₂.heap s₃.heap 2 1
          (Grown-trans s.heap s₁.heap s₂.heap 1 1 (Fresh-Grown s₀ s₁ q₁ 8 f₁)
            (Fresh-Grown s₁ s₂ q₂ 8 f₂))
          (Fresh-Grown s₂ s₃ q₃ 8 f₃),
    )

-- What a block that the heap gave out keeps: it can be freed later, too.
pub record IsGiven (h : Heap) (p : ℕ) : Type 0 where
  pub nonnull : p ≢ 0
  pub low : h.saddr ≤ p
  pub near : (p < h.saddr + 2 ^ 31) × (p < 2 ^ 32)

block_of : (h : Heap) (p : ℕ) → IsGiven h p → address_to_block h p ≡ pos ((p - h.saddr) / 4096)
unfolding address_to_block
block_of h p g =
    let diff : (p + 2 ^ 32 - h.saddr) % 2 ^ 32 ≡ p - h.saddr = omega (arith, g.low, g.near.1) in
    let near : ltb (p - h.saddr) (2 ^ 31) ≡ true = ground (arith, g.low, g.near.0) in
    rw (diff, near, address_to_block) refl

pub kfree-some :
    (h : Heap) (p : ℕ) → IsGiven h p → (h' : Heap) × (kfree h p ≡ some h') × (h'.saddr ≡ h.saddr)
unfolding kfree mark_blocks_free
kfree-some h p g =
    let b = (p - h.saddr) / 4096 in (mark_blocks_free h b, release-pos h p b (block_of h p g), refl)

pub IsGiven-later : (h g : Heap) (p : ℕ) → IsGiven h p → g.saddr ≡ h.saddr → IsGiven g p
IsGiven-later h g p i e = record {
  nonnull = i.nonnull;
  low = omega (arith, i.low, e);
  near = (omega (arith, i.near, e), i.near.1);
}

pub Fresh-IsGiven : (s s' : Store) (p size : ℕ) → Fresh s s' p size → IsGiven s.heap p
Fresh-IsGiven s s' p size f = record { nonnull = f.nonnull; low = f.low; near = f.near }

pub finish_ok :
    (p q : ℕ) (private : FatPrivate) (s : Store)
    → IsGiven s.heap q
    → (s' : Store) × (finish 0 p q private s ≡ some (0, some private, s')) × (s'.memory ≡ s.memory)
unfolding finish
finish_ok p q private s given =
    let ne : (q == 0) ≡ false = ground (arith, given.nonnull) in
    let (h, e, _) = kfree-some s.heap q given in
    (record s { heap = h }, rw (ne, finish, e) refl, refl)

pub finish_err :
    (res p q : ℕ) (private : FatPrivate) (s : Store)
    → is_err res ≡ true
    → IsGiven s.heap q
    → IsGiven s.heap p
    → (s' : Store) × (finish res p q private s ≡ some (res, none, s'))
unfolding finish
finish_err res p q private s bad given given' =
    let ne : (q == 0) ≡ false = ground (arith, given.nonnull) in
    let (h, e, same) = kfree-some s.heap q given in
    let (h', e', _) = kfree-some h p (IsGiven-later s.heap h p given' same) in
    (record s { heap = h' }, rw (ne, finish, e, bad, e') refl)
