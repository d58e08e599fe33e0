-- ===== src/Paging/Identity.antt =====
-- paging_chunk_new: the directory that it builds, entry by entry.
use nuts_os.Base.{
  ℕ, ◌+◌, ◌*◌, ◌/◌, ◌%◌, ◌^◌, ◌<◌, ◌≤◌, ◌≡◌, ◌≢◌, ◌⊎◌, true, false, arith, refl, bit_or, inl, inr,
  ap, sym, ◌∙◌,
}
use nuts_os.Base.Bits.{bit_or_small}
use nuts_os.Heap.{Heap}
use nuts_os.Heap.Store.{Store, IsUsable, free_blocks, is_safe, Fresh, Fresh-apart, zalloc, differ}
use nuts_os.Heap.Store.Taking.{zalloc-Fresh}
use nuts_os.Paging.{Words, PagingChunk, kzalloc_words, entry_get_pointer, fill_directory, chunk_new}
use nuts_os.Paging.Fill.{kzalloc_words-zalloc, page_entry, entry_pointer}
use nuts_os.Paging.Build.{Built, fill_directory-Built}
use nuts_os.Paging.Table.{table_of, entry_for, IsDirectory}

-- What a new chunk is: a directory with a table of its own for each entry, in which every page is
-- mapped to itself with the flags. All of it was free, and all that was in use is as it was.
pub record Identity (s s' : Store) (dir flags : ℕ) : Type 0 where
  pub usable : IsUsable s'.heap
  pub room : free_blocks s'.heap + 1026 ≡ free_blocks s.heap
  pub start : s'.heap.saddr ≡ s.heap.saddr
  pub nonnull : dir ≢ 0
  pub new : is_safe s.heap dir ≡ false
  pub kept_safe : (a : ℕ) → is_safe s.heap a ≡ true → is_safe s'.heap a ≡ true
  pub kept : (a : ℕ) → is_safe s.heap a ≡ true → s'.memory a ≡ s.memory a
  pub valid : IsDirectory s'.memory dir
  pub entries :
      (v : ℕ) → v < 2 ^ 32 → entry_for s'.memory dir v ≡ bit_or (v / 2 ^ 12 * 2 ^ 12) flags

-- The directory, the tables and the chunk, one behind the other.
module _ (s s₁ s₂ s₃ : Store) (d c flags : ℕ) (table : ℕ → ℕ) (whole : s.heap.saddr % 4096 ≡ 0)
    (low : bit_or flags 2 < 4096) (f : Fresh s s₁ d 4096) (b : Built s₁ s₂ d 0 1024 0 flags table)
    (g : Fresh s₂ s₃ c 12) where
  directory_entry : (j : ℕ) → j < 1024 → s₃.memory (d + 4 * j) ≡ bit_or (table j) (bit_or flags 2)
  directory_entry j h =
      g.kept (d + 4 * j) (b.kept_safe (d + 4 * j) (f.page (4 * j) (omega arith)))
      ∙ ap s₂.memory (omega arith)
      ∙ b.entry j h

  table_of_entry : (j : ℕ) → j < 1024 → table_of s₃.memory d j ≡ table j
  table_of_entry j h =
      ap entry_get_pointer (directory_entry j h)
      ∙ entry_pointer (table j) (bit_or flags 2) (b.aligned j h) (b.word j h) low

  table_entry :
      (j k : ℕ)
      → j < 1024
      → k < 1024
      → s₃.memory (table j + 4 * k) ≡ page_entry ((0 + j * 2 ^ 22) % 2 ^ 32) flags k
  table_entry j k h h' =
      g.kept (table j + 4 * k) (b.page j (4 * k) h (omega arith)) ∙ b.mapped j k h h'

  apart : (j : ℕ) → j < 1024 → table j ≢ d
  apart j h e =
      let at : d + 0 ≡ table j = omega (arith, e) in
      differ (b.new j h) (sym (ap (is_safe s₁.heap) at) ∙ f.page 0 (omega arith))

  here : (a : ℕ) → a + 0 ≡ a
  here a = omega arith

  together_kept : (a : ℕ) → is_safe s.heap a ≡ true → s₃.memory a ≡ s.memory a
  together_kept a safe =
      let safe₁ = f.kept_safe a safe in
      let out : (a < d + 4 * 0) ⊎ (d + 4 * (0 + 1024) ≤ a) =
        elim (Fresh-apart s s₁ d 4096 a f safe) [
          | inl low ↦ inl (omega arith)
          | inr high ↦ inr (omega arith)
        ] in
      g.kept a (b.kept_safe a safe₁) ∙ b.kept a safe₁ out ∙ f.kept a safe

  together : Identity s s₃ d flags
  together = record {
    usable = g.usable;
    room = omega (arith, f.room, b.room, g.room);
    start = g.start ∙ b.start ∙ f.start;
    nonnull = f.nonnull;
    new = sym (ap (is_safe s.heap) (here d)) ∙ f.new 0 (omega arith);
    kept_safe = λ a safe. g.kept_safe a (b.kept_safe a (f.kept_safe a safe));
    kept = together_kept;
    valid = record {
      aligned = omega (arith, f.aligned);
      apart = λ j h e. apart j h (sym (table_of_entry j h) ∙ e);
      own = λ j k h h' e. b.distinct j k h h' (sym (table_of_entry j h) ∙ e ∙ table_of_entry k h');
    };
    entries = λ v h.
        let j = v / 2 ^ 22 in
        let k = v / 2 ^ 12 % 1024 in
        ap (λ t. s₃.memory (t + 4 * k)) (table_of_entry j (omega arith))
        ∙ table_entry j k (omega arith) (omega arith)
        ∙ ap (λ a. bit_or a flags) (omega arith);
  }

-- The three parts of paging_chunk_new, for tables of `n` entries.
chunk_new_parts :
    (heap : Heap) (w : Words) (n flags d c : ℕ) (s₁ s₂ s₃ : Store)
    → kzalloc_words heap w (4 * n) ≡ (d, s₁.heap, s₁.memory)
    → fill_directory n 0 d n 0 (flags % 2 ^ 8) s₁.heap s₁.memory ≡ (s₂.heap, s₂.memory)
    → kzalloc_words s₂.heap s₂.memory 12 ≡ (c, s₃.heap, s₃.memory)
    → chunk_new heap w n n flags ≡ (
      record { addr = c; directory_entry = d; dir_count = n; entries_count = n },
      s₃.heap,
      s₃.memory,
    )
unfolding chunk_new
chunk_new_parts heap w n flags d c s₁ s₂ s₃ e₁ e₂ e₃ = rw (e₁, chunk_new) (rw e₂ (rw e₃ refl))

-- On a usable heap that starts on a page and has 1026 free blocks, paging_chunk_new with full
-- tables builds a directory of its own in which every page is mapped to itself, with the lowest 8
-- bits of the flags given, and leaves every word in use as it was.
pub chunk_new-Identity :
    (s : Store) (flags : ℕ)
    → IsUsable s.heap
    → s.heap.saddr % 4096 ≡ 0
    → 1026 ≤ free_blocks s.heap
    → (chunk : PagingChunk) × (s' : Store) × (chunk_new s.heap s.memory 1024 1024 flags
        ≡ (chunk, s'.heap, s'.memory))
      × Identity s s' chunk.directory_entry (flags % 2 ^ 8)
chunk_new-Identity s flags u whole room =
    let byte : ℕ = flags % 2 ^ 8 in
    let (d, s₁) = zalloc s 4096 in
    let f = zalloc-Fresh s 4096 u (omega arith) (omega arith) (omega arith) in
    let (s₂, table, b, e₂) =
      fill_directory-Built 1024 s₁ d 0 0 byte f.usable (omega (arith, f.start))
        (omega (arith, f.aligned)) (omega (arith, f.room)) f.page (omega arith) (omega arith) in
    let (c, s₃) = zalloc s₂ 12 in
    let g =
      zalloc-Fresh s₂ 12 b.usable (omega arith) (omega arith) (omega (arith, f.room, b.room)) in
    (
      record { addr = c; directory_entry = d; dir_count = 1024; entries_count = 1024 },
      s₃,
      chunk_new_parts s.heap s.memory 1024 flags d c s₁ s₂ s₃
          (kzalloc_words-zalloc s.heap s.memory 4096) e₂
          (kzalloc_words-zalloc s₂.heap s₂.memory 12),
      together s s₁ s₂ s₃ d c byte table whole (bit_or_small 12 byte 2 (omega arith) (omega arith))
          f b g,
    )
