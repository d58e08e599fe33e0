-- ===== src/Paging/Build.antt =====
-- paging_chunk_new: the loop over the entries of the directory.
use nuts_os.Base.{
  ℕ, zero, suc, ◌+◌, ◌*◌, ◌%◌, ◌^◌, ◌<◌, ◌≤◌, ◌≡◌, ◌≢◌, ◌⊎◌, ltb, true, false, arith, refl, update,
  bit_or, Bool-cases, inl, inr, ap, sym, ◌∙◌,
}
use nuts_os.Heap.{Heap}
use nuts_os.Heap.Store.{Store, IsUsable, free_blocks, is_safe, Fresh, zalloc, differ}
use nuts_os.Paging.{Words, kzalloc_words, fill_table, fill_directory}
use nuts_os.Paging.Fill.{kzalloc_words-zalloc, page_entry}
use nuts_os.Paging.Round.{table_address, after, fresh, apart, after_kept, after_entry, after_mapped}

-- What the loop leaves: from index `i` on, `left` entries of the directory at `d`, each with a
-- table of its own, on a page that was free, which maps 4 MiB to themselves; all else that was safe
-- is as it was.
pub record Built (s s' : Store) (d i left offset flags : ℕ) (table : ℕ → ℕ) : Type 0 where
  pub usable : IsUsable s'.heap
  pub room : free_blocks s'.heap + left ≡ free_blocks s.heap
  pub start : s'.heap.saddr ≡ s.heap.saddr
  pub kept_safe : (a : ℕ) → is_safe s.heap a ≡ true → is_safe s'.heap a ≡ true
  pub kept :
      (a : ℕ)
      → is_safe s.heap a ≡ true
      → (a < d + 4 * i) ⊎ (d + 4 * (i + left) ≤ a)
      → s'.memory a ≡ s.memory a
  pub entry : (j : ℕ) → j < left → s'.memory (d + 4 * (i + j)) ≡ bit_or (table j) (bit_or flags 2)
  pub aligned : (j : ℕ) → j < left → table j % 4096 ≡ 0
  pub word : (j : ℕ) → j < left → table j < 2 ^ 32
  pub new : (j : ℕ) → j < left → is_safe s.heap (table j) ≡ false
  pub page : (j k : ℕ) → j < left → k < 4096 → is_safe s'.heap (table j + k) ≡ true
  pub distinct : (j k : ℕ) → j < left → k < left → table j ≡ table k → j ≡ k
  pub mapped :
      (j k : ℕ)
      → j < left
      → k < 1024
      → s'.memory (table j + 4 * k) ≡ page_entry ((offset + j * 2 ^ 22) % 2 ^ 32) flags k

-- A table in front of others.
abbrev pub first_and : ℕ → (ℕ → ℕ) → ℕ → ℕ
first_and t table zero = t
first_and t table (suc j) = table j

empty-Built :
    (s : Store) (d i offset flags : ℕ) → IsUsable s.heap → Built s s d i 0 offset flags (λ _. 0)
empty-Built s d i offset flags u = record {
  usable = u;
  room = omega arith;
  start = refl;
  kept_safe = λ a safe. safe;
  kept = λ a safe h. refl;
  entry = λ j h. absurd (omega arith);
  aligned = λ j h. absurd (omega arith);
  word = λ j h. absurd (omega arith);
  new = λ j h. absurd (omega arith);
  page = λ j k h h'. absurd (omega arith);
  distinct = λ j k h h' e. absurd (omega arith);
  mapped = λ j k h h'. absurd (omega arith);
}

unsafe_before :
    (h h' : Heap) (a : ℕ)
    → ((b : ℕ) → is_safe h b ≡ true → is_safe h' b ≡ true)
    → is_safe h' a ≡ false
    → is_safe h a ≡ false
unsafe_before h h' a kept e = elim (Bool-cases (is_safe h a)) [
  | inl safe ↦ absurd (differ e (kept a safe))
  | inr unsafe ↦ unsafe
]

-- A round, and the rounds behind it.
module _ (s s' : Store) (d i left offset flags : ℕ) (table : ℕ → ℕ) (u : IsUsable s.heap)
    (whole : s.heap.saddr % 4096 ≡ 0) (origin : d % 4096 ≡ 0) (some_free : 0 < free_blocks s.heap)
    (own : (k : ℕ) → k < 4096 → is_safe s.heap (d + k) ≡ true) (inside : i + left < 1024)
    (low : offset < 2 ^ 32)
    (rest : Built
      (after s d i offset flags)
      s'
      d
      (i + 1)
      left
      ((offset + 2 ^ 22) % 2 ^ 32)
      flags
      table) where
  abbrev t : ℕ
  t = table_address s

  f : Fresh s (zalloc s 4096).1 t 4096
  f = fresh s d i offset flags u some_free own (omega arith)

  old_unsafe :
      (a : ℕ) → is_safe (after s d i offset flags).heap a ≡ false → is_safe s.heap a ≡ false
  old_unsafe a e = unsafe_before s.heap (zalloc s 4096).1.heap a f.kept_safe e

  here : (a : ℕ) → a + 0 ≡ a
  here a = omega arith

  -- The first table is on no later one's page.
  differs : (j : ℕ) → j < left → t ≢ table j
  differs j h e =
      let at : t + 0 ≡ table j = omega (arith, e) in
      differ (rest.new j h) (sym (ap (is_safe (zalloc s 4096).1.heap) at) ∙ f.page 0 (omega arith))

  in_directory : (k : ℕ) → k < 1024 → is_safe s.heap (d + 4 * k) ≡ true
  in_directory k h = own (4 * k) (omega arith)

  -- The page of the new table and that of the directory do not meet.
  elsewhere :
      (k : ℕ) → k < 1024 → (t + 4 * k < d + 4 * (i + 1)) ⊎ (d + 4 * (i + 1 + left) ≤ t + 4 * k)
  elsewhere k h =
      let ne = apart s d i offset flags u some_free own (omega arith) 0 0 in
      elim (Bool-cases (ltb t d)) [
        | inl before ↦ inl (ground (arith, f.aligned, ne))
        | inr behind ↦ inr (ground (arith, f.aligned, ne))
      ]

  both_entry :
      (j : ℕ)
      → j < suc left
      → s'.memory (d + 4 * (i + j)) ≡ bit_or (first_and t table j) (bit_or flags 2)
  both_entry zero h =
      let at : d + 4 * (i + 0) ≡ d + 4 * i = omega arith in
      ap s'.memory at
      ∙ rest.kept (d + 4 * i) (f.kept_safe (d + 4 * i) (in_directory i (omega arith)))
          (inl (omega arith))
      ∙ after_entry s d i offset flags u some_free own (omega arith)
  both_entry (suc j) h = ap s'.memory (omega arith) ∙ rest.entry j (omega arith)

  both_mapped :
      (j k : ℕ)
      → j < suc left
      → k < 1024
      → s'.memory (first_and t table j + 4 * k)
        ≡ page_entry ((offset + j * 2 ^ 22) % 2 ^ 32) flags k
  both_mapped zero k h h' =
      rest.kept (t + 4 * k) (f.page (4 * k) (omega arith)) (elsewhere k h')
      ∙ after_mapped s d i offset flags u some_free own (omega arith) k h'
      ∙ ap (λ o. page_entry o flags k) (omega arith)
  both_mapped (suc j) k h h' =
      rest.mapped j k (omega arith) h' ∙ ap (λ o. page_entry o flags k) (omega arith)

  both_distinct :
      (j k : ℕ) → j < suc left → k < suc left → first_and t table j ≡ first_and t table k → j ≡ k
  both_distinct zero zero h h' e = refl
  both_distinct zero (suc k) h h' e = absurd (differs k (omega arith) e)
  both_distinct (suc j) zero h h' e = absurd (differs j (omega arith) (sym e))
  both_distinct (suc j) (suc k) h h' e = ap suc (rest.distinct j k (omega arith) (omega arith) e)

  both_kept :
      (a : ℕ)
      → is_safe s.heap a ≡ true
      → (a < d + 4 * i) ⊎ (d + 4 * (i + suc left) ≤ a)
      → s'.memory a ≡ s.memory a
  both_kept a safe h =
      rest.kept a (f.kept_safe a safe) (nearer h)
      ∙ after_kept s d i offset flags u some_free own (omega arith) a safe (outside h)
    where
      nearer :
          (a < d + 4 * i) ⊎ (d + 4 * (i + suc left) ≤ a)
          → (a < d + 4 * (i + 1)) ⊎ (d + 4 * (i + 1 + left) ≤ a)
      nearer (inl h) = inl (omega arith)
      nearer (inr h) = inr (omega arith)

      outside : (a < d + 4 * i) ⊎ (d + 4 * (i + suc left) ≤ a) → a ≢ d + 4 * i
      outside (inl h) e = omega arith
      outside (inr h) e = omega arith

  both_table :
      (P : ℕ → Type 0)
      → P t
      → ((j : ℕ) → j < left → P (table j))
      → (j : ℕ) → j < suc left
      → P (first_and t table j)
  both_table P first later zero h = first
  both_table P first later (suc j) h = later j (omega arith)

  both_page : (j k : ℕ) → j < suc left → k < 4096 → is_safe s'.heap (first_and t table j + k) ≡ true
  both_page zero k h h' = rest.kept_safe (t + k) (f.page k (omega arith))
  both_page (suc j) k h h' = rest.page j k (omega arith) h'

  both-Built : Built s s' d i (suc left) offset flags (first_and t table)
  both-Built = record {
    usable = rest.usable;
    room = omega (arith, rest.room, f.room);
    start = rest.start ∙ f.start;
    kept_safe = λ a safe. rest.kept_safe a (f.kept_safe a safe);
    kept = both_kept;
    entry = both_entry;
    aligned = both_table (λ a. a % 4096 ≡ 0) (omega (arith, f.aligned)) rest.aligned;
    word = both_table (λ a. a < 2 ^ 32) f.near.1 rest.word;
    new =
        both_table (λ a. is_safe s.heap a ≡ false)
          (sym (ap (is_safe s.heap) (here t)) ∙ f.new 0 (omega arith))
          (λ j h. old_unsafe (table j) (rest.new j h));
    page = both_page;
    distinct = both_distinct;
    mapped = both_mapped;
  }

-- One round, for tables of `n` entries.
fill_directory_round :
    (heap : Heap) (w : Words) (left d i n offset flags p : ℕ) (s : Store)
    → kzalloc_words heap w (4 * n) ≡ (p, s.heap, s.memory)
    → fill_directory (suc left) i d n offset flags heap w
      ≡ fill_directory left
          (i + 1)
          d
          n
          ((offset + n * 4096) % 2 ^ 32)
          flags
          s.heap
          (update (fill_table n 0 p offset flags s.memory) (d + 4 * i) (bit_or p (bit_or flags 2)))
unfolding fill_directory
fill_directory_round heap w left d i n offset flags p s e =
    ap
      (λ (r : ℕ × Heap × Words).
        fill_directory left (i + 1) d n ((offset + n * 4096) % 2 ^ 32) flags r.1
          (update (fill_table n 0 r.0 offset flags r.2) (d + 4 * i) (bit_or r.0 (bit_or flags 2))))
      e

fill_directory-suc :
    (s : Store) (left d i offset flags : ℕ)
    → fill_directory (suc left) i d 1024 offset flags s.heap s.memory
      ≡ fill_directory left
          (i + 1)
          d
          1024
          ((offset + 2 ^ 22) % 2 ^ 32)
          flags
          (after s d i offset flags).heap
          (after s d i offset flags).memory
fill_directory-suc s left d i offset flags =
    fill_directory_round s.heap s.memory left d i 1024 offset flags (table_address s)
      (zalloc s 4096).1 (kzalloc_words-zalloc s.heap s.memory 4096)

-- The loop over the entries of the directory.
pub fill_directory-Built :
    (left : ℕ) (s : Store) (d i offset flags : ℕ)
    → IsUsable s.heap
    → s.heap.saddr % 4096 ≡ 0
    → d % 4096 ≡ 0
    → left ≤ free_blocks s.heap
    → ((k : ℕ) → k < 4096 → is_safe s.heap (d + k) ≡ true)
    → i + left ≤ 1024
    → offset < 2 ^ 32
    → (s' : Store) × (table : ℕ → ℕ) × Built s s' d i left offset flags table
      × (fill_directory left i d 1024 offset flags s.heap s.memory ≡ (s'.heap, s'.memory))
fill_directory-Built zero s d i offset flags u whole origin room own inside low =
    (s, (λ _. 0), empty-Built s d i offset flags u, unfold fill_directory in refl)
fill_directory-Built (suc left) s d i offset flags u whole origin room own inside low =
    let some_free : 0 < free_blocks s.heap = omega arith in
    let f = fresh s d i offset flags u some_free own (omega arith) in
    let (s', table, rest, e) =
      fill_directory-Built left (after s d i offset flags) d (i + 1) ((offset + 2 ^ 22) % 2 ^ 32)
        flags f.usable (omega (arith, f.start)) origin (omega (arith, f.room))
        (λ k h. f.kept_safe (d + k) (own k h)) (omega arith) (omega arith) in
    (
      s',
      first_and (table_address s) table,
      both-Built s s' d i left offset flags table u whole origin some_free own (omega arith) low
          rest,
      fill_directory-suc s left d i offset flags ∙ e,
    )
