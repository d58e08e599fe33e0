-- ===== src/Fat/Files/Reading.antt =====
-- fat16_read: which bytes of a file it reads, along the file's chain of clusters.
use nuts_os.Base.{
  ℕ, zero, suc, ◌+◌, ◌-◌, ◌*◌, ◌/◌, ◌%◌, ◌^◌, ◌<◌, ◌≤◌, ◌≡◌, ◌&&◌, false, some, ltb, leb,
  if◌then◌else◌, arith, Bool-cases, inl, inr, ap, ◌∙◌, refl,
}
use mathlib.Core.Path.{subst}
use nuts_os.Memory.{Mem}
use nuts_os.Disk.{Drive}
use nuts_os.Disk.Sector.{Holds, IsBytes}
use nuts_os.Disk.Stream.{Loaded, Loaded-append}
use nuts_os.Fat.{FatDisk, FatDirectoryItem}
use nuts_os.Fat.Clusters.{read_internal}
use nuts_os.Fat.Clusters.Entries.{IsMounted, follow}
use nuts_os.Fat.Clusters.Rounds.{bpc, base, div_small}
use nuts_os.Fat.Clusters.Reads.{one_round}
use nuts_os.Fat.Files.{FatFileDescriptor, read_elements, fat_read, file_item}

-- A file whose chain of clusters reaches the clusters of `chain` for each offset of the file, where
-- the clusters of `chain` lie below 2 GiB, so at positions that are ints.
pub record IsChain (image : ℕ → ℕ) (disk : FatDisk) (item : FatDirectoryItem) (chain : ℕ → ℕ)
    : Type 0 where
  pub small : item.low_16_bits_first_cluster < 2 ^ 16
  pub reach :
      (o : ℕ)
      → o < item.filesize
      → follow image disk (o / bpc disk) item.low_16_bits_first_cluster
        ≡ some (chain (o / bpc disk))
  pub word : (j : ℕ) → chain j < 2 ^ 31
  pub inside : (j : ℕ) → base disk (chain j) + bpc disk < 2 ^ 31

-- The byte of a file at an offset.
abbrev pub file_byte : (ℕ → ℕ) → FatDisk → (ℕ → ℕ) → ℕ → ℕ
file_byte image disk chain o = image (base disk (chain (o / bpc disk)) + o % bpc disk)

-- How many elements of a size fit, of at most `nmemb`.
abbrev pub fitting : ℕ → ℕ → ℕ → ℕ
fitting rest size nmemb = if ltb (rest / size) nmemb then rest / size else nmemb

same_cluster :
    (o k b : ℕ) → 0 < b → o % b + k < b → ((o + k) / b ≡ o / b) × ((o + k) % b ≡ o % b + k)
same_cluster o k b positive fits = (grind arith, grind arith)

none_fits : (rest size nmemb : ℕ) → rest < size → fitting rest size nmemb ≡ 0
none_fits rest size nmemb h = ground (arith, div_small rest size h)

one_fits :
    (rest size nmemb : ℕ)
    → 0 < size
    → size ≤ rest
    → fitting rest size (suc nmemb) ≡ suc (fitting (rest - size) size nmemb)
one_fits rest size nmemb positive h = grind arith

element_step :
    (nmemb fuel : ℕ) (drive : Drive) (disk : FatDisk) (item : FatDirectoryItem)
    (size o out read o' out' : ℕ) (m m₁ : Mem)
    → ltb ((item.filesize + 2 ^ 32 - o) % 2 ^ 32) size ≡ false
    → read_internal fuel drive disk item.low_16_bits_first_cluster o size out m ≡ some (0, m₁)
    → (o + size) % 2 ^ 32 ≡ o'
    → (out + size) % 2 ^ 32 ≡ out'
    → read_elements (suc nmemb) fuel drive disk item size o out read m
      ≡ read_elements nmemb fuel drive disk item size o' out' (read + 1) m₁
unfolding read_elements
element_step nmemb fuel drive disk item size o out read o' out' m m₁ fine e at at' =
    rw (fine, e, at, at', read_elements) refl

module _ (drive : Drive) (image : ℕ → ℕ) (holds : Holds drive image) (bytes : IsBytes image)
    (disk : FatDisk) (mounted : IsMounted disk) (item : FatDirectoryItem) (chain : ℕ → ℕ)
    (chained : IsChain image disk item chain) where
  in_cluster :
      (o k : ℕ)
      → o % bpc disk + k < bpc disk
      → image (base disk (chain (o / bpc disk)) + o % bpc disk + k)
        ≡ file_byte image disk chain (o + k)
  in_cluster o k fits =
      let (same, further) = same_cluster o k (bpc disk) mounted.cluster_bytes fits in
      ap image (omega (arith, ap (λ j. base disk (chain j)) same, further))

  -- One element, inside one cluster.
  read_element :
      (fuel o size out : ℕ) (m : Mem)
      → 0 < size
      → item.filesize < 2 ^ 31
      → o + size ≤ item.filesize
      → o % bpc disk + size ≤ bpc disk
      → (m' : Mem) × (read_internal
            (suc fuel)
            drive
            disk
            item.low_16_bits_first_cluster
            o
            size
            out
            m
          ≡ some (0, m'))
        × Loaded (file_byte image disk chain) o out size m m'
  read_element fuel o size out m positive short within fits =
      let t = chain (o / bpc disk) in
      let (m', e, l) =
        one_round drive image holds bytes disk mounted fuel item.low_16_bits_first_cluster t o size
          out m chained.small (omega arith) (chained.reach o (omega arith))
          (chained.word (o / bpc disk)) (chained.inside (o / bpc disk)) fits in
      (
        m',
        e,
        λ a. elim (Bool-cases (leb out a && ltb a (out + size))) [
          | inl h ↦
              let near : o % bpc disk + (a - out) < bpc disk = ground arith in
              ground (arith, l a, in_cluster o (a - out) near)
          | inr h ↦ ground (arith, l a)
        ],
      )

  read_elements-Loaded :
      (nmemb fuel size o out read : ℕ) (m : Mem)
      → item.filesize < 2 ^ 31
      → o ≤ item.filesize
      → 0 < size
      → size < 2 ^ 31
      → out + nmemb * size < 2 ^ 32
      → ((j : ℕ) → j < nmemb → (o + j * size) % bpc disk + size ≤ bpc disk)
      → let k = fitting (item.filesize - o) size nmemb in
        (m' : Mem) × (read_elements nmemb (suc fuel) drive disk item size o out read m
          ≡ some (read + k, m'))
        × Loaded (file_byte image disk chain) o out (k * size) m m'
  unfolding read_elements
  read_elements-Loaded zero fuel size o out read m short start positive word room fits =
      (m, ground arith, λ a. ground arith)
  read_elements-Loaded (suc nmemb) fuel size o out read m short start positive word room fits =
      let left : (item.filesize + 2 ^ 32 - o) % 2 ^ 32 ≡ item.filesize - o = omega arith in
      elim (Bool-cases (ltb (item.filesize - o) size)) [
        | inl over ↦
            let none_left = none_fits (item.filesize - o) size (suc nmemb) (ground arith) in
            rw none_left (m, ground arith, λ a. ground arith)
        | inr fine ↦
            let (m₁, e, l) =
              read_element fuel o size out m positive short (ground arith)
                (ground (arith, fits 0)) in
            let later : (j : ℕ) → j < nmemb → (o + size + j * size) % bpc disk + size ≤ bpc disk =
              λ j h.
                subst (λ x. x % bpc disk + size ≤ bpc disk) (omega arith)
                  (fits (suc j) (omega arith)) in
            let (m₂, e', l') =
              read_elements-Loaded nmemb fuel size (o + size) (out + size) (read + 1) m₁ short
                (ground arith) positive word (ground arith) later in
            let k = fitting (item.filesize - o - size) size nmemb in
            let behind : item.filesize - (o + size) ≡ item.filesize - o - size = omega arith in
            let count = one_fits (item.filesize - o) size nmemb positive (ground arith) in
            let more = Loaded-append (file_byte image disk chain) o size (k * size) out m m₁ m₂ l (
              subst
                (λ r.
                  Loaded (file_byte image disk chain) (o + size) (out + size)
                    (fitting r size nmemb * size) m₁ m₂)
                behind l') in
            rw count (
              m₂,
              element_step nmemb (suc fuel) drive disk item size o out read (o + size) (out + size)
                    m m₁ (rw left fine) e (omega arith) (omega arith)
                  ∙ e'
                  ∙ ap (λ r. some (r, m₂))
                      (ap (λ n. read + 1 + fitting n size nmemb) behind ∙ omega arith),
              subst (λ n. Loaded (file_byte image disk chain) o out n m m₂) (omega arith) more,
            )
      ]

-- On a mounted disk, so with its table below 2 GiB, whose drive holds a byte image, for a file of
-- less than 2^31 bytes at a cluster below 2^16, whose chain reaches all its bytes and has its
-- clusters below 2 GiB: fat16_read of elements of at least one byte, from a position inside the
-- file, none of which crosses a cluster, given a round of fuel, reads as many whole elements as the
-- file has from there, at most the number asked for, puts exactly those bytes of the file at `out`,
-- which does not pass 4 GiB, and returns their count.
pub fat_read_lem :
    (drive : Drive) (image : ℕ → ℕ) (disk : FatDisk) (desc : FatFileDescriptor)
    (item : FatDirectoryItem) (chain : ℕ → ℕ) (fuel size nmemb out : ℕ) (m : Mem)
    → Holds drive image
    → IsBytes image
    → IsMounted disk
    → file_item desc ≡ some item
    → IsChain image disk item chain
    → item.filesize < 2 ^ 31
    → desc.pos ≤ item.filesize
    → 0 < size
    → size < 2 ^ 31
    → out + nmemb * size < 2 ^ 32
    → ((j : ℕ) → j < nmemb → (desc.pos + j * size) % bpc disk + size ≤ bpc disk)
    → let k = fitting (item.filesize - desc.pos) size nmemb in
      (m' : Mem) × (fat_read (suc fuel) drive disk desc size nmemb out m ≡ some (k, m'))
      × Loaded (file_byte image disk chain) desc.pos out (k * size) m m'
unfolding fat_read
fat_read_lem drive image disk desc item chain fuel size nmemb out m holds bytes mounted at chained
      short start positive word room fits =
    let (m', e, l) =
      read_elements-Loaded drive image holds bytes disk mounted item chain chained nmemb fuel size
        desc.pos out 0 m short start positive word room fits in
    let k = fitting (item.filesize - desc.pos) size nmemb in
    (m', rw (at, fat_read) (e ∙ ap (λ n. some (n, m')) (zero_add k)), l)
  where
    zero_add : (n : ℕ) → 0 + n ≡ n
    zero_add n = omega arith
