-- ===== src/Fat/Volume/Resolve.antt =====
-- fat16_resolve: a volume is accepted, and a disk without the FAT16 signature is refused.
use nuts_os.Base.{
  ℕ, ◌+◌, ◌<◌, ◌≤◌, ◌≡◌, ◌≢◌, ◌==◌, false, some, none, arith, ap, ◌∙◌, refl, ok, Option, einvalid,
}
use nuts_os.Memory.{Mem}
use nuts_os.Heap.Store.{Store, IsUsable, free_blocks, zalloc}
use nuts_os.Heap.Store.Taking.{zalloc-Fresh}
use nuts_os.Disk
use nuts_os.Disk.{Drive, DiskStream}
use nuts_os.Disk.Sector.{Holds, IsBytes}
use nuts_os.Disk.Stream.{at_pos, read-Loaded}
use nuts_os.Fat.{FatPrivate, FatHeader, header_at, neg}
use nuts_os.Fat.Volume.{new_stream, init_private, finish, resolve_header, resolve_read, resolve}
use nuts_os.Fat.Volume.Blocks.{
  new_stream-Fresh, init_private-Grown, IsGiven, IsGiven-later, Fresh-IsGiven, finish_err,
}
use nuts_os.Fat.Volume.Geometry.{
  boot_header, header_read, IsVolume, Resolved, resolve_header-Resolved,
}

-- The steps up to the header, given what they return.
header_steps :
    (fuel : ℕ) (drive : Drive) (p q : ℕ) (private : FatPrivate) (stream end : DiskStream)
    (s : Store) (m : Mem) (h : FatHeader)
    → Disk.read drive stream p 62 s.memory ≡ some (ok tt, end, m)
    → header_at m p ≡ h
    → resolve_read fuel drive 512 p private (q, some stream, s)
      ≡ resolve_header fuel drive 512 p q (record private { header = h }) (record s { memory = m })
unfolding resolve_read
header_steps fuel drive p q private stream end s m h done read =
    rw (done, resolve_read)
      (ap
        (λ x.
          resolve_header fuel drive 512 p q (record private { header = x })
            (record s { memory = m }))
        read)

resolve_steps :
    (fuel : ℕ) (drive : Drive) (s s₂ : Store) (private : FatPrivate)
    (made : ℕ × Option DiskStream × Store)
    → init_private 0 (zalloc s 104).0 (zalloc s 104).1 ≡ (private, s₂)
    → new_stream 0 s₂ ≡ made
    → resolve fuel drive 0 512 s ≡ resolve_read fuel drive 512 (zalloc s 104).0 private made
unfolding resolve
resolve_steps fuel drive s s₂ private made e e' =
    ap
      (λ (r : FatPrivate × Store).
        resolve_read fuel drive 512 (zalloc s 104).0 r.0 (new_stream 0 r.1))
      e
    ∙ ap (resolve_read fuel drive 512 (zalloc s 104).0 private) e'

-- The state when the header is read.
record Opened (drive : Drive) (image : ℕ → ℕ) (fuel : ℕ) (s : Store) : Type 0 where
  p : ℕ
  q : ℕ
  private : FatPrivate
  state : Store
  clusters : private.cluster_read_stream ≡ some (at_pos 0)
  table : private.fat_read_stream ≡ some (at_pos 0)
  items : private.directory_stream ≡ some (at_pos 0)
  usable : IsUsable state.heap
  room : free_blocks state.heap + 5 ≡ free_blocks s.heap
  given_p : IsGiven state.heap p
  given_q : IsGiven state.heap q
  reads :
      resolve fuel drive 0 512 s
      ≡ resolve_header fuel drive 512 p q (record private { header = boot_header image }) state

resolve_opens :
    (drive : Drive) (image : ℕ → ℕ) (fuel : ℕ) (s : Store)
    → Holds drive image
    → IsBytes image
    → IsUsable s.heap
    → 5 ≤ free_blocks s.heap
    → Opened drive image fuel s
resolve_opens drive image fuel s holds bytes u room =
    let f = zalloc-Fresh s 104 u (omega arith) (omega arith) (omega arith) in
    let p = (zalloc s 104).0 in
    let s₁ = (zalloc s 104).1 in
    let (private, s₂, made, open₁, open₂, open₃, g) =
      init_private-Grown p s₁ f.usable (omega (arith, f.room)) in
    let (q, s₃, opened, f') = new_stream-Fresh s₂ g.usable (omega (arith, f.room, g.room)) in
    let (m, done, l) = read-Loaded drive image holds bytes 0 p 62 s₃.memory (omega arith) in
    record {
      p = p;
      q = q;
      private = private;
      state = record s₃ { memory = m };
      clusters = open₁;
      table = open₂;
      items = open₃;
      usable = f'.usable;
      room = omega (arith, f.room, g.room, f'.room);
      given_p =
          IsGiven-later s.heap s₃.heap p (Fresh-IsGiven s s₁ p 104 f)
            (f'.start ∙ g.start ∙ f.start);
      given_q = IsGiven-later s₂.heap s₃.heap q (Fresh-IsGiven s₂ s₃ q 8 f') f'.start;
      reads =
          resolve_steps fuel drive s s₂ private (q, some (at_pos 0), s₃) made opened
          ∙ header_steps fuel drive p q private (at_pos 0) (at_pos 62) s₃ m (boot_header image) done
              (header_read image p s₃.memory m l);
    }

-- On a usable heap with six free blocks, and a drive that holds the image of a volume, whose values
-- are bytes, and whose root directory takes at most 4096 bytes and ends, with the first item that
-- starts with a zero, below 2 GiB: fat16_resolve, given more fuel than the root directory has items
-- up to its end, accepts the disk, and the private structure that it leaves has the geometry of the
-- boot sector, open streams, and the root directory, with its used items counted and its bytes in
-- memory.
pub resolve-Resolved :
    (drive : Drive) (image : ℕ → ℕ) (k fuel : ℕ) (s : Store)
    → Holds drive image
    → IsBytes image
    → IsVolume image k
    → k < fuel
    → IsUsable s.heap
    → 6 ≤ free_blocks s.heap
    → (private : FatPrivate) × (s' : Store) × (resolve fuel drive 0 512 s
        ≡ some (0, some private, s'))
      × Resolved image k private s'.memory
resolve-Resolved drive image k fuel s holds bytes volume enough u room =
    let o = resolve_opens drive image fuel s holds bytes u (omega arith) in
    let (private, s', e, r) =
      resolve_header-Resolved drive image holds bytes k fuel volume enough o.p o.q o.private o.state
        o.clusters o.table o.items o.usable (omega (arith, o.room)) o.given_q in
    (private, s', o.reads ∙ e, r)

bad_signature :
    (fuel : ℕ) (drive : Drive) (p q : ℕ) (private : FatPrivate) (s : Store)
    → (private.header.signature == 0x29) ≡ false
    → resolve_header fuel drive 512 p q private s ≡ finish (neg einvalid) p q private s
unfolding resolve_header
bad_signature fuel drive p q private s e = rw (e, resolve_header) refl

-- On a usable heap with five free blocks, and a drive that holds a byte image whose boot sector
-- lacks the signature 0x29, fat16_resolve returns -EINVALID and leaves the disk without a private
-- structure.
pub resolve-refused :
    (drive : Drive) (image : ℕ → ℕ) (fuel : ℕ) (s : Store)
    → Holds drive image
    → IsBytes image
    → (boot_header image).signature ≢ 0x29
    → IsUsable s.heap
    → 5 ≤ free_blocks s.heap
    → (s' : Store) × (resolve fuel drive 0 512 s ≡ some (neg einvalid, none, s'))
resolve-refused drive image fuel s holds bytes unsigned u room =
    let o = resolve_opens drive image fuel s holds bytes u room in
    let private = record (o.private) { header = boot_header image } in
    let (s', e) = finish_err (neg einvalid) o.p o.q private o.state refl o.given_q o.given_p in
    (s', o.reads ∙ bad_signature fuel drive o.p o.q private o.state (ground arith) ∙ e)
