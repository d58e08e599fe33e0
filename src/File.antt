-- ===== src/File.antt =====
-- fs/file.c and fs/file.h: the table of file systems and the descriptors of open files. Structures
-- are named by their addresses, 0 being the null pointer, and an int is its 32-bit word.
pub mod Mode
pub mod Systems
pub mod Descriptors
pub mod Opening
mod Tests
use nuts_os.Base.{
  ℕ, zero, suc, ◌+◌, ◌-◌, ◌*◌, ◌^◌, ◌==◌, not, ◌||◌, ◌&&◌, if◌then◌else◌, ltb, leb, update, Option,
  none, some, [], ◌∷◌, Bool, true, false, eio, einvarg, enomem,
}
use nuts_os.Base.Int.{ℤ, pos, negsuc, is_zero}
use nuts_os.Memory.{Mem, literal}
use nuts_os.Heap.{Heap}
use nuts_os.Heap.Kernel.{kzalloc}
use nuts_os.Heap.Store.{Store}
use nuts_os.Text.{strncmp}
use nuts_os.Disk.{disk_get}
use nuts_os.Fat.{neg, is_err}

abbrev pub max_filesystems : ℕ
max_filesystems = 16

abbrev pub max_file_descriptors : ℕ
max_file_descriptors = 1024

pub data FileSeekMode : Type 0 where
  seek_set : FileSeekMode
  seek_cur : FileSeekMode
  seek_end : FileSeekMode

pub data FileMode : Type 0 where
  mode_read : FileMode
  mode_write : FileMode
  mode_append : FileMode
  mode_invalid : FileMode

-- The functions that struct filesystem points to, for the disks and private data they are given
-- by address; each may change memory and returns a word.
pub record Filesystem : Type 0 where
  pub resolve : ℕ → Store → ℕ × Store
  pub fs_open : ℕ → ℕ → FileMode → Store → ℕ × Store
  pub read : ℕ → ℕ → ℕ → ℕ → ℕ → Store → ℕ × Store
  pub seek : ℕ → ℕ → FileSeekMode → Store → ℕ × Store
  pub stat : ℕ → ℕ → ℕ → Store → ℕ × Store
  pub close : ℕ → Store → ℕ × Store

pub record FileDescriptor : Type 0 where
  pub index : ℕ
  pub filesystem : ℕ
  pub private : ℕ
  pub mode : FileMode
  pub disk : ℕ

-- The two tables of file.c, with the descriptors that stand at the addresses of the second.
pub record Files : Type 0 where
  pub filesystems : ℕ → ℕ
  pub file_descriptors : ℕ → ℕ
  pub descriptor_at : ℕ → FileDescriptor
  pub store : Store
  pub errno : ℕ

-- The first empty slot of a table.
unfoldable pub free_slot : (ℕ → ℕ) → ℕ → ℕ → Option ℕ
free_slot table zero i = none
free_slot table (suc left) i = elim (table i == 0) [
  | true ↦ some i
  | false ↦ free_slot table left (i + 1)
]

unfoldable pub fs_get_free_filesystem : Files → Option ℕ
unfolding free_slot
fs_get_free_filesystem s = free_slot s.filesystems max_filesystems 0

unfoldable pub fs_insert_filesystem : Files → ℕ → ℕ × Files
fs_insert_filesystem s filesystem = elim (fs_get_free_filesystem s) [
  | none ↦ (neg enomem, s)
  | some i ↦ (0, record s { filesystems = update s.filesystems i filesystem })
]

-- With the address of the file system that fat16_init returns.
unfoldable pub fs_init : Files → ℕ → Files
fs_init s fat16 =
    let cleared = record s { file_descriptors = λ _. 0; filesystems = λ _. 0 } in
    (fs_insert_filesystem cleared fat16).1

abbrev pub descriptor_size : ℕ
descriptor_size = 20

abbrev pub null_descriptor : FileDescriptor
null_descriptor = record { index = 0; filesystem = 0; private = 0; mode = mode_read; disk = 0 }

-- kzalloc's result is not tested, as in the source.
abbrev pub descriptor_in : Files → ℕ → ℕ × Files
descriptor_in s i =
    let (desc, heap, memory) = kzalloc s.store.heap s.store.memory descriptor_size in
    (
      desc,
      record s {
        store = record { heap = heap; memory = memory };
        descriptor_at = update s.descriptor_at desc (record null_descriptor { index = i + 1 });
        file_descriptors = update s.file_descriptors i desc;
      },
    )

-- The result, the descriptor and the new state; no descriptor is written where the table is full.
unfoldable pub file_descriptor_new : Files → ℕ × ℕ × Files
unfolding free_slot
file_descriptor_new s = elim (free_slot s.file_descriptors max_file_descriptors 0) [
  | none ↦ (neg enomem, 0, s)
  | some i ↦ let (desc, s') = descriptor_in s i in (0, desc, s')
]

-- On an int.
unfoldable pub file_get_descriptor : Files → ℤ → ℕ
file_get_descriptor s (negsuc _) = 0
file_get_descriptor s (pos fd) =
    if (fd == 0) || leb max_file_descriptors fd then 0 else s.file_descriptors (fd - 1)

-- The rounds of fs_resolve: a resolve may change memory before it refuses.
unfoldable pub resolve_loop : (ℕ → Filesystem) → ℕ → ℕ → ℕ → (ℕ → ℕ) → Store → ℕ × Store
resolve_loop system_at disk zero i filesystems store = (0, store)
resolve_loop system_at disk (suc left) i filesystems store = elim (filesystems i == 0) [
  | true ↦ resolve_loop system_at disk left (i + 1) filesystems store
  | false ↦
      let (res, store') = (system_at (filesystems i)).resolve disk store in
      elim (res == 0) [
        | true ↦ (filesystems i, store')
        | false ↦ resolve_loop system_at disk left (i + 1) filesystems store'
      ]
]

unfoldable pub fs_resolve : (ℕ → Filesystem) → Files → ℕ → ℕ × Files
unfolding resolve_loop
fs_resolve system_at s disk =
    let (fs, store) = resolve_loop system_at disk max_filesystems 0 s.filesystems s.store in
    (fs, record s { store = store })

-- The comparison of an int with 0.
unfoldable pub file_mode_from_string : Mem → ℕ → FileMode
file_mode_from_string m str =
    if is_zero (strncmp m (literal (b'r' ∷ [])) str 0 1)
    then mode_read
    else if is_zero (strncmp m (literal (b'w' ∷ [])) str 0 1)
    then mode_write
    else if is_zero (strncmp m (literal (b'a' ∷ [])) str 0 1)
    then mode_append
    else mode_invalid

-- What fopen calls: the parser, which gives no root for a bad path, else a drive and the address
-- of the first part, and the file systems of the disks.
pub record FileOps : Type 0 where
  pub system_at : ℕ → Filesystem
  pub parse : ℕ → Store → Option (ℕ × ℕ) × Store
  pub filesystem_of : ℕ → ℕ

abbrev pub fail_open : ℕ → Files → ℕ × Files
fail_open errno s = (0, record s { errno = errno })

-- The descriptor is written to, even where it is null.
abbrev pub fill_descriptor : FileOps → ℕ → FileMode → ℕ → ℕ × Files → ℕ × Files
fill_descriptor ops disk mode handle (fdesc, s) =
    let old = s.descriptor_at fdesc in
    let new = record old {
      filesystem = ops.filesystem_of disk;
      private = handle;
      mode = mode;
      disk = disk;
    } in
    (fdesc, record s { descriptor_at = update s.descriptor_at fdesc new })

-- The test of the file system's result never holds: it asks whether a pointer is below 0. An error
-- code is kept as the private data.
unfoldable pub open_new : FileOps → ℕ → FileMode → ℕ × Store → Files → ℕ × Files
open_new ops disk mode (handle, store) s =
    let (res, fdesc, s') = file_descriptor_new (record s { store = store }) in
    let s'' = record s' { errno = res } in
    if is_err res then (0, s'') else fill_descriptor ops disk mode handle (fdesc, s'')

unfoldable pub open_mode : FileOps → ℕ → ℕ → Files → FileMode → ℕ × Files
unfolding open_new
open_mode ops disk first s mode_invalid = fail_open (neg einvarg) s
open_mode ops disk first s mode_read =
    open_new ops disk mode_read
      ((ops.system_at (ops.filesystem_of disk)).fs_open disk first mode_read s.store) s
open_mode ops disk first s mode_write =
    open_new ops disk mode_write
      ((ops.system_at (ops.filesystem_of disk)).fs_open disk first mode_write s.store) s
open_mode ops disk first s mode_append =
    open_new ops disk mode_append
      ((ops.system_at (ops.filesystem_of disk)).fs_open disk first mode_append s.store) s

unfoldable pub open_on : FileOps → ℕ → ℕ → ℕ → Files → ℕ × Files
unfolding open_mode
open_on ops disk first mode_str s =
    if (disk == 0) || (ops.filesystem_of disk == 0)
    then fail_open (neg eio) s
    else open_mode ops disk first s (file_mode_from_string s.store.memory mode_str)

unfoldable pub open_path : FileOps → Option (ℕ × ℕ) → ℕ → Files → ℕ × Files
unfolding open_on
open_path ops none mode_str s = fail_open (neg einvarg) s
open_path ops (some (drive_no, first)) mode_str s =
    if first == 0
    then fail_open (neg einvarg) s
    else open_on ops (disk_get drive_no) first mode_str s

unfoldable pub fopen : FileOps → Files → ℕ → ℕ → ℕ × Files
unfolding open_path
fopen ops s filename mode_str =
    let (root_path, store) = ops.parse filename s.store in
    open_path ops root_path mode_str (record s { store = store })

abbrev pub with_result : Files → ℕ × Store → ℕ × Files
with_result s (res, store) = (res, record s { store = store })

-- The file system and the descriptor behind `fd`.
abbrev pub descriptor_of : Files → ℤ → Option FileDescriptor
descriptor_of s fd =
    let desc = file_get_descriptor s fd in if desc == 0 then none else some (s.descriptor_at desc)

unfoldable pub fread : (ℕ → Filesystem) → Files → ℕ → ℕ → ℕ → ℤ → ℕ × Files
fread system_at s ptr size nmemb fd =
    if (size == 0) || (nmemb == 0) then (neg einvarg, s) else elim (descriptor_of s fd) [
      | none ↦ (neg einvarg, s)
      | some d ↦
          with_result s ((system_at d.filesystem).read d.disk d.private size nmemb ptr s.store)
    ]

unfoldable pub fseek : (ℕ → Filesystem) → Files → ℤ → ℕ → FileSeekMode → ℕ × Files
fseek system_at s fd offset mode = elim (descriptor_of s fd) [
  | none ↦ (neg eio, s)
  | some d ↦ with_result s ((system_at d.filesystem).seek d.private offset mode s.store)
]

unfoldable pub fstat : (ℕ → Filesystem) → Files → ℤ → ℕ → ℕ × Files
fstat system_at s fd stat = elim (descriptor_of s fd) [
  | none ↦ (neg eio, s)
  | some d ↦ with_result s ((system_at d.filesystem).stat d.disk d.private stat s.store)
]

unfoldable pub fclose : (ℕ → Filesystem) → Files → ℤ → ℕ × Files
fclose system_at s fd = elim (descriptor_of s fd) [
  | none ↦ (neg eio, s)
  | some d ↦ (0, record s { store = ((system_at d.filesystem).close d.private s.store).1 })
]
