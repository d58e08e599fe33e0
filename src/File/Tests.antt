-- ===== src/File/Tests.antt =====
-- The theorems on files at empty tables.
use nuts_os.Base.{ℕ, ◌+◌, ◌≡◌, ◌≢◌, ◌⊎◌, ◌<◌, ◌==◌, if◌then◌else◌, some, enomem}
use nuts_os.Base.Int.{pos}
use nuts_os.Heap.Kernel.{kzalloc}
use nuts_os.Fat.{neg}
use nuts_os.Heap.Store.{Store}
use nuts_os.File.{
  Filesystem, Files, null_descriptor, file_descriptor_new, file_get_descriptor,
  file_mode_from_string, FileOps, fopen,
}
use nuts_os.File.Descriptors.{file_descriptor_new_lem}
use nuts_os.File.Opening.{Opened, opened_descriptor, fopen-Opened}

abbrev store : Store
store = record {
  heap = record { table = record { entries = λ _. 0; total = 4 }; saddr = 0x01000000 };
  memory = λ a. if a == 20 then b'w' else 0;
}

abbrev files : Files
files = record {
  filesystems = λ _. 0;
  file_descriptors = λ i. if i == 0 then 0x5000 else 0;
  descriptor_at = λ _. record null_descriptor { index = 1 };
  store = store;
  errno = 0;
}

-- A file system that resolves the disk at 1.
abbrev system : ℕ → Filesystem
system address = record {
  resolve = λ disk s. if disk == 1 then (0, s) else (neg enomem, s);
  fs_open = λ disk path mode s. (0x6000, s);
  read = λ disk handle size nmemb out s. (nmemb, s);
  seek = λ handle offset mode s. (0, s);
  stat = λ disk handle stat s. (0, s);
  close = λ handle s. (0, s);
}

file_descriptor_new_lem_example :
    (((i : ℕ) → i < 1024 → files.file_descriptors i ≢ 0)
      × (file_descriptor_new files ≡ (neg enomem, 0, files)))
    ⊎ ((k : ℕ) × (k < 1024)
        × (files.file_descriptors k ≡ 0)
        × ((j : ℕ) → j < k → files.file_descriptors j ≢ 0)
        × let (res, desc, s') = file_descriptor_new files in
          (res ≡ 0)
          × (desc ≡ (kzalloc store.heap store.memory 20).0)
          × (s'.descriptor_at desc ≡ record null_descriptor { index = k + 1 })
          × (file_get_descriptor s' (pos (k + 1)) ≡ (if k + 1 == 1024 then 0 else desc))
          × ((fd : ℕ)
              → fd ≢ k + 1
              → file_get_descriptor s' (pos fd) ≡ file_get_descriptor files (pos fd)))
file_descriptor_new_lem_example = file_descriptor_new_lem files

-- A parser that finds the path at any address on drive 0.
abbrev ops : FileOps
ops = record {
  system_at = system;
  parse = λ filename s. (some (0, 0x8000), s);
  filesystem_of = λ disk. 0x7000;
}

fopen-Opened_example :
    Opened files
      (opened_descriptor ops (some (0, 0x8000)) (file_mode_from_string store.memory 20) store)
      (fopen ops files 0x9000 20)
fopen-Opened_example = fopen-Opened ops files 0x9000 20
