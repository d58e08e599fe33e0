-- ===== src/Disk/Tests.antt =====
-- The theorems on disk and stream at a small image.
use nuts_os.Base.{ℕ, ◌+◌, ◌*◌, ◌%◌, ◌≡◌, arith, refl, some, ok}
use nuts_os.Memory.{Mem}
use nuts_os.Disk.{Drive, read}
use nuts_os.Disk.Sector.{Holds, IsBytes, command_lba}
use nuts_os.Disk.Stream.{Loaded, at_pos, read-Loaded}

abbrev image : ℕ → ℕ
image a = a % 251

abbrev drive : Drive
drive c i = image (command_lba c * 512 + 2 * i) + 256 * image (command_lba c * 512 + 2 * i + 1)

drive-Holds : Holds drive image
drive-Holds c i one small = refl

image-IsBytes : IsBytes image
image-IsBytes a = omega arith

-- A read that crosses two borders of sectors.
read-Loaded_example :
    (m' : Mem) × (read drive (at_pos 500) 4096 600 (λ _. 0) ≡ some (ok tt, at_pos (500 + 600), m'))
    × Loaded image 500 4096 600 (λ _. 0) m'
read-Loaded_example =
    read-Loaded drive image drive-Holds image-IsBytes 500 4096 600 (λ _. 0) (omega arith)
