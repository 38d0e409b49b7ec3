-- ===== src/Block.antt =====
-- src/kernel/drivers/blkdev.c: block devices and the partition that is found in a disk's first sector. A
-- transfer is what reaches the driver of the disk: its first sector and its sectors, or none for the result -1.
-- Sector numbers are 32-bit.
pub mod Bounds
mod Tests
use kil0y_os.Prelude.{
  ℕ, zero, suc, ◌+◌, ◌-◌, ◌*◌, ◌%◌, ◌^◌, Bool, true, false, not, ◌&&◌, ◌||◌, Option, none, some,
  ltb, leb, ◌==◌, if◌then◌else◌,
}

-- blkdev_t: a disk by its sectors, or a partition by its start, its sectors and its parent (part_priv_t).
pub data Device : Type 0 where
  disk : ℕ → Device
  partition : ℕ → ℕ → Device → Device

abbrev pub sector_count : Device → ℕ
sector_count (disk n) = n
sector_count (partition start n parent) = n

-- The bounds test of blkdev_read and blkdev_write, and of part_read and part_write.
abbrev pub is_outside : ℕ → ℕ → ℕ → Bool
is_outside n lba count = leb n lba || ltb (n - lba) count

-- blkdev_read and blkdev_write, of a device with a driver.
unfoldable pub access : Device → ℕ → ℕ → Option (ℕ × ℕ)
access (disk n) lba count = if count == 0 || is_outside n lba count then none else some (lba, count)
access (partition start n parent) lba count =
    let inner = access parent ((start + lba) % 2 ^ 32) count in
    if count == 0 || is_outside n lba count
    then none
    else (if is_outside n lba count then none else inner)

abbrev pub read32_le : (ℕ → ℕ) → ℕ → ℕ
read32_le sec i = sec i + sec (i + 1) * 2 ^ 8 + sec (i + 2) * 2 ^ 16 + sec (i + 3) * 2 ^ 24

-- The slots of the partition table from `slot` on: the start and the sectors of the first Linux one.
unfoldable pub find_slot : ℕ → (ℕ → ℕ) → ℕ → Option (ℕ × ℕ)
find_slot zero sec slot = none
find_slot (suc n) sec slot =
    let e = 446 + slot * 16 in
    let start = read32_le sec (e + 8) in
    let count = read32_le sec (e + 12) in
    let rest = find_slot n sec (slot + 1) in
    if not (sec (e + 4) == 0x83)
    then rest
    else (if count == 0 || ltb start 2048 then rest else some (start, count))

-- mbr_first_linux over the first sector of a disk, where kmalloc succeeds.
unfoldable pub mbr_first_linux : Device → (ℕ → ℕ) → Option Device
mbr_first_linux parent sec =
    if not (sec 510 == 0x55) || not (sec 511 == 0xAA) then none else elim (find_slot 4 sec 0) [
      | none ↦ none
      | some (start, count) ↦ some (partition start count parent)
    ]
