-- ===== src/Block/Tests.antt =====
-- The claims about src/kernel/drivers/blkdev.c on a partition of 1000 sectors at 2048.
use kil0y_os.Prelude.{◌≡◌, refl, some, arith}
use kil0y_os.Block.{disk, partition, access}
use kil0y_os.Block.Bounds.{Transferred, access_lem}

access_example : Transferred 2048 1000 10 8 (access (partition 2048 1000 (disk 4000)) 10 8)
access_example = access_lem 2048 1000 4000 (omega arith) (omega arith) 10 8

-- A partition that runs past 2^32 reaches the first sector of its disk.
wrapped : access (partition 0xFFFFFF00 0x1000 (disk 4000)) 0x100 1 ≡ some (0, 1)
unfolding access
wrapped = refl
