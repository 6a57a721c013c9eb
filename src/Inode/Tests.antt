-- ===== src/Inode/Tests.antt =====
-- The inode's theorems at a file of one block.
use col.Base.{true, ◌*◌, refl, some, none, false, arith, Bool, ℕ, [], ◌∷◌, ◌≡◌, ◌+◌, ◌<◌, ◌⊎◌}
use col.Disk.{balloc, find_free, find_bit, to_log, lh_n, log_fits}
use col.Disk.Blocks.{taken}
use col.Inode.{
  Inode, Store, plain, maxfile, bmap, ensure_addr, put_addr, put_bytes, write_loop, iupdate, done,
  readi, writei, writei_in_log,
}
use col.Inode.Sample.{four_blocks, file_of, file_of-IsWhole}
use col.Inode.Growth.{Gives}
use col.Inode.Bmap.{bmap-Gives}
use col.Disk.Count.{free_count}
use col.Inode.WriteLoop.{blocks_touched}
use col.Inode.Contents.{IsWhole, readi_lem}
use col.Inode.Extend.{Extended, writei-readi}
use col.Inode.LogRoom.{writei_in_log-Extended}
use col.Inode.Trunc.{itrunc}
use col.Inode.Trunc.Emptied.{Emptied, itrunc-Emptied}

abbrev one_block : Inode
one_block = file_of plain 3

one_block-IsWhole : IsWhole four_blocks one_block
one_block-IsWhole = file_of-IsWhole plain 3 (omega arith)

abbrev nobody : ℕ → Bool
nobody _ = false

abbrev store : Store
store = record { disk = four_blocks; stored = one_block }

bmap-Gives_example :
    Gives four_blocks (taken 2 four_blocks) one_block (put_addr 1 2 one_block) 1 2 × (1 < maxfile)
unfolding bmap ensure_addr balloc find_free find_bit
bmap-Gives_example =
    bmap-Gives 1 2 one_block (put_addr 1 2 one_block) four_blocks (taken 2 four_blocks)
      one_block-IsWhole.file refl

readi_lem_example :
    readi nobody 1 10 one_block four_blocks ≡ some (done 2, 66 ∷ 67 ∷ [], one_block, four_blocks)
readi_lem_example =
    readi_lem nobody 1 10 one_block four_blocks one_block-IsWhole refl (omega arith) (omega arith)

writei_in_log-Extended_example :
    ((writei_in_log 29 nobody 3 2 5 (λ k. k + 97) one_block store ≡ none)
      × ((free_count four_blocks < 2 * blocks_touched 2 5)
          ⊎ (29 < lh_n four_blocks.logged + 6 * blocks_touched 2 5 + 1)))
    ⊎ ((r : Inode × Store) × (writei_in_log 29 nobody 3 2 5 (λ k. k + 97) one_block store
          ≡ some (done 5, r.0, r.1))
        × Extended store r.1 one_block r.0 2 5 (λ k. k + 97)
        × (log_fits 29 r.1.disk.logged ≡ true))
unfolding log_fits
writei_in_log-Extended_example =
    writei_in_log-Extended 29 nobody 3 2 5 (λ k. k + 97) one_block store one_block-IsWhole refl
      (omega arith) (omega arith) refl

abbrev letters : ℕ → ℕ
letters k = k + 97

abbrev longer : Inode
longer = record one_block { size = 4 }

abbrev store_after : Store
store_after =
    iupdate 3 longer
      (record store { disk = to_log 1 (put_bytes 1 2 2 (λ k. letters (0 + k)) four_blocks) })

writei-readi_example :
    readi nobody 2 2 longer store_after.disk ≡ some (done 2, 97 ∷ 98 ∷ [], longer, store_after.disk)
unfolding writei write_loop bmap ensure_addr
writei-readi_example =
    writei-readi nobody 3 2 2 letters one_block longer store store_after one_block-IsWhole refl
      (omega arith) (omega arith) refl

itrunc-Emptied_example :
    (ip' : Inode) × (s' : Store) × (itrunc 3 one_block store ≡ some (record ip' { size = 0 }, s'))
    × Emptied four_blocks s'.disk one_block ip'
    × (s'.stored ≡ record ip' { size = 0 })
itrunc-Emptied_example = itrunc-Emptied 3 one_block store one_block-IsWhole.file
