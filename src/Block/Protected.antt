-- ===== src/Block/Protected.antt =====
-- Wiping the data of a block in a memory range that cannot be written.
use whefs.Common.{ℕ, ◌%◌, ◌-◌, ◌<◌, ◌≡◌, refl, ap, ◌∙◌, arith, false, some, pos, min}
use whefs.Rc.{ok, size_bound, add_size}
use whefs.Encode.{Bytes}
use whefs.Device.{seek_set}
use whefs.Device.Seek.{mem_target}
use whefs.Device.Memmap
use whefs.Device.Memmap.{Memmap}
use whefs.Fs.{Fs}
use whefs.Block.{Block, data_pos}
use whefs.Block.Wiping.{buf_size, wipe_buf, wipe_data}
use whefs.Block.Wipe.{wipe_data_unwritten}

seek_protected :
    (mb : Memmap) (p : ℕ)
    → Memmap.seek (some mb) (pos (p % size_bound)) seek_set
      ≡ (p % size_bound, some (record mb { at = p % size_bound }))
unfolding Memmap.seek mem_target
seek_protected mb p =
    ap (λ n. (n, some (record mb { at = n }))) {x = p % size_bound % size_bound}
      {y = p % size_bound} (omega arith)

write_protected :
    (mb : Memmap) (src : Bytes) (n : ℕ)
    → mb.rw ≡ false
    → Memmap.write (some mb) (some src) n ≡ (0, some mb)
unfolding Memmap.write
write_protected mb src n e = ground (arith, e)

-- In a memory range that cannot be written, wiping the data of any block, from any position inside of a
-- block, returns OK, and every byte of the range is as it was before: of the filesystem and the range only
-- the position of the cursor has changed.
pub wipe_data_protected :
    (fs : Fs Memmap.Dev) (mb : Memmap) (bl : Block) (start : ℕ)
    → fs.dev ≡ some mb
    → mb.rw ≡ false
    → start < fs.options.block_size
    → wipe_data Memmap.api fs bl start
      ≡ (ok, record fs { dev = some (record mb { at = add_size start (data_pos fs (some bl)) }) })
wipe_data_protected fs mb bl start e locked h =
    let p : ℕ = add_size start (data_pos fs (some bl)) in
    let there = some (record mb { at = p }) in
    wipe_data_unwritten Memmap.api fs bl start p there there h refl
      (ap (λ d. Memmap.seek d (pos p) seek_set) e ∙ seek_protected mb _)
      (write_protected (record mb { at = p }) wipe_buf
        (min buf_size (fs.options.block_size - start)) locked)
