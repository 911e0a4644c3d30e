-- ===== src/Block/Wiping.antt =====
-- src/whefs_block.c, the wiping of blocks: of the data of one, of a whole one, and of a chain.
use whefs.Common.{
  ℕ, zero, suc, ◌-◌, Bool, Option, none, some, leb, ◌==◌, if◌then◌else◌, ◌&&◌, not, replicate, pos,
  min,
}
use whefs.Rc.{Rc, ok, arg_error, io_error, range_error, add_size}
use whefs.Encode.{Bytes}
use whefs.Device.{DevApi, seek_set}
use whefs.Fs.{Fs, fs_seek, fs_write}
use whefs.Block.{Block, empty, id_is_valid, data_pos, flush, read_next}

-- The buffer of zeros that `whefs_block_wipe_data` writes from.
abbrev pub buf_size : ℕ
buf_size = 4096

unfoldable pub wipe_buf : Bytes
wipe_buf = replicate buf_size 0

module _ {D : Type 0} (api : DevApi D) where
  -- The loop of `whefs_block_wipe_data`, with `x` bytes left to write. As each write is of one byte or
  -- more, the loop has ended after `x` rounds.
  unfoldable pub wipe_loop : ℕ → ℕ → Fs D → Rc × Fs D
  unfolding fs_write
  wipe_loop zero x fs = (ok, fs)
  wipe_loop (suc rounds) x fs =
      let wsz : ℕ = min buf_size x in
      let (wrc, fs') = fs_write api fs (some wipe_buf) wsz in
      let rest = wipe_loop rounds (x - wsz) fs' in
      if x == 0
      then (ok, fs)
      else if wrc == 0
      then (ok, fs')
      else if wsz == wrc
      then rest
      else (io_error, fs')

  unfoldable pub wipe_data : Fs D → Block → ℕ → Rc × Fs D
  unfolding data_pos wipe_loop fs_seek
  wipe_data fs bl start =
      let bs : ℕ = fs.options.block_size in
      let seek_pos : ℕ = add_size start (data_pos fs (some bl)) in
      let (at, fs') = fs_seek api fs (pos seek_pos) seek_set in
      if leb bs start
      then (range_error, fs)
      else if at == seek_pos
      then wipe_loop (bs - start) (bs - start) fs'
      else (io_error, fs')

  -- The parts of `whefs_block_wipe` on the block itself: first its metadata, then its data.
  unfoldable pub wipe_last : Fs D → Block → Bool → Rc × Block × Fs D
  unfolding wipe_data
  wipe_last fs bl wipes_data =
      let (rc, fs') = wipe_data fs bl 0 in if wipes_data then (rc, bl, fs') else (ok, bl, fs)

  unfoldable pub wipe_self : Fs D → Block → Bool → Bool → Rc × Block × Fs D
  unfolding flush wipe_last
  wipe_self fs bl wipes_data wipes_meta =
      let clean = record empty { id = bl.id } in
      let (rc, fs') = flush api fs clean in
      let hinted = record fs' { unused_block_start = min fs'.unused_block_start bl.id } in
      if wipes_meta
      then elim rc [ ok ↦ wipe_last hinted clean wipes_data | other ↦ (other, clean, fs') ]
      else wipe_last fs bl wipes_data

  -- The loop over the blocks behind `xb`, of which one is read and wiped in a round. `none` is a loop
  -- that has not ended after so many rounds.
  unfoldable pub wipe_chain : ℕ → Fs D → Block → Bool → Bool → Option (Rc × Fs D)
  unfolding id_is_valid read_next wipe_self
  wipe_chain zero fs xb wipes_data wipes_meta = if xb.next_block == 0 then some (ok, fs) else none
  wipe_chain (suc rounds) fs xb wipes_data wipes_meta =
      let (rc, next, fs') = read_next api fs xb xb in
      let (wrc, wiped, fs2) =
        if id_is_valid fs' next.id
        then wipe_self fs' (record next { next_block = 0 }) wipes_data wipes_meta
        else (arg_error, next, fs') in
      let rest = wipe_chain rounds fs2 next wipes_data wipes_meta in
      if xb.next_block == 0 then some (ok, fs) else elim rc [
        | ok ↦ elim wrc [ ok ↦ rest | other ↦ some (other, fs2) ]
        | other ↦ some (other, fs')
      ]

  -- `whefs_block_wipe`.
  unfoldable pub wipe : ℕ → Fs D → Block → Bool → Bool → Bool → Option (Rc × Block × Fs D)
  unfolding id_is_valid wipe_chain wipe_self
  wipe rounds fs bl wipes_data wipes_meta deep =
      let alone = record bl { next_block = 0 } in
      if not (id_is_valid fs bl.id)
      then some (arg_error, bl, fs)
      else if deep && not (bl.next_block == 0)
      then elim (wipe_chain rounds fs bl wipes_data wipes_meta) [
        | none ↦ none
        | some (ok, fs') ↦ some (wipe_self fs' alone wipes_data wipes_meta)
        | some (other, fs') ↦ some (other, alone, fs')
      ]
      else some (wipe_self fs bl wipes_data wipes_meta)
