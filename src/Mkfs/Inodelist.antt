-- ===== src/Mkfs/Inodelist.antt =====
-- The table of inodes of a new container.
use whefs.Common.{ℕ, ◌<◌, ◌≡◌}
use whefs.Device.{DevApi, DevLaws}
use whefs.Fs.{Fs}
use whefs.Inode.{encode}
use whefs.Inode.Place.{Same, Has, IsLaid, stored}
use whefs.Inode.Table.{Table}
use whefs.Mkfs.{blank}

module _ {D : Type 0} {api : DevApi D} (L : DevLaws api) where
  -- The inodes in front of one are blank on the disk.
  abbrev Blanks : Fs D → ℕ → Type 0
  Blanks fs i = (j : ℕ) → Has fs j → j < i → stored L fs j ≡ encode (blank j)

  -- What the loop leaves.
  pub record Blanked (fs fs' : Fs D) : Type 0 where
    pub same : Same fs fs'
    pub laid : IsLaid L fs'
    pub bits : fs'.used_inodes ≡ fs.used_inodes
    pub all : (j : ℕ) → Has fs' j → stored L fs' j ≡ encode (blank j)
