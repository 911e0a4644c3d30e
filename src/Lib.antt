-- ===== src/Lib.antt =====
-- Verification of whefs, an embedded filesystem in C, and of whio, the i/o devices below it.
--
-- whio abstracts random access storage as devices: an interface of operations over private data. The
-- codecs write numbers and strings to memory or to a device; a device is a client's memory, a buffer
-- that grows, or a part of another device. whefs keeps its blocks, inodes and names on a device through
-- the codecs, and tracks what is in use in bitsets.
--
-- Files, and what they model:
--   Common, Common/*     helpers: Boolean tests on the native numbers, byte buffers as lists, signed numbers
--   Rc                   src/whio.c and include/wh/whio/whio_config.h: return codes and widths
--   Bits, Bits/*         src/whbits.h and src/whbits.c: bitsets
--   Encode, Encode/*     the first half of src/whio_encode.c: the codecs over memory
--   Device               include/wh/whio/whio_dev.h: the interface (DevApi), and what its clients rely on (DevLaws)
--   Device/Seek          the arithmetic of seeks
--   Device/Memmap*       src/whio_dev_mem.c, second half: a device over a client's memory
--   Device/Membuf*       src/whio_dev_mem.c, first half: a device over a buffer of its own
--   Device/Subdev*       src/whio_dev_subdev.c: a device over a part of another one
--   Device/Client*       src/whio_dev.c: positioned reads and writes, size and rewind of any device
--   Device/Calls         a seek followed by a read or a write, over any device that keeps the laws
--   Codec, Codec/*       the second half of src/whio_encode.c: the codecs over a device
--   Blockdev, Blockdev/* the block devices of src/whio_dev.c: blocks of one size, by their number
--   Hash, Hash/*         src/whefs_hash.c and src/whefs_hash.h: the list of name hashes
--   Fs, Fs/*             the filesystem object of src/whefs_details.c as far as blocks and inodes use it, with the ids of
--                        src/whefs_encode.c and, of src/whefs_fs.c, sizes and offsets, device calls and the setup of the bitsets
--   Block                src/whefs_block.c: the header of a block, its position, flush and read
--   Block/Wiping         the rest of src/whefs_block.c: wiping, and
--   Block/Alloc          the search for a free block, with two loops of src/whefs_fs.c over all blocks
--   Block/*              the theorems: the table of headers and the bitset (Table, Marks), the search (Rounds,
--                        Free, Taking), wiping (Zeros, Wipe, Protected, Clean), chains (Chain, Freed), a new container
--                        (Blank, Format, Container) and loading the bitset (Loading)
--   Inode                src/whefs_inode.c: the record of an inode, its position, flush and read
--   Inode/Search         the search for a free inode and the walk over all of them, and the loading of the bitset of
--                        inodes in src/whefs_fs.c
--   Inode/Opened         the list of opened inodes: searching it, opening and closing
--   Inode/*              the theorems: the record (Record, Place, Flush, Short), the table of inodes and the bitset (Table,
--                        Loading), the search (Free, Taking), and opened inodes as a map (Opened/*)
--   NameCache            src/whefs_cache.c: the cache of inode names over the list of name hashes
--   Names                the table of names of src/whefs_fs.c, and the loading of the cache in src/whefs_cache.c
--   Names/*              the theorems: the record of a name (Record), writing and reading it (RoundTrip, Reading)
--   Lookup               the rest of src/whefs_inode.c: renaming, unlinking and the search by name
--   Lookup/*             the theorems: strings that are alike (Alike), a new name (Renaming), unlinking (Unlink)
--   Mkfs                 src/whefs_fs.c: the magic bytes, options, hints and inodes of a new container
--   Mkfs/*               the theorems: the hints (Hints) and the table of inodes (Inodelist)
--   Strings, Strings/*   src/whefs_string.c and include/wh/whefs/whefs_string.h: the copy into a string that grows
-- The modules called Tests run the definitions and apply the theorems to concrete data.
--
-- A C function `whio_dev_memmap_read` is `read` of Device/Memmap, and so on: the prefix is the module.
-- State is passed in and out; a null pointer is `none`; the bytes behind a pointer are a list. A read
-- gives the bytes that it copies, and its count is their number. Numbers are natural numbers, reduced
-- where the C type wraps: `whio_size_t` has 32 bits and `whio_off_t` 64 with a sign, as configured in
-- include/wh/whio/whio_config.h. Where C leaves an access undefined, the result says so: `none`, or the
-- flag `overrun` of a buffer or a memory range, which is not in the source.
--
-- Loops are structural recursion over the list or the count that the source walks, where there is one. The
-- loop that wipes data takes its count of bytes as its rounds, which is enough as each round writes a byte
-- or more. The search for a free block, the loop over all blocks that makes a container, and the one over a
-- chain take a number of rounds, and `none` is a loop that has not ended by then. For the search, rounds
-- for the blocks from the hint on are enough when there are fewer than 2 ^ 16 - 1 blocks, as the
-- documentation asks for; for a chain without a cycle, a round for each block behind the first. The search
-- for a free inode and the loading of the bitset of inodes take rounds in the same way, and rounds for the
-- inodes from the first one on are enough. The walk over all inodes, the search by name and the writing of
-- the table of names take rounds too; so does unlinking, for the blocks of the inode. The loading of the
-- name cache goes down from the number of inodes, and the writing of the inodes of a new container counts
-- those left. What is not C of this repository is a parameter: whether an allocation succeeds and the
-- address it gives, the time, and the floating point growth of a buffer; for the lists of hashes also
-- `qsort` and `bsearch`, with what is documented of them as hypotheses (IsQsort in Hash/Cells, IsBsearch in
-- Hash/Search), which an insertion sort and a linear search meet (Hash/Tests). `assert` does nothing, as
-- with NDEBUG. The theorems over DevLaws hold for every device that keeps those laws; a memory range does
-- (Device/Memmap/Laws), and so does a subdevice of any device that does (Device/Subdev/Fence).
--
-- Not modelled: flush, error, iomode, ioctl and close of a subdevice, which pass the call on to the parent;
-- copying and fetching in src/whio_dev.c; the pack codec of src/whio_encode.c; of the filesystem the
-- clearing of strings and caches, the pseudo-files (src/whefs_nodedev.c and src/whefs_file.c), and the
-- opening, closing and growing of a container (the rest of src/whefs_fs.c); host files and streams, which
-- only call the C library; and src/whprintf.c, src/whglob.c and src/whdbg.c, which are copies or for
-- debugging.
pub mod Common
pub mod Rc
pub mod Bits
pub mod Encode
pub mod Device
pub mod Codec
pub mod Blockdev
pub mod Hash
pub mod Fs
pub mod Block
pub mod Strings
pub mod Inode
pub mod NameCache
pub mod Names
pub mod Mkfs
pub mod Lookup
