-- ===== src/Device/Kinds.antt =====
-- The `whence` constants of a seek.
-- The `whence` of a seek; `other` is any value that is not one of the three.
pub data Whence : Type 0 where
  seek_set seek_end seek_cur other : Whence
