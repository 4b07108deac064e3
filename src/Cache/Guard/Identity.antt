-- ===== src/Cache/Guard/Identity.antt =====
-- The comparison of file metadata that `isSameFile` makes.
use salience.Base.{◌≡◌, true, ==_iff, arith}
use salience.Cache.Disk.{Metadata}
use salience.Cache.Guard.{is_same_file}

-- Two files are the same in one order exactly when they are in the other.
pub is_same_file-sym : (l r : Metadata) → is_same_file l r ≡ true → is_same_file r l ≡ true
unfolding is_same_file
is_same_file-sym l r h = ground arith

-- Metadata that is the same as a second and this as a third is the same as the third.
pub is_same_file_trans :
    (a b c : Metadata) → is_same_file a b ≡ true → is_same_file b c ≡ true → is_same_file a c ≡ true
unfolding is_same_file
is_same_file_trans a b c h k = ground (
  arith,
  ==_iff a.dev b.dev,
  ==_iff b.dev c.dev,
  ==_iff a.dev c.dev,
  ==_iff a.ino b.ino,
  ==_iff b.ino c.ino,
  ==_iff a.ino c.ino,
  ==_iff a.birthtime b.birthtime,
  ==_iff b.birthtime c.birthtime,
  ==_iff a.birthtime c.birthtime,
  ==_iff a.mode b.mode,
  ==_iff b.mode c.mode,
  ==_iff a.mode c.mode,
  ==_iff a.ino 0,
  ==_iff b.ino 0,
  ==_iff a.birthtime 0,
  ==_iff b.birthtime 0,
  ==_iff c.birthtime 0,
)
