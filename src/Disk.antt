-- ===== src/Disk.antt =====
-- What a service keeps on disk: one file, which serde writes and reads back at start. Neither serde
-- nor the file system is code of this repository. A file is represented by the value that
-- `from_slice` makes of its bytes, `none` if there is no file or none can be made; what a save
-- leaves in the file is a parameter.
use aipowergateway.Prelude.{◌≡◌, Option, none, some}

-- `stored old a` is the file after `fs::write(path, to_vec(&a))` over `old`: both results are
-- dropped by the source, so a save may leave the old file, or one that cannot be read.
pub record Disk (A : Type 0) : Type 0 where
  pub stored : Option A → A → Option A

module _ {A : Type 0} (d : Disk A) where
  -- The write succeeds, and what is serialized is read back as it was.
  abbrev pub IsReliable : Type 0
  IsReliable = (old : Option A) (a : A) → d.stored old a ≡ some a

-- A path that may not be given; without one nothing is written or read.
pub data Backing (A : Type 0) : Type 0 where
  unsaved : Backing A
  at_path : Option A → Backing A

module _ {A : Type 0} where
  abbrev pub save_to : Disk A → A → Backing A → Backing A
  save_to d a unsaved = unsaved
  save_to d a (at_path file) = at_path (d.stored file a)

  abbrev pub load_from : Backing A → Option A
  load_from unsaved = none
  load_from (at_path file) = file

-- A disk on which every write succeeds.
abbrev pub working_disk : {A : Type 0} → Disk A
working_disk = record { stored = λ old a. some a }

-- A file that is there and readable holds, after a write that the disk takes, what was written.
pub load_from-save_to :
    {A : Type 0} (d : Disk A) (a old : A) (b : Backing A)
    → IsReliable d
    → load_from b ≡ some old
    → load_from (save_to d a b) ≡ some a
load_from-save_to d a old unsaved r h = cc
load_from-save_to d a old (at_path file) r h = r file a
