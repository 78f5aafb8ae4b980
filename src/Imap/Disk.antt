-- ===== src/Imap/Disk.antt =====
-- internal/imapbackend: the directories of the folders, as user.go changes them through package os.
-- A directory is its path with the Maildir in it, which has none of its three directories where
-- nothing made them. Files in place of directories, links, and folders whose names lead into a
-- Maildir's own directories are left out; a call that fails changes nothing.
pub mod Paths
pub mod Laws
use mailroom.Prelude.{
  Bool, List, Option, Text, [], false, if◌then◌else◌, insert, lookup, nat_eq, none, not, some,
  text_eq, true, ◌++◌, ◌||◌, ◌∷◌,
}
use mailroom.Maildir.{Maildir}
use mailroom.Maildir.Paths.{FilePath}
use mailroom.Imap.Disk.Paths.{parent_of, path_eq, reroot, under}

abbrev pub Disk : Type 0
Disk = List (FilePath × Maildir)

abbrev pub no_maildir : Maildir
no_maildir = record { tmp = none; new = none; cur = none }

unfoldable pub maildir_at : FilePath → Disk → Maildir
unfolding lookup
maildir_at p disk = elim (lookup p disk) [ none ↦ no_maildir | some md ↦ md ]

-- There is a directory at the path.
unfoldable pub is_dir : FilePath → Disk → Bool
unfolding lookup
is_dir p disk = elim (lookup p disk) [ none ↦ false | some _ ↦ true ]

mkdir : FilePath → Disk → Disk
unfolding is_dir insert
mkdir p disk = if is_dir p disk then disk else insert p no_maildir disk

-- The directory `front` and those on the way from it are made where they are missing.
unfoldable pub mkdir_from : Bool → List Text → List Text → Disk → Disk
unfolding mkdir
mkdir_from rooted front [] disk = mkdir (record { rooted = rooted; segments = front }) disk
mkdir_from rooted front (s ∷ rest) disk =
    mkdir_from rooted (front ++ s ∷ []) rest
      (mkdir (record { rooted = rooted; segments = front }) disk)

-- os.MkdirAll
unfoldable pub mkdir_all : FilePath → Disk → Disk
unfolding mkdir_from
mkdir_all p disk = mkdir_from p.rooted [] p.segments disk

-- os.RemoveAll
unfoldable pub remove_all : FilePath → Disk → Disk
unfolding under
remove_all p [] = []
remove_all p ((q, md) ∷ disk) =
    let rest = remove_all p disk in if under p q then rest else (q, md) ∷ rest

-- os.Rename, of a directory: it fails where the new path is there or lies in the old directory, and
-- where the old directory or the parent of the new one is missing.
unfoldable pub move_all : FilePath → FilePath → Disk → Disk
unfolding reroot
move_all old new [] = []
move_all old new ((q, md) ∷ disk) = (reroot old new q, md) ∷ move_all old new disk

unfoldable pub rename_dir : FilePath → FilePath → Disk → Option Disk
unfolding is_dir under parent_of move_all
rename_dir old new disk =
    if not (is_dir old disk)
      || is_dir new disk
      || under old new
      || not (is_dir (parent_of new) disk)
    then none
    else some (move_all old new disk)
