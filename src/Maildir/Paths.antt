-- ===== src/Maildir/Paths.antt =====
-- internal/maildir/paths.go, over paths that `filepath.Join` has cleaned: a list of segments below
-- the root or below the working directory.
pub mod Folders
mod Tests
use mailroom.Prelude.{
  Bool, List, Text, [], codes, equal_fold, false, if◌then◌else◌, nat_eq, reverse, split_at_byte,
  text_eq, true, ◌==◌, ◌||◌, ◌∷◌,
}

pub record FilePath : Type 0 where
  pub rooted : Bool
  pub segments : List Text

-- The last segment goes where ".." follows it; ".." above the root stays there, and above a
-- relative path it is kept.
parent : Bool → List Text → List Text
parent true [] = []
parent false [] = codes ".." ∷ []
parent rooted (s ∷ up) = if s == codes ".." then codes ".." ∷ s ∷ up else up

-- filepath.Clean, on the segments still to come; `up` holds those before them, the last first.
unfoldable pub clean : Bool → List Text → List Text → List Text
unfolding parent
clean rooted up [] = reverse up
clean rooted up (s ∷ rest) =
    let same = clean rooted up rest in
    let above = clean rooted (parent rooted up) rest in
    let below = clean rooted (s ∷ up) rest in
    if s == [] || s == codes "." then same else if s == codes ".." then above else below

-- filepath.Join of a cleaned path and one more element.
unfoldable pub join_path : FilePath → Text → FilePath
unfolding clean split_at_byte
join_path p name = record p {
  segments = clean p.rooted (reverse p.segments) (split_at_byte b'/' name);
}

unfoldable pub user_root : FilePath → Text → Text → FilePath
unfolding join_path
user_root base domain local_part = join_path (join_path base domain) local_part

abbrev pub default_folders : List Text
default_folders = codes "Sent" ∷ codes "Drafts" ∷ codes "Trash" ∷ codes "Junk" ∷ []

unfoldable pub folder_path : FilePath → Text → FilePath
unfolding join_path equal_fold
folder_path root folder =
    if folder == [] || equal_fold folder (codes "INBOX")
    then root
    else join_path root (b'.' ∷ folder)
