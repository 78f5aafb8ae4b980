-- ===== src/Maildir/Paths/Tests.antt =====
-- Runs of internal/maildir/paths.go.
use mailroom.Prelude.{[], arith, codes, nat_eq, refl, text_eq, true, ◌∷◌, ◌≡◌}
use mailroom.Maildir.Paths.{FilePath, folder_path, user_root}
use mailroom.Maildir.Paths.Folders.{folder_path_escapes}

abbrev base : FilePath
base = record { rooted = true; segments = codes "var" ∷ codes "mail" ∷ [] }

sent_folder :
    (folder_path (user_root base (codes "a.org") (codes "ann")) (codes "Sent")).segments
    ≡ codes "var" ∷ codes "mail" ∷ codes "a.org" ∷ codes "ann" ∷ codes ".Sent" ∷ []
unfolding folder_path user_root
sent_folder = refl

nested_folder :
    (folder_path base (codes "Sent/2024")).segments
    ≡ codes "var" ∷ codes "mail" ∷ codes ".Sent" ∷ codes "2024" ∷ []
unfolding folder_path
nested_folder = refl

folder_path_escapes_example :
    folder_path (user_root base (codes "a.org") (codes "ann")) (codes "x/../../bob")
    ≡ user_root base (codes "a.org") (codes "bob")
folder_path_escapes_example =
    folder_path_escapes base (codes "a.org") (codes "ann") (codes "bob")
      ((λ e. cc), (λ e. cc), (λ e. cc), omega arith) ((λ e. cc), (λ e. cc), (λ e. cc), omega arith)
