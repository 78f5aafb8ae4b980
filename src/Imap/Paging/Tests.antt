-- ===== src/Imap/Paging/Tests.antt =====
-- Runs of the paging of internal/imapbackend/webapi.go: five messages on pages of two.
use mailroom.Prelude.{List, [], arith, length, refl, reverse, ℕ, ◌*◌, ◌++◌, ◌-◌, ◌∷◌, ◌≡◌, ◌≤◌, ◌⊎◌}
use mailroom.Imap.Paging.{down, list_page, page_or_first, size_or_default}
use mailroom.Imap.Paging.Pages.{list_page_lem}

abbrev five : List ℕ
five = 10 ∷ 11 ∷ 12 ∷ 13 ∷ 14 ∷ []

last_page : (list_page 3 2 five).0 ≡ 10 ∷ []
unfolding list_page down
last_page = refl

list_page_lem_example :
    let shown = (list_page 3 2 five).0 in
    ((front : List ℕ) × (back : List ℕ) × (reverse five ≡ front ++ shown ++ back)
      × (length front ≡ (page_or_first 3 - 1) * size_or_default 2)
      × (length shown ≤ size_or_default 2)
      × ((back ≡ []) ⊎ (length shown ≡ size_or_default 2)))
unfolding page_or_first size_or_default
list_page_lem_example = list_page_lem 3 2 five (omega arith)
