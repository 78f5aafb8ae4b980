-- ===== src/Imap/Paging.antt =====
-- internal/imapbackend/webapi.go: a page of a folder and the order of the folders.
pub mod Pages
mod Tests
use mailroom.Prelude.{
  List, [], get_elem?, if◌then◌else◌, leb, length, ltb, nat_eq, none, some, suc, text_eq, zero, ℕ,
  ◌*◌, ◌+◌, ◌-◌, ◌/◌, ◌∷◌,
}

-- The elements at the `n` places from `start` on, the last first: the loop of ListMessages.
unfoldable pub down : {A : Type 0} → List A → ℕ → ℕ → List A
down l start zero = []
down l start (suc n) =
    let rest = down l start n in elim (get_elem? l (start + n)) [ none ↦ rest | some x ↦ x ∷ rest ]

unfoldable pub page_or_first : ℕ → ℕ
page_or_first zero = 1
page_or_first (suc p) = suc p

unfoldable pub size_or_default : ℕ → ℕ
size_or_default zero = 25
size_or_default (suc s) = suc s

-- ListMessages, of the folder's list as the reload gave it; numbers are not negative, and the product of
-- page and size does not overflow.
unfoldable pub list_page : {A : Type 0} → ℕ → ℕ → List A → List A × ℕ
unfolding down page_or_first size_or_default
list_page page page_size l =
    let total = length l in
    let size = size_or_default page_size in
    let skipped = (page_or_first page - 1) * size in
    let stop = total - skipped in
    let start = stop - size in
    if leb total skipped then ([], total) else (down l start (stop - start), total)

-- totalPages of internal/webmail/mail_handlers.go.
unfoldable pub total_pages : ℕ → ℕ
total_pages total = let pages = (total + 24) / 25 in if ltb pages 1 then 1 else pages
