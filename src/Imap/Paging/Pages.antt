-- ===== src/Imap/Paging/Pages.antt =====
-- internal/imapbackend/webapi.go: what stands on a page.
use mathlib.Core.List.{append_assoc, reverse-append}
use mailroom.Prelude.{
  List, [], ap, arith, get_elem?, false, inl, inr, leb, length, length-append, nat_eq, refl,
  reverse, some, subst, suc, sym, zero, ℕ, ◌*◌, ◌++◌, ◌+◌, ◌-◌, ◌<◌, ◌∙◌, ◌∷◌, ◌≡◌, ◌≤◌, ◌⊎◌,
}
use mailroom.Imap.Paging.{down, list_page, page_or_first, size_or_default}

short_or_full :
    (total skipped size : ℕ)
    → skipped < total
    → let stop = total - skipped in
      let start = stop - size in
      (start + (stop - start) + skipped ≡ total)
      × (stop - start ≤ size)
      × ((start ≡ 0) ⊎ (stop - start ≡ size))
short_or_full total skipped size h = (omega (arith, h), omega (arith, h), ground (arith, h))

module _ {A : Type 0} where
  length-reverse : (l : List A) → length (reverse l) ≡ length l
  length-reverse [] = refl
  length-reverse (x ∷ l) =
      ap length (reverse-append (x ∷ []) l)
      ∙ omega (arith, length-append (reverse l) (x ∷ []), length-reverse l)

  split_at :
      (n : ℕ) (l : List A)
      → n ≤ length l
      → ((a : List A) × (b : List A) × (l ≡ a ++ b) × (length a ≡ n))
  split_at zero l h = ([], l, refl, refl)
  split_at (suc n) [] h = absurd (omega (arith, h))
  split_at (suc n) (x ∷ l) h =
      let (a, b, e, size) = split_at n l (omega (arith, h)) in
      (x ∷ a, b, ap (λ t. x ∷ t) e, ap suc size)

  last_apart :
      (l : List A) (n : ℕ)
      → length l ≡ suc n
      → ((front : List A) × (x : A) × (l ≡ front ++ x ∷ []) × (length front ≡ n))
  last_apart [] n h = absurd (omega (arith, h))
  last_apart (x ∷ []) n h = ([], x, refl, omega (arith, h))
  last_apart (x ∷ y ∷ l) zero h = absurd (omega (arith, h))
  last_apart (x ∷ y ∷ l) (suc n) h =
      let (front, z, e, size) = last_apart (y ∷ l) n (omega (arith, h)) in
      (x ∷ front, z, ap (λ t. x ∷ t) e, ap suc size)

  get-middle : (a : List A) (x : A) (c : List A) → get_elem? (a ++ x ∷ c) (length a) ≡ some x
  get-middle [] x c = refl
  get-middle (y ∷ a) x c = get-middle a x c

  regroup :
      (a front : List A) (x : A) (c : List A) → a ++ (front ++ x ∷ []) ++ c ≡ (a ++ front) ++ x ∷ c
  regroup a front x c =
      ap (λ l. l ++ c) (sym (append_assoc a front (x ∷ []))) ∙ append_assoc (a ++ front) (x ∷ []) c

  down-middle :
      (n : ℕ) (a b c : List A) → length b ≡ n → down (a ++ b ++ c) (length a) n ≡ reverse b
  unfolding down
  down-middle zero a [] c h = refl
  down-middle zero a (x ∷ b) c h = absurd (omega (arith, h))
  down-middle (suc n) a b c h =
      let (front, x, e, size) = last_apart b n h in
      let place : get_elem? (a ++ (front ++ x ∷ []) ++ c) (length a + n) ≡ some x =
        ap (λ l. get_elem? l (length a + n)) (regroup a front x c)
        ∙ ap (λ i. get_elem? ((a ++ front) ++ x ∷ c) i) (omega (arith, size, length-append a front))
        ∙ get-middle (a ++ front) x c in
      let rest : down (a ++ (front ++ x ∷ []) ++ c) (length a) n ≡ reverse front =
        ap (λ l. down l (length a) n) (regroup a front x c) ∙ down-middle n a front (x ∷ c) size in
      subst (λ l. down (a ++ l ++ c) (length a) (suc n) ≡ reverse l) (sym e)
        (rw (down, place) (ap (λ l. x ∷ l) rest ∙ sym (reverse-append front (x ∷ []))))

  nothing : (l : List A) → length l ≡ 0 → l ≡ []
  nothing [] h = refl
  nothing (x ∷ l) h = absurd (omega (arith, h))

  -- A page is a run of the folder's list turned around, so that the newest message is first: it begins
  -- after those of the pages before it, and has the size of a page or reaches the end.
  pub list_page_lem :
      (page page_size : ℕ) (l : List A)
      → (page_or_first page - 1) * size_or_default page_size < length l
      → let shown = (list_page page page_size l).0 in
        ((front : List A) × (back : List A) × (reverse l ≡ front ++ shown ++ back)
          × (length front ≡ (page_or_first page - 1) * size_or_default page_size)
          × (length shown ≤ size_or_default page_size)
          × ((back ≡ []) ⊎ (length shown ≡ size_or_default page_size)))
  unfolding list_page
  list_page_lem page page_size l h =
      let size = size_or_default page_size in
      let skipped = (page_or_first page - 1) * size in
      let stop = length l - skipped in
      let start = stop - size in
      let (whole, fits, full) = short_or_full (length l) skipped size h in
      let (a, rest, e, before) = split_at start l (omega (arith, whole)) in
      let all : length l ≡ length a + length rest = ap length e ∙ length-append a rest in
      let (b, c, e1, here) = split_at (stop - start) rest (omega (arith, whole, before, all)) in
      let parts : length rest ≡ length b + length c = ap length e1 ∙ length-append b c in
      let joined : l ≡ a ++ b ++ c = e ∙ ap (λ t. a ++ t) e1 ∙ sym (append_assoc a b c) in
      let shown : down l start (stop - start) ≡ reverse b =
        ap (λ t. down t start (stop - start)) joined
        ∙ ap (λ i. down (a ++ b ++ c) i (stop - start)) (sym before)
        ∙ down-middle (stop - start) a b c here in
      let more : leb (length l) skipped ≡ false = ground (arith, h) in
      let page_is : (list_page page page_size l).0 ≡ reverse b = rw (list_page, more) shown in
      let turned : reverse l ≡ reverse c ++ reverse b ++ reverse a =
        ap reverse joined
        ∙ reverse-append (a ++ b) c
        ∙ ap (λ t. reverse c ++ t) (reverse-append a b)
        ∙ sym (append_assoc (reverse c) (reverse b) (reverse a)) in
      let long : length (reverse b) ≡ stop - start = length-reverse b ∙ here in
      (
        reverse c,
        reverse a,
        turned ∙ ap (λ t. reverse c ++ t ++ reverse a) (sym page_is),
        length-reverse c ∙ omega (arith, whole, before, here, all, parts),
        subst (λ t. length t ≤ size) (sym page_is) (omega (arith, long, fits)),
        elim full [
          | inl top ↦ inl (ap reverse (nothing a (before ∙ top)))
          | inr filled ↦ inr (ap length page_is ∙ long ∙ filled)
        ],
      )
