-- ===== src/Proxy/Pages.antt =====
-- The table `page_num_to_ipage` of src/ios_webkit_debug_proxy.c as the list of its pages.
use bootstrap_agency_templat.Prelude.{
  ℕ, ◌≡◌, refl, sym, ap, ◌∙◌, ◌≢◌, inl, inr, true, Option, none, some, List, [], ◌∷◌, arith, ◌==◌,
  if◌then◌else◌, ==_iff, Bool-cases,
}
use bootstrap_agency_templat.Proxy.{Ipage}

-- `ht_get_value(ipage_ht, HT_KEY(n))`
unfoldable pub find_page : ℕ → List Ipage → Option Ipage
find_page n [] = none
find_page n (p ∷ ps) = if p.page_num == n then some p else find_page n ps

-- a write through the pointer to a page
unfoldable pub update_page : ℕ → (Ipage → Ipage) → List Ipage → List Ipage
update_page n f [] = []
update_page n f (p ∷ ps) = if p.page_num == n then f p ∷ ps else p ∷ update_page n f ps

-- `ht_remove(ipage_ht, HT_KEY(n))`
unfoldable pub remove_page : ℕ → List Ipage → List Ipage
remove_page n [] = []
remove_page n (p ∷ ps) = if p.page_num == n then remove_page n ps else p ∷ remove_page n ps

-- `ht_put(ipage_ht, HT_KEY(p->page_num), p)`
unfoldable pub put_page : Ipage → List Ipage → List Ipage
unfolding remove_page
put_page p ps = p ∷ remove_page p.page_num ps

some_inj : (q p : Ipage) → some q ≡ some p → q ≡ p
some_inj q p h = cc h

find_page-head :
    (n : ℕ) (q : Ipage) (ps : List Ipage) → (q.page_num == n) ≡ true → find_page n (q ∷ ps) ≡ some q
unfolding find_page
find_page-head n q ps t = rw (t, find_page) refl

pub find_page-num : (n : ℕ) (ps : List Ipage) (p : Ipage) → find_page n ps ≡ some p → p.page_num ≡ n
unfolding find_page
find_page-num n [] p h = absurd (cc h)
find_page-num n (q ∷ ps) p h = elim (Bool-cases (q.page_num == n)) [
  | inl t ↦
      let same : q ≡ p = some_inj q p (sym (find_page-head n q ps t) ∙ h) in
      ap (λ r. r.page_num) (sym same) ∙ (==_iff q.page_num n).0 t
  | inr f ↦ find_page-num n ps p (ground arith)
]

-- A write to a page, that keeps its number, is seen under that number only.
pub find_page-update_self :
    (n : ℕ) (f : Ipage → Ipage)
    → ((p : Ipage) → (f p).page_num ≡ p.page_num)
    → (ps : List Ipage) (p : Ipage) → find_page n ps ≡ some p
    → find_page n (update_page n f ps) ≡ some (f p)
unfolding find_page update_page
find_page-update_self n f keeps [] p h = absurd (cc h)
find_page-update_self n f keeps (q ∷ ps) p h = elim (Bool-cases (q.page_num == n)) [
  | inl t ↦
      let same : q ≡ p = some_inj q p (sym (find_page-head n q ps t) ∙ h) in
      let number : ((f q).page_num == n) ≡ true = ground (arith, keeps q) in
      rw (t, update_page) (find_page-head n (f q) ps number ∙ ap (λ r. some (f r)) same)
  | inr g ↦ rw (g, update_page, g, find_page) (find_page-update_self n f keeps ps p (ground arith))
]

pub find_page-update_none :
    (n m : ℕ) (f : Ipage → Ipage)
    → ((p : Ipage) → (f p).page_num ≡ p.page_num)
    → (ps : List Ipage) → find_page m ps ≡ none
    → find_page m (update_page n f ps) ≡ none
unfolding find_page update_page
find_page-update_none n m f keeps [] h = refl
find_page-update_none n m f keeps (q ∷ ps) h =
    ground (arith, keeps q, find_page-update_none n m f keeps ps)

pub find_page-update_ne :
    (n m : ℕ) (f : Ipage → Ipage)
    → ((p : Ipage) → (f p).page_num ≡ p.page_num)
    → n ≢ m
    → (ps : List Ipage) → find_page m (update_page n f ps) ≡ find_page m ps
unfolding find_page update_page
find_page-update_ne n m f keeps ne [] = refl
find_page-update_ne n m f keeps ne (q ∷ ps) =
    ground (arith, keeps q, find_page-update_ne n m f keeps ne ps)

pub find_page-remove_self : (n : ℕ) (ps : List Ipage) → find_page n (remove_page n ps) ≡ none
unfolding find_page remove_page
find_page-remove_self n [] = refl
find_page-remove_self n (q ∷ ps) = ground (arith, find_page-remove_self n ps)

pub find_page-remove_ne :
    (n m : ℕ) → n ≢ m → (ps : List Ipage) → find_page m (remove_page n ps) ≡ find_page m ps
unfolding find_page remove_page
find_page-remove_ne n m ne [] = refl
find_page-remove_ne n m ne (q ∷ ps) = ground (arith, find_page-remove_ne n m ne ps)

pub find_page-put_ne :
    (m : ℕ) (p : Ipage) (ps : List Ipage)
    → p.page_num ≢ m
    → find_page m (put_page p ps) ≡ find_page m ps
unfolding find_page put_page
find_page-put_ne m p ps ne = ground (arith, find_page-remove_ne p.page_num m ne ps)
