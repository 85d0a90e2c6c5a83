-- ===== src/Proxy/Text/Sorted.antt =====
-- The sorting by `qsort` in src/ios_webkit_debug_proxy.c, against what a sorted list is.
use mathlib.Core.List.{Perm}
use mathlib.Core.List.Perm
use bootstrap_agency_templat.Prelude.{
  ℕ, ◌≤◌, inl, inr, List, [], ◌∷◌, arith, leb, Bool-cases, leb→le,
}
use bootstrap_agency_templat.Proxy.Text.{insert, sort}

module _ {A : Type 0} (key : A → ℕ) where
  -- every key is at least the number
  abbrev pub AllFrom : ℕ → List A → Type 0
  AllFrom n [] = Unit {0}
  AllFrom n (a ∷ rest) = (n ≤ key a) × AllFrom n rest

  -- each key is at most those behind it
  abbrev pub InOrder : List A → Type 0
  InOrder [] = Unit {0}
  InOrder (a ∷ rest) = AllFrom (key a) rest × InOrder rest

  AllFrom-le : (n m : ℕ) (l : List A) → n ≤ m → AllFrom m l → AllFrom n l
  AllFrom-le n m [] le all = tt
  AllFrom-le n m (a ∷ rest) le (first, all) = (omega arith, AllFrom-le n m rest le all)

  AllFrom-insert :
      (n : ℕ) (a : A) (l : List A) → n ≤ key a → AllFrom n l → AllFrom n (insert key a l)
  unfolding insert
  AllFrom-insert n a [] le all = (le, tt)
  AllFrom-insert n a (b ∷ rest) le (first, all) = elim (Bool-cases (leb (key a) (key b))) [
    | inl t ↦ rw (t, insert) (le, (first, all))
    | inr f ↦ rw (f, insert) (first, AllFrom-insert n a rest le all)
  ]

  insert-InOrder : (a : A) (l : List A) → InOrder l → InOrder (insert key a l)
  unfolding insert
  insert-InOrder a [] sorted = (tt, tt)
  insert-InOrder a (b ∷ rest) (all, sorted) = elim (Bool-cases (leb (key a) (key b))) [
    | inl t ↦
        let le = leb→le (key a) (key b) t in
        rw (t, insert) ((le, AllFrom-le (key a) (key b) rest le all), (all, sorted))
    | inr f ↦
        rw (f, insert)
          (AllFrom-insert (key b) a rest (ground arith) all, insert-InOrder a rest sorted)
  ]

  pub sort-InOrder : (l : List A) → InOrder (sort key l)
  unfolding sort
  sort-InOrder [] = tt
  sort-InOrder (a ∷ rest) = insert-InOrder a (sort key rest) (sort-InOrder rest)

  insert-perm : (a : A) (l : List A) → Perm (insert key a l) (a ∷ l)
  unfolding insert
  insert-perm a [] = Perm.refl (a ∷ [])
  insert-perm a (b ∷ rest) = elim (Bool-cases (leb (key a) (key b))) [
    | inl t ↦ rw (t, insert) (Perm.refl (a ∷ b ∷ rest))
    | inr f ↦ rw (f, insert) (Perm.trans (Perm.cons b (insert-perm a rest)) (Perm.swap a b rest))
  ]

  pub sort-perm : (l : List A) → Perm (sort key l) l
  unfolding sort
  sort-perm [] = Perm.refl []
  sort-perm (a ∷ rest) = Perm.trans (insert-perm a (sort key rest)) (Perm.cons a (sort-perm rest))
