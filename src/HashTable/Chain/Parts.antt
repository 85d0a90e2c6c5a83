-- ===== src/HashTable/Chain/Parts.antt =====
-- The chain around the entry that `ht_find` reports: what is left when the entry is taken out, and
-- what the chain holds when it is put back with another value or at the front.
use bootstrap_agency_templat.Prelude.{
  ◌+◌, ◌≤◌, ◌≡◌, ap, sym, subst, ◌∙◌, true, none, some, ◌∷◌, ◌++◌, length, if◌then◌else◌, arith,
  length-append,
}
use bootstrap_agency_templat.HashTable.{Key, Entry, Chain, Found}
use bootstrap_agency_templat.HashTable.Chain.{
  lookup, count, AllHashed, or_else, lookup-append, count-append, AllHashed-append, AllHashed-split,
  lookup-eq-none, IsFound,
}

module _ {K V : Type 0} ⦃k : Key K⦄ where
  module _ (q : K) (c : Chain K V) (f : Found K V) (found : IsFound q c f) (single : count q c ≤ 1)
      (hashed : AllHashed c) where
    curr_equal : k.equal f.curr.key q ≡ true
    curr_equal = (k.equal_iff f.curr.key q).1 found.at_key

    -- the other entries
    abbrev rest : Chain K V
    rest = f.before ++ f.after

    pub lookup-found : lookup q c ≡ some f.curr.value
    unfolding lookup
    lookup-found =
        rw (found.parts, lookup-append, lookup-eq-none q f.before found.first, curr_equal)

    pub length-found : length c ≡ length (f.before ++ f.after) + 1
    length-found = omega (
      arith,
      ap length found.parts,
      length-append f.before (f.curr ∷ f.after),
      length-append f.before f.after,
    )

    pub length-put_back : (e : Entry K V) → length (f.before ++ (e ∷ f.after)) ≡ length c
    length-put_back e = omega (
      arith,
      ap length found.parts,
      length-append f.before (f.curr ∷ f.after),
      length-append f.before (e ∷ f.after),
    )

    parts-AllHashed : AllHashed f.before × AllHashed (f.curr ∷ f.after)
    parts-AllHashed = AllHashed-split f.before (f.curr ∷ f.after) (rw found.parts at hashed)

    pub curr_hashed : f.curr.hc ≡ k.hash f.curr.key
    curr_hashed = parts-AllHashed.1.0

    pub rest-AllHashed : AllHashed (f.before ++ f.after)
    rest-AllHashed = AllHashed-append f.before f.after parts-AllHashed.0 parts-AllHashed.1.1

    pub put_back-AllHashed :
        (e : Entry K V) → e.hc ≡ k.hash e.key → AllHashed (f.before ++ (e ∷ f.after))
    put_back-AllHashed e h =
        AllHashed-append f.before (e ∷ f.after) parts-AllHashed.0 (h, parts-AllHashed.1.1)

    -- Entries at each key, before and after the entry is taken out.
    count-parts :
        (p : K)
        → count p c ≡ count p f.before + ((if k.equal f.curr.key p then 1 else 0) + count p f.after)
    unfolding count
    count-parts p = ap (count p) found.parts ∙ count-append p f.before (f.curr ∷ f.after)

    pub count-rest : (p : K) → count p (f.before ++ f.after) ≤ count p c
    count-rest p = omega (arith, count-parts p, count-append p f.before f.after)

    pub count-put_back :
        (e : Entry K V) (p : K)
        → e.key ≡ f.curr.key
        → count p (f.before ++ (e ∷ f.after)) ≡ count p c
    unfolding count
    count-put_back e p same =
        count-append p f.before (e ∷ f.after)
        ∙ ap (λ x. count p f.before + ((if k.equal x p then 1 else 0) + count p f.after)) same
        ∙ sym (count-parts p)

    pub count-to_front : (p : K) → count p (f.curr ∷ (f.before ++ f.after)) ≡ count p c
    unfolding count
    count-to_front p = omega (arith, count-parts p, count-append p f.before f.after)

    after_clear : count q f.after ≡ 0
    after_clear = ground (arith, count-parts q, curr_equal)

    lookup-parts :
        (p : K)
        → lookup p c
          ≡ or_else
              (lookup p f.before)
              (if k.equal q p then some f.curr.value else lookup p f.after)
    unfolding lookup
    lookup-parts p =
        ap (lookup p) found.parts
        ∙ lookup-append p f.before (f.curr ∷ f.after)
        ∙ ap (λ b. or_else (lookup p f.before) (if b then some f.curr.value else lookup p f.after))
            (ap (λ x. k.equal x p) found.at_key)

    -- Nothing else stands at the key.
    others_none :
        (p : K) → k.equal q p ≡ true → (lookup p f.before ≡ none) × (lookup p f.after ≡ none)
    others_none p e =
        subst (λ x. (lookup x f.before ≡ none) × (lookup x f.after ≡ none)) ((k.equal_iff q p).0 e)
          (lookup-eq-none q f.before found.first, lookup-eq-none q f.after after_clear)

    -- At its own key the entry is gone; any other key reads as before.
    pub lookup-rest :
        (p : K) → lookup p (f.before ++ f.after) ≡ (if k.equal q p then none else lookup p c)
    unfolding lookup
    lookup-rest p = ground (arith, lookup-parts p, others_none p, lookup-append p f.before f.after)

    pub lookup-put_back :
        (e : Entry K V) (p : K)
        → e.key ≡ f.curr.key
        → lookup p (f.before ++ (e ∷ f.after)) ≡ (if k.equal q p then some e.value else lookup p c)
    unfolding lookup
    lookup-put_back e p same = ground (
      arith,
      lookup-parts p,
      others_none p,
      lookup-append p f.before (e ∷ f.after),
      ap (λ x. k.equal x p) (same ∙ found.at_key),
    )

    pub lookup-to_front : (p : K) → lookup p (f.curr ∷ (f.before ++ f.after)) ≡ lookup p c
    unfolding lookup
    lookup-to_front p = ground (
      arith,
      lookup-parts p,
      others_none p,
      lookup-append p f.before f.after,
      ap (λ x. k.equal x p) found.at_key,
    )
