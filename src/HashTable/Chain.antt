-- ===== src/HashTable/Chain.antt =====
-- What a chain of src/hash_table.c holds: its lookup by key alone, the number of entries at a key,
-- and how the loop of `ht_find` relates to them.
pub mod Parts
use bootstrap_agency_templat.Prelude.{
  ℕ, ◌+◌, ◌≡◌, refl, ap, sym, ◌∙◌, true, false, Option, none, some, [], ◌∷◌, ◌++◌, ==_refl,
  if◌then◌else◌, arith, inl, inr, Bool-cases, Option-cases,
}
use bootstrap_agency_templat.HashTable.{Key, Entry, Chain, Found, matches, walk}

pub equal_refl : {K : Type 0} ⦃k : Key K⦄ (a : K) → k.equal a a ≡ true
equal_refl ⦃k⦄ a = (k.equal_iff a a).1 refl

abbrev pub or_else : {V : Type 0} → Option V → Option V → Option V
or_else none o = o
or_else (some v) o = some v

module _ {K V : Type 0} ⦃k : Key K⦄ where
  -- the value of the first entry at a key
  unfoldable pub lookup : K → Chain K V → Option V
  lookup q [] = none
  lookup q (e ∷ c) = if k.equal e.key q then some e.value else lookup q c

  unfoldable pub count : K → Chain K V → ℕ
  count q [] = 0
  count q (e ∷ c) = (if k.equal e.key q then 1 else 0) + count q c

  -- each entry carries the hash of its key
  abbrev pub AllHashed : Chain K V → Type 0
  AllHashed [] = Unit
  AllHashed (e ∷ c) = (e.hc ≡ k.hash e.key) × AllHashed c

  pub lookup-append :
      (q : K) (a b : Chain K V) → lookup q (a ++ b) ≡ or_else (lookup q a) (lookup q b)
  unfolding lookup
  lookup-append q [] b = refl
  lookup-append q (e ∷ a) b = ground (arith, lookup-append q a b)

  pub count-append :
      (q : K) (before after : Chain K V)
      → count q (before ++ after) ≡ count q before + count q after
  unfolding count
  count-append q [] after = omega arith
  count-append q (e ∷ before) after = omega (arith, count-append q before after)

  pub AllHashed-append : (a b : Chain K V) → AllHashed a → AllHashed b → AllHashed (a ++ b)
  AllHashed-append [] b ha hb = hb
  AllHashed-append (e ∷ a) b ha hb = (ha.0, AllHashed-append a b ha.1 hb)

  pub AllHashed-split : (a b : Chain K V) → AllHashed (a ++ b) → AllHashed a × AllHashed b
  AllHashed-split [] b h = (tt, h)
  AllHashed-split (e ∷ a) b h = let (x, y) = AllHashed-split a b h.1 in ((h.0, x), y)

  pub lookup-eq-none : (q : K) (c : Chain K V) → count q c ≡ 0 → lookup q c ≡ none
  unfolding lookup count
  lookup-eq-none q [] h = refl
  lookup-eq-none q (e ∷ c) h = ground (arith, lookup-eq-none q c)

  pub count-eq-zero : (q : K) (c : Chain K V) → lookup q c ≡ none → count q c ≡ 0
  unfolding lookup count
  count-eq-zero q [] h = refl
  count-eq-zero q (e ∷ c) h = ground (arith, count-eq-zero q c)

  -- With the right hashes the test of `ht_find` compares keys.
  pub matches-eq-equal :
      (q : K) (e : Entry K V) → e.hc ≡ k.hash e.key → matches q e ≡ k.equal e.key q
  matches-eq-equal q e h = elim (Bool-cases (k.equal e.key q)) [
    | inl same ↦
        let hash_eq : e.hc ≡ k.hash q = h ∙ ap k.hash ((k.equal_iff e.key q).0 same) in
        rw (hash_eq, same, ==_refl)
    | inr other ↦ ground arith
  ]

  -- what a successful walk along `c` for `q` has found
  pub record IsFound (q : K) (c : Chain K V) (f : Found K V) : Type 0 where
    pub parts : c ≡ f.before ++ (f.curr ∷ f.after)
    pub at_key : f.curr.key ≡ q
    pub first : count q f.before ≡ 0

  pub walk-none : (q : K) (c : Chain K V) → AllHashed c → walk q c ≡ none → count q c ≡ 0
  unfolding walk count
  walk-none q [] h e = refl
  walk-none q (e ∷ c) h eq = ground (arith, walk-none q c h.1, matches-eq-equal q e h.0)

  pub walk-IsFound :
      (q : K) (c : Chain K V) → AllHashed c → {f : Found K V} → walk q c ≡ some f → IsFound q c f
  unfolding walk count
  walk-IsFound q [] h eq = cc
  walk-IsFound q (e ∷ c) h {f} eq = elim (Bool-cases (matches q e)) [
    | inl here ↦
        let same : k.equal e.key q ≡ true = sym (matches-eq-equal q e h.0) ∙ here in
        record {
          parts = ground arith;
          at_key = ground (arith, (k.equal_iff e.key q).0 same);
          first = ground arith;
        }
    | inr there ↦
        let other : k.equal e.key q ≡ false = sym (matches-eq-equal q e h.0) ∙ there in
        elim (Option-cases (walk q c)) [
          | inl ended ↦ ground arith
          | inr (g, e') ↦
              let r = walk-IsFound q c h.1 e' in
              record {
                parts = ground (arith, r.parts);
                at_key = ground (arith, r.at_key);
                first = ground (arith, r.first);
              }
        ]
  ]
