-- ===== src/HashTable/Laws.antt =====
-- The operations of src/hash_table.c as operations on the map that the table stands for.
use bootstrap_agency_templat.Prelude.{
  ℕ, ◌+◌, ◌≤◌, ◌≡◌, refl, ap, sym, subst, ◌∙◌, Option, none, some, ◌∷◌, ◌++◌, length, if◌then◌else◌,
  arith, inl, inr, Bool-cases, Option-cases,
}
use native.Mathlib.Nat.{le_trans, le_of_eq}
use bootstrap_agency_templat.HashTable.{
  Key, Entry, Chain, Found, Table, slot, chain_at, up, down, relink, unlink, find, remove,
  put_found, put_absent, put,
}
use bootstrap_agency_templat.HashTable.Chain.{
  lookup, count, AllHashed, walk-none, walk-IsFound, IsFound, lookup-eq-none,
}
use bootstrap_agency_templat.HashTable.Chain.Parts.{
  lookup-found, length-found, length-put_back, curr_hashed, rest-AllHashed, put_back-AllHashed,
  count-rest, count-put_back, lookup-rest, lookup-put_back, lookup-to_front, count-to_front,
}
use bootstrap_agency_templat.HashTable.Buckets.{
  view, IsValid, rewrite-IsValid, view-rewrite, total, total-set, slot-lt,
}

abbrev pub found_count : {V : Type 0} → Option V → ℕ
found_count none = 0
found_count (some _) = 1

module _ {K V : Type 0} ⦃k : Key K⦄ where
  -- an operation at `key` that returned the old value and left `v` there, and nothing else changed
  pub record Writes (t : Table K V) (key : K) (v : Option V) (r : Table K V × Option V)
      : Type 0 where
    pub returned : r.1 ≡ view t key
    pub reads : (q : K) → view r.0 q ≡ (if k.equal key q then v else view t q)
    pub valid : IsValid r.0
    pub sized : total r.0.buckets + found_count (view t key) ≡ total t.buckets + found_count v

  module _ (t : Table K V) (valid : IsValid t) (key : K) where
    old : Chain K V
    old = chain_at t key

    old_hashed : AllHashed (chain_at t key)
    old_hashed = valid.hashed (slot t key)

    pub absent : find t key ≡ none → view t key ≡ none
    unfolding find
    absent e = lookup-eq-none key (chain_at t key) (walk-none key (chain_at t key) old_hashed e)

    pub located : (f : Found K V) → find t key ≡ some f → IsFound key (chain_at t key) f
    unfolding find
    located f e = walk-IsFound key (chain_at t key) old_hashed e

    keep_absent :
        view t key ≡ none → (q : K) → view t q ≡ (if k.equal key q then none else view t q)
    keep_absent e q = elim (Bool-cases (k.equal key q)) [
      | inl same ↦ rw same (ap (view t) (sym ((k.equal_iff key q).0 same)) ∙ e)
      | inr other ↦ rw other
    ]

    nothing-Writes : view t key ≡ none → Writes t key none (t, none)
    nothing-Writes e = record {
      returned = sym e;
      reads = keep_absent e;
      valid = valid;
      sized = rw e;
    }

    -- A chain with no key more often than the old one holds each key at most once.
    fits :
        (c : Chain K V)
        → ((q : K) → count q c ≤ count q (chain_at t key))
        → (q : K) → count q c ≤ (if k.equal key q then 1 else count q (chain_at t key))
    fits c le q = elim (Bool-cases (k.equal key q)) [
      | inl same ↦
          let one : count q (chain_at t key) ≤ 1 =
            subst (λ x. count x (chain_at t key) ≤ 1) ((k.equal_iff key q).0 same)
              (valid.single key) in
          rw same (le_trans (le q) one)
      | inr other ↦ rw other (le q)
    ]

    module _ (f : Found K V) (found : IsFound key (chain_at t key) f) where
      single : count key (chain_at t key) ≤ 1
      single = valid.single key

      found_value : view t key ≡ some f.curr.value
      found_value = lookup-found key (chain_at t key) f found single old_hashed

      some_entry : 1 ≤ length (chain_at t key)
      some_entry = omega (arith, length-found key (chain_at t key) f found single old_hashed)

      unlink-Writes : Writes t key none (unlink t key f, some f.curr.value)
      unlink-Writes =
          let c = f.before ++ f.after in
          let shorter = length-found key (chain_at t key) f found single old_hashed in
          record {
            returned = sym found_value;
            reads =
                view-rewrite t valid key c (down t.num_keys) none
                  (lookup-rest key (chain_at t key) f found single old_hashed);
            valid =
                rewrite-IsValid t valid key c (down t.num_keys)
                  (rest-AllHashed key (chain_at t key) f found single old_hashed)
                  (fits c (count-rest key (chain_at t key) f found single old_hashed)) (omega arith)
                  (omega arith);
            sized =
                rw found_value
                  (omega (arith, total-set t.buckets (slot t key) c (slot-lt t valid key)));
          }

      put_back : V → Entry K V
      put_back v = record { hc = f.curr.hc; key = f.curr.key; value = v }

      update-Writes :
          (v : V) → Writes t key (some v) (put_found t key f (some v), some f.curr.value)
      unfolding put_found put_back
      update-Writes v =
          let c = f.before ++ (put_back v ∷ f.after) in
          let same = length-put_back key (chain_at t key) f found single old_hashed (put_back v) in
          record {
            returned = sym found_value;
            reads = view-rewrite t valid key c t.num_keys (some v) (λ q.
                lookup-put_back key (chain_at t key) f found single old_hashed (put_back v) q refl);
            valid =
                rewrite-IsValid t valid key c t.num_keys
                  (put_back-AllHashed key (chain_at t key) f found single old_hashed (put_back v)
                    (curr_hashed key (chain_at t key) f found single old_hashed))
                  (fits c (λ q. le_of_eq (
                    count-put_back key (chain_at t key) f found single old_hashed (put_back v) q
                      refl)))
                  (omega (arith, valid.counted)) (omega arith);
            sized =
                rw found_value
                  (omega (arith, total-set t.buckets (slot t key) c (slot-lt t valid key)));
          }

      -- Moving the entry to the front of its chain changes no lookup and no count.
      pub to_front-Writes :
          Writes t key
            (some f.curr.value)
            (relink t key (f.curr ∷ (f.before ++ f.after)), some f.curr.value)
      to_front-Writes =
          let c = f.curr ∷ (f.before ++ f.after) in
          let same = length-found key (chain_at t key) f found single old_hashed in
          record {
            returned = sym found_value;
            reads = view-rewrite t valid key c t.num_keys (some f.curr.value) (λ q.
                elim (Bool-cases (k.equal key q)) [
                  | inl e ↦ rw e (
                      lookup-to_front key (chain_at t key) f found single old_hashed q
                      ∙ subst (λ x. lookup x (chain_at t key) ≡ some f.curr.value)
                          ((k.equal_iff key q).0 e) found_value)
                  | inr e ↦ rw e (lookup-to_front key (chain_at t key) f found single old_hashed q)
                ]);
            valid =
                rewrite-IsValid t valid key c t.num_keys
                  (
                    curr_hashed key (chain_at t key) f found single old_hashed,
                    rest-AllHashed key (chain_at t key) f found single old_hashed,
                  )
                  (fits c (λ q.
                    le_of_eq (count-to_front key (chain_at t key) f found single old_hashed q)))
                  (omega (arith, valid.counted)) (omega arith);
            sized =
                rw found_value
                  (omega (arith, total-set t.buckets (slot t key) c (slot-lt t valid key)));
          }

    added_fits :
        find t key ≡ none
        → (q : K)
        → (if k.equal key q then 1 else 0) + count q (chain_at t key)
          ≤ (if k.equal key q then 1 else count q (chain_at t key))
    unfolding find
    added_fits e q = elim (Bool-cases (k.equal key q)) [
      | inl same ↦
          let clear : count q (chain_at t key) ≡ 0 =
            subst (λ x. count x (chain_at t key) ≡ 0) ((k.equal_iff key q).0 same)
              (walk-none key (chain_at t key) old_hashed e) in
          rw (same, clear) (omega arith)
      | inr other ↦ rw other (omega arith)
    ]

    add-Writes :
        (v : V) → find t key ≡ none → Writes t key (some v) (put_absent t key (some v), none)
    unfolding put_absent find count lookup
    add-Writes v e =
        let c = record { hc = k.hash key; key = key; value = v } ∷ chain_at t key in
        record {
          returned = sym (absent e);
          reads = view-rewrite t valid key c (up t.num_keys) (some v) (λ q. refl);
          valid =
              rewrite-IsValid t valid key c (up t.num_keys) (refl, old_hashed) (added_fits e)
                (omega arith) (omega arith);
          sized =
              rw (absent e)
                (omega (arith, total-set t.buckets (slot t key) c (slot-lt t valid key)));
        }

  -- On a valid table `ht_remove` returns what the map had at the key, takes that key and nothing else
  -- out of the map, keeps the invariant, and shortens the chains by one entry if the key was there.
  pub remove-Writes : (t : Table K V) (key : K) → IsValid t → Writes t key none (remove t key)
  unfolding remove
  remove-Writes t key valid = elim (Option-cases (find t key)) [
    | inl e ↦ rw (e, remove) (nothing-Writes t valid key (absent t valid key e))
    | inr (f, e) ↦ rw (e, remove) (unlink-Writes t valid key f (located t valid key f e))
  ]

  -- On a valid table `ht_put` returns what the map had at the key, leaves the new value there (none if
  -- it is null) and the rest of the map as it was, keeps the invariant, and changes the number of
  -- entries in the chains by what the key gained or lost.
  pub put-Writes :
      (t : Table K V) (key : K) (v : Option V) → IsValid t → Writes t key v (put t key v)
  unfolding put
  put-Writes t key (some v) valid = elim (Option-cases (find t key)) [
    | inl e ↦ rw (e, put) (add-Writes t valid key v e)
    | inr (f, e) ↦ rw (e, put) (update-Writes t valid key f (located t valid key f e) v)
  ]
  put-Writes t key none valid = elim (Option-cases (find t key)) [
    | inl e ↦ rw (e, put) (unfold put_absent in nothing-Writes t valid key (absent t valid key e))
    | inr (f, e) ↦
        rw (e, put) (unfold put_found in unlink-Writes t valid key f (located t valid key f e))
  ]
