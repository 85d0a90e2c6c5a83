-- ===== src/HashTable/Reads.antt =====
-- `ht_new`, `ht_get_value`, `ht_get_key`, `ht_clear`, `ht_size` and `ht_get_all` of src/hash_table.c.
use bootstrap_agency_templat.Prelude.{
  ℕ, zero, suc, ◌+◌, ◌%◌, ◌^◌, ◌≤◌, ◌≡◌, ◌≢◌, refl, ap, sym, subst, ◌∙◌, Option, none, some, List,
  [], ◌∷◌, length, get_or, replicate, arith, length-append, inl, inr, Bool-cases, Option-cases,
}
use mathlib.Core.List.{flatten}
use bootstrap_agency_templat.HashTable.{
  Key, Entry, Chain, Found, Table, slot, chain_at, down, has_prev, find, new, get, get_value,
  get_key, size, entries, clear, free_chain, free_buckets, empty_buckets,
}
use bootstrap_agency_templat.HashTable.Chain.{
  lookup, count, lookup-append, lookup-eq-none, count-append,
}
use bootstrap_agency_templat.HashTable.Buckets.{view, IsValid, total}
use bootstrap_agency_templat.HashTable.Laws.{found_count, absent, located, to_front-Writes}

module _ {K V : Type 0} ⦃k : Key K⦄ where
  get_or-empty : (n i : ℕ) → get_or (replicate {A = Chain K V} n []) i [] ≡ []
  get_or-empty zero i = refl
  get_or-empty (suc n) zero = refl
  get_or-empty (suc n) (suc i) = get_or-empty n i

  -- A new table is valid and reads as the empty map.
  pub new-IsValid : IsValid {K = K} {V = V} new × ((q : K) → view {V = V} new q ≡ none)
  unfolding new lookup count total
  new-IsValid = (
    record {
      width = refl;
      nonempty = omega arith;
      hashed = λ i. rw (get_or-empty 3 i) tt;
      placed = λ i q ne. rw (get_or-empty 3 i);
      single = λ q. rw (get_or-empty 3 (k.hash q % 3)) (omega arith);
      counted = refl;
    },
    λ q. rw (get_or-empty 3 (k.hash q % 3)),
  )

  -- what a read at `key` leaves behind
  pub record IsUnchanged (t t' : Table K V) : Type 0 where
    pub reads : (q : K) → view t' q ≡ view t q
    pub valid : IsValid t'
    pub sized : size t' ≡ size t

  abbrev pub value_of : Option (Entry K V) → Option V
  value_of none = none
  value_of (some e) = some e.value

  -- the key that `get_key` is to report: the one asked for, if the map has it
  abbrev pub key_if : K → Option V → Option K
  key_if key none = none
  key_if key (some v) = some key

  to_front-IsUnchanged :
      (t : Table K V) (key : K) (f : Found K V)
      → IsValid t
      → find t key ≡ some f
      → (view t key ≡ some f.curr.value) × IsUnchanged t (get t key).0
  unfolding get size
  to_front-IsUnchanged t key f valid e =
      let w = to_front-Writes t valid key f (located t valid key f e) in
      (
        sym w.returned,
        rw (e, get)
            (elim (Bool-cases (has_prev f)) [
              | inl moved ↦ rw moved (record {
                reads = λ q. elim (Bool-cases (k.equal key q)) [
                  | inl same ↦
                      let at_q = w.reads q in
                      ground (
                        arith,
                        at_q,
                        subst (λ x. view t x ≡ some f.curr.value) ((k.equal_iff key q).0 same)
                            (sym w.returned),
                      )
                  | inr other ↦ ground (arith, w.reads q)
                ];
                valid = w.valid;
                sized = refl;
              })
              | inr first ↦ rw first (record { reads = λ q. refl; valid = valid; sized = refl })
            ]),
      )

  get-none : (t : Table K V) (key : K) → find t key ≡ none → get t key ≡ (t, none)
  unfolding get
  get-none t key e = rw (e, get)

  get-some :
      (t : Table K V) (key : K) (f : Found K V) → find t key ≡ some f → (get t key).1 ≡ some f.curr
  unfolding get
  get-some t key f e = rw (e, get)

  -- On a valid table `ht_get_value` returns what the map has at the key, `ht_get_key` returns the key if the map has
  -- it, and neither the map, the size nor the invariant changes.
  pub get-IsUnchanged :
      (t : Table K V) (key : K)
      → IsValid t
      → ((get_value t key).1 ≡ view t key)
        × ((get_key t key).1 ≡ key_if key (view t key))
        × IsUnchanged t (get_value t key).0
        × ((get_key t key).0 ≡ (get_value t key).0)
  unfolding get_value get_key
  get-IsUnchanged t key valid = elim (Option-cases (find t key)) [
    | inl e ↦
        let gone = absent t valid key e in
        (
          rw (get-none t key e, get_value) (sym gone),
          rw (get-none t key e, get_key, gone),
          rw (get-none t key e) (record { reads = λ q. refl; valid = valid; sized = refl }),
          refl,
        )
    | inr (f, e) ↦
        let (there, same) = to_front-IsUnchanged t key f valid e in
        let at_key = (located t valid key f e).at_key in
        (
          rw (get-some t key f e, get_value) (sym there),
          rw (get-some t key f e, get_key, there, at_key),
          same,
          refl,
        )
  ]

  length-empty_buckets : (bs : List (Chain K V)) → length (empty_buckets bs) ≡ length bs
  unfolding empty_buckets
  length-empty_buckets [] = refl
  length-empty_buckets (c ∷ cs) = ap suc (length-empty_buckets cs)

  get_or-empty_buckets : (bs : List (Chain K V)) (i : ℕ) → get_or (empty_buckets bs) i [] ≡ []
  unfolding empty_buckets
  get_or-empty_buckets [] i = refl
  get_or-empty_buckets (c ∷ cs) zero = refl
  get_or-empty_buckets (c ∷ cs) (suc i) = get_or-empty_buckets cs i

  total-empty_buckets : (bs : List (Chain K V)) → total (empty_buckets bs) ≡ 0
  unfolding empty_buckets total
  total-empty_buckets [] = refl
  total-empty_buckets (c ∷ cs) = omega (arith, total-empty_buckets cs)

  free_chain_lem :
      (c : Chain K V) (n m : ℕ) → n ≡ (length c + m) % 2 ^ 64 → free_chain c n ≡ m % 2 ^ 64
  unfolding free_chain
  free_chain_lem [] n m e = omega arith
  free_chain_lem (x ∷ c) n m e = free_chain_lem c (down n) m (omega arith)

  free_buckets_lem : (bs : List (Chain K V)) (n : ℕ) → n ≡ total bs % 2 ^ 64 → free_buckets bs n ≡ 0
  unfolding free_buckets total
  free_buckets_lem [] n e = e
  free_buckets_lem (c ∷ cs) n e =
      free_buckets_lem cs (free_chain c n) (free_chain_lem c n (total cs) e)

  -- `ht_clear` turns a valid table into one that is valid, empty and of size 0.
  pub clear-empty :
      (t : Table K V)
      → IsValid t
      → (size (clear t) ≡ 0) × IsValid (clear t) × ((q : K) → view (clear t) q ≡ none)
  unfolding clear size lookup count
  clear-empty t valid = (
    free_buckets_lem t.buckets t.num_keys valid.counted,
    record {
      width = length-empty_buckets t.buckets ∙ valid.width;
      nonempty = valid.nonempty;
      hashed = λ i. rw (get_or-empty_buckets t.buckets i) tt;
      placed = λ i q ne. rw (get_or-empty_buckets t.buckets i);
      single = λ q. rw (get_or-empty_buckets t.buckets (slot t q)) (omega arith);
      counted =
          rw (total-empty_buckets t.buckets) (free_buckets_lem t.buckets t.num_keys valid.counted);
    },
    λ q. rw (get_or-empty_buckets t.buckets (slot t q)),
  )

  -- All chains in a row hold the entries of one chain at its own keys.
  length-flatten : (bs : List (Chain K V)) → length (flatten bs) ≡ total bs
  unfolding total flatten
  length-flatten [] = refl
  length-flatten (c ∷ cs) = omega (arith, length-append c (flatten cs), length-flatten cs)

  module _ (sought : K) where
    -- the key stands in no chain but that at an index
    abbrev OnlyAt : ℕ → List (Chain K V) → Type 0
    OnlyAt place rows = (k : ℕ) → k ≢ place → count sought (get_or rows k []) ≡ 0

    nowhere :
        (rows : List (Chain K V)) → OnlyAt (length rows) rows → count sought (flatten rows) ≡ 0
    unfolding flatten count
    nowhere [] only = refl
    nowhere (row ∷ rows) only =
        let later = nowhere rows (λ k ne. only (suc k) (λ e. ne (omega arith))) in
        omega (arith, later, only 0 (omega arith), count-append sought row (flatten rows))

    -- so that chain answers for all of them
    flatten-OnlyAt :
        (place : ℕ) (rows : List (Chain K V))
        → OnlyAt place rows
        → (count sought (flatten rows) ≡ count sought (get_or rows place []))
          × (lookup sought (flatten rows) ≡ lookup sought (get_or rows place []))
    unfolding flatten
    flatten-OnlyAt place [] only = (refl, refl)
    flatten-OnlyAt zero (row ∷ rows) only =
        let later = nowhere rows (λ k ne. only (suc k) (omega arith)) in
        (
          omega (arith, later, count-append sought row (flatten rows)),
          ground (
            arith,
            lookup-eq-none sought (flatten rows) later,
            lookup-append sought row (flatten rows),
          ),
        )
    flatten-OnlyAt (suc place) (row ∷ rows) only =
        let clear_row = only 0 (omega arith) in
        let (counts, finds) =
          flatten-OnlyAt place rows (λ k ne. only (suc k) (λ e. ne (omega arith))) in
        (
          omega (arith, counts, clear_row, count-append sought row (flatten rows)),
          ground (
            arith,
            finds,
            lookup-eq-none sought row clear_row,
            lookup-append sought row (flatten rows),
          ),
        )

  count-eq-found : (q : K) (c : Chain K V) → count q c ≤ 1 → count q c ≡ found_count (lookup q c)
  unfolding count lookup
  count-eq-found q [] h = refl
  count-eq-found q (e ∷ c) h = ground (arith, count-eq-found q c)

  -- Of a valid table `ht_get_all` lists `ht_size` entries: one for each key of the map, with its value, and no other.
  pub entries_lem :
      (t : Table K V)
      → IsValid t
      → (size t ≡ length (entries t) % 2 ^ 64)
        × ((q : K)
            → (lookup q (entries t) ≡ view t q) × (count q (entries t) ≡ found_count (view t q)))
  unfolding size entries
  entries_lem t valid = (
    omega (arith, valid.counted, length-flatten t.buckets),
    λ q.
        let (counted, found) =
          flatten-OnlyAt q (slot t q) t.buckets (λ i ne. valid.placed i q ne) in
        (found, counted ∙ count-eq-found q (chain_at t q) (valid.single q)),
  )
