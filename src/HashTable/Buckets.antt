-- ===== src/HashTable/Buckets.antt =====
-- The invariant of the table of src/hash_table.c, the map that it stands for, and the one rule by
-- which every operation that rewrites a chain is proved.
use bootstrap_agency_templat.Prelude.{
  ℕ, zero, suc, ◌+◌, ◌%◌, ◌^◌, ◌≤◌, ◌<◌, ◌≡◌, ◌≢◌, ap, sym, ◌∙◌, true, Option, List, [], ◌∷◌,
  length, get_or, set, if◌then◌else◌, arith, length-set, get_or-set_self, get_or-set_ne,
}
use native.Mathlib.Nat.{mod-lt}
use native.Mathlib.Decide.{ℕ_discrete}
use bootstrap_agency_templat.HashTable.{Key, Chain, Table, slot, chain_at}
use bootstrap_agency_templat.HashTable.Chain.{lookup, count, AllHashed}

unfoldable pub total : {V : Type 0} → List (List V) → ℕ
total [] = 0
total (c ∷ cs) = length c + total cs

pub total-set :
    {A : Type 0} (bs : List (List A)) (i : ℕ) (c : List A)
    → i < length bs
    → total (set bs i c) + length (get_or bs i []) ≡ total bs + length c
unfolding total
total-set [] i c h = absurd (omega arith)
total-set (b ∷ bs) zero c h = omega arith
total-set (b ∷ bs) (suc i) c h = omega (arith, total-set bs i c (omega arith))

module _ {K V : Type 0} ⦃k : Key K⦄ where
  -- the map that a table stands for
  abbrev pub view : Table K V → K → Option V
  view t q = lookup q (chain_at t q)

  pub record IsValid (t : Table K V) : Type 0 where
    pub width : length t.buckets ≡ t.num_buckets
    pub nonempty : 0 < t.num_buckets
    pub hashed : (i : ℕ) → AllHashed (get_or t.buckets i [])
    pub placed : (i : ℕ) (q : K) → i ≢ slot t q → count q (get_or t.buckets i []) ≡ 0
    pub single : (q : K) → count q (chain_at t q) ≤ 1
    pub counted : t.num_keys ≡ total t.buckets % 2 ^ 64

  -- the table with the chain of `key` replaced and the counter rewritten
  abbrev pub rewrite : Table K V → K → Chain K V → ℕ → Table K V
  rewrite t key c n = record t { buckets = set t.buckets (slot t key) c; num_keys = n }

  module _ (t : Table K V) (valid : IsValid t) (key : K) where
    pub slot-lt : slot t key < length t.buckets
    slot-lt = omega (arith, mod-lt (k.hash key) valid.nonempty, valid.width)

    pub same_slot : (q : K) → k.equal key q ≡ true → slot t q ≡ slot t key
    same_slot q e = ap (slot t) (sym ((k.equal_iff key q).0 e))

    -- the chain at an index after the write: the new one, or the one that was there
    pub rewritten :
        (c : Chain K V) (i : ℕ) → i ≡ slot t key → get_or (set t.buckets (slot t key) c) i [] ≡ c
    rewritten c i e = rw e (get_or-set_self t.buckets (slot t key) c [] slot-lt)

    pub kept :
        (c : Chain K V) (i : ℕ)
        → i ≢ slot t key
        → get_or (set t.buckets (slot t key) c) i [] ≡ get_or t.buckets i []
    kept c i ne = get_or-set_ne t.buckets (slot t key) i c [] (λ e. ne (sym e))

    -- A new chain that is hashed and holds no key but `key` more often than the old one, with the
    -- counter moved by the difference of the lengths, keeps the invariant.
    pub rewrite-IsValid :
        (c : Chain K V) (n : ℕ)
        → AllHashed c
        → ((q : K) → count q c ≤ (if k.equal key q then 1 else count q (chain_at t key)))
        → n < 2 ^ 64
        → (n + length (chain_at t key)) % 2 ^ 64 ≡ (t.num_keys + length c) % 2 ^ 64
        → IsValid (rewrite t key c n)
    rewrite-IsValid c n hc fits small counts = record {
      width = length-set t.buckets (slot t key) c ∙ valid.width;
      nonempty = valid.nonempty;
      hashed = λ i. elim (ℕ_discrete i (slot t key)) [
        | yes e ↦ rw (rewritten c i e) hc
        | no ne ↦ rw (kept c i ne) (valid.hashed i)
      ];
      placed = λ i q ne. elim (ℕ_discrete i (slot t key)) [
        | yes e ↦
            rw (rewritten c i e)
              (ground (arith, fits q, same_slot q, valid.placed (slot t key) q (λ e'. ne (e ∙ e'))))
        | no off ↦ rw (kept c i off) (valid.placed i q ne)
      ];
      single = λ q. elim (ℕ_discrete (slot t q) (slot t key)) [
        | yes e ↦ rw (rewritten c (slot t q) e) (single_new q e)
        | no off ↦ rw (kept c (slot t q) off) (valid.single q)
      ];
      counted = omega (arith, total-set t.buckets (slot t key) c slot-lt, valid.counted);
    }
      where
        single_new : (q : K) → slot t q ≡ slot t key → count q c ≤ 1
        single_new q e =
            let old : count q (get_or t.buckets (slot t key) []) ≤ 1 = rw e at (valid.single q) in
            ground (arith, fits q)

    -- The map after the write, from the lookups in the new chain.
    pub view-rewrite :
        (c : Chain K V) (n : ℕ) (v : Option V)
        → ((q : K) → lookup q c ≡ (if k.equal key q then v else lookup q (chain_at t key)))
        → (q : K) → view (rewrite t key c n) q ≡ (if k.equal key q then v else view t q)
    view-rewrite c n v reads q = elim (ℕ_discrete (slot t q) (slot t key)) [
      | yes e ↦ rw (rewritten c (slot t q) e) (rw e (reads q))
      | no off ↦ rw (kept c (slot t q) off) (ground (arith, same_slot q))
    ]
