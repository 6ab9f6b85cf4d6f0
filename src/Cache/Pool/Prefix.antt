-- ===== src/Cache/Pool/Prefix.antt =====
-- `get_computed_blocks` finds the longest cached prefix and takes one reference to each block of it.
use mathlib.Core.List.{append-nil, append_assoc}
use pypto_serving.Prelude.{
  ℕ, ◌+◌, ◌-◌, ◌*◌, ◌/◌, ◌≤◌, ◌<◌, ◌≡◌, ◌⊎◌, inl, inr, refl, ap, ap₂, ◌∙◌, true, false, none, some,
  List, [], ◌∷◌, ◌++◌, arith, leb, length, take, map, get_elem?, count, length-append, Bool-cases,
  Option-cases,
}
use pypto_serving.Cache.Hashes.{iter_token_block_hashes}
use pypto_serving.Cache.Pool.{
  Pool, share, get_cached_block, match_prefix, get_computed_blocks, compute_block_hashes,
}
use pypto_serving.Cache.Pool.Validity.{IsValid, shared, share-IsValid}

-- The index has no block for the hash at `i`, or there is no hash at `i`.
abbrev pub Ends : Pool → List ℕ → ℕ → Type 0
Ends p hashes i = elim (get_elem? hashes i) [ none ↦ Unit {0} | some h ↦ p.hash_to_block h ≡ none ]

-- `p'` is `p` with a reference to each of the blocks `new`, which carry the first hashes.
pub record Matched (p : Pool) (hashes : List ℕ) (new : List ℕ) (p' : Pool) : Type 0 where
  pub carried : map p.block_hash new ≡ map some (take (length new) hashes)
  pub refs : (c : ℕ) → p'.ref_cnt c ≡ p.ref_cnt c + count c new
  pub same_hashes : p'.block_hash ≡ p.block_hash
  pub same_index : p'.hash_to_block ≡ p.hash_to_block
  pub same_size : p'.num_blocks ≡ p.num_blocks
  pub same_flag : p'.enable_prefix_cache ≡ p.enable_prefix_cache
  pub inside : (c : ℕ) → 0 < count c new → c < p.num_blocks

-- The loop that has the blocks `hits` and stops at `limit` blocks.
pub record MatchedUpTo (p : Pool) (hashes : List ℕ) (limit : ℕ) (hits : List ℕ) (r : List ℕ × Pool)
    : Type 0 where
  pub new : List ℕ
  pub free : List ℕ
  pub result : r.0 ≡ hits ++ new
  pub valid : IsValid r.1 free
  pub matched : Matched p hashes new r.1
  pub within : (length new ≡ 0) ⊎ (length hits + length new ≤ limit)
  pub longest : (limit ≤ length hits + length new) ⊎ Ends p hashes (length new)

stop :
    (p : Pool) (free hashes hits : List ℕ) (limit : ℕ)
    → IsValid p free
    → (limit ≤ length hits) ⊎ Ends p hashes 0
    → MatchedUpTo p hashes limit hits (hits, p)
stop p free hashes hits limit v e = record {
  new = [];
  free = free;
  result = rw append-nil;
  valid = v;
  matched = record {
    carried = refl;
    refs = λ c. omega arith;
    same_hashes = refl;
    same_index = refl;
    same_size = refl;
    same_flag = refl;
    inside = λ c h. absurd (omega arith);
  };
  within = inl refl;
  longest = let z : length hits + 0 ≡ length hits = omega arith in rw z e;
}

Matched-share :
    (p p' : Pool) (h b : ℕ) (hashes new : List ℕ)
    → p.block_hash b ≡ some h
    → b < p.num_blocks
    → Matched (share p b) hashes new p'
    → Matched p (h ∷ hashes) (b ∷ new) p'
unfolding share
Matched-share p p' h b hashes new e w m = record {
  carried = ap₂ (λ x xs. x ∷ xs) e m.carried;
  refs = λ c. ground (arith, m.refs c);
  same_hashes = m.same_hashes;
  same_index = m.same_index;
  same_size = m.same_size;
  same_flag = m.same_flag;
  inside = λ c k. ground (arith, m.inside c, w, k);
}

MatchedUpTo-share :
    (p : Pool) (h b : ℕ) (hashes : List ℕ) (limit : ℕ) (hits : List ℕ) (r : List ℕ × Pool)
    → p.block_hash b ≡ some h
    → b < p.num_blocks
    → length hits < limit
    → MatchedUpTo (share p b) hashes limit (hits ++ b ∷ []) r
    → MatchedUpTo p (h ∷ hashes) limit hits r
unfolding share
MatchedUpTo-share p h b hashes limit hits r e w room m = record {
  new = b ∷ m.new;
  free = m.free;
  result = m.result ∙ append_assoc hits (b ∷ []) m.new;
  valid = m.valid;
  matched = Matched-share p r.1 h b hashes m.new e w m.matched;
  within = ground (arith, m.within, length-append hits (b ∷ []));
  longest = ground (arith, m.longest, length-append hits (b ∷ []));
}

get_cached_block_miss : (p : Pool) (h : ℕ) → p.hash_to_block h ≡ none → get_cached_block p h ≡ none
unfolding get_cached_block
get_cached_block_miss p h e = ground arith

get_cached_block_hit :
    (p : Pool) (h b : ℕ)
    → p.enable_prefix_cache ≡ true
    → p.hash_to_block h ≡ some b
    → get_cached_block p h ≡ some (b, share p b)
unfolding get_cached_block
get_cached_block_hit p h b on e = ground arith

flag-share : (p : Pool) (b : ℕ) → (share p b).enable_prefix_cache ≡ p.enable_prefix_cache
unfolding share
flag-share p b = refl

pub match_prefix-MatchedUpTo :
    (p : Pool) (free hashes : List ℕ) (limit : ℕ) (hits : List ℕ)
    → IsValid p free
    → p.enable_prefix_cache ≡ true
    → MatchedUpTo p hashes limit hits (match_prefix p hashes limit hits)
unfolding match_prefix
match_prefix-MatchedUpTo p free [] limit hits v on = stop p free [] hits limit v (inr tt)
match_prefix-MatchedUpTo p free (h ∷ hashes) limit hits v on =
    let next = λ (b : ℕ) (w : b < p.num_blocks).
      match_prefix-MatchedUpTo (share p b) (shared p b free) hashes limit (hits ++ b ∷ [])
        (share-IsValid p free b v w) (flag-share p b ∙ on) in
    elim (Bool-cases (leb limit (length hits))) [
      | inl full ↦
          rw (full, match_prefix) (stop p free (h ∷ hashes) hits limit v (inl (ground arith)))
      | inr room ↦
          rw (room, match_prefix)
            (elim (Option-cases (p.hash_to_block h)) [
              | inl miss ↦
                  rw (get_cached_block_miss p h miss, match_prefix)
                    (stop p free (h ∷ hashes) hits limit v (inr miss))
              | inr (b, hit) ↦
                  rw (get_cached_block_hit p h b on hit, match_prefix)
                    (MatchedUpTo-share p h b hashes limit hits _ (v.indexed h b hit)
                      (v.in_range h b hit) (ground arith) (next b (v.in_range h b hit)))
            ])
    ]

mul_le_of_le_div : (k n d : ℕ) → k ≤ n / d → k * d ≤ n
mul_le_of_le_div k n d h = grind arith

fits : (n d k r : ℕ) → 0 < n → r ≡ k → (k ≡ 0) ⊎ (0 + k ≤ (n - 1) / d) → r * d < n
fits n d k r h e (inl z) = let z' : r ≡ 0 = omega arith in rw z' (omega arith)
fits n d k r h e (inr b) =
    let b' : k ≤ (n - 1) / d = omega arith in rw e (omega (arith, mul_le_of_le_div k (n - 1) d b'))

module _ (hash : ℕ → List ℕ → ℕ) (none_hash : ℕ) where
  -- With the prefix cache on, `get_computed_blocks` returns the longest run of cached blocks from
  -- the start of the tokens, up to its limit: they carry the tokens' first block hashes, each gains
  -- one reference, no other reference, hash or index entry changes, and the pool stays well formed.
  pub get_computed_blocks-MatchedUpTo :
      (p : Pool) (free token_ids : List ℕ)
      → IsValid p free
      → p.enable_prefix_cache ≡ true
      → MatchedUpTo p
          (iter_token_block_hashes hash none_hash token_ids p.block_size)
          ((length token_ids - 1) / p.block_size)
          []
          (get_computed_blocks hash none_hash p token_ids)
  unfolding get_computed_blocks compute_block_hashes
  get_computed_blocks-MatchedUpTo p free token_ids v on =
      simp on (match_prefix-MatchedUpTo p free _ _ [] v on)

  get_computed_blocks_off :
      (p : Pool) (token_ids : List ℕ)
      → p.enable_prefix_cache ≡ false
      → get_computed_blocks hash none_hash p token_ids ≡ ([], p)
  unfolding get_computed_blocks
  get_computed_blocks_off p token_ids off = ground arith

  -- A hit never covers the whole prompt: at least one token is left to compute.
  pub get_computed_blocks-lt :
      (p : Pool) (free token_ids : List ℕ)
      → IsValid p free
      → 0 < length token_ids
      → length (get_computed_blocks hash none_hash p token_ids).0 * p.block_size < length token_ids
  get_computed_blocks-lt p free token_ids v h = elim (Bool-cases p.enable_prefix_cache) [
    | inl on ↦
        let m = get_computed_blocks-MatchedUpTo p free token_ids v on in
        fits (length token_ids) p.block_size (length m.new) _ h (ap length m.result) m.within
    | inr off ↦ rw (get_computed_blocks_off p token_ids off) (omega arith)
  ]
