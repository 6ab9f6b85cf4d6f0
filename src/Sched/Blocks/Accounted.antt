-- ===== src/Sched/Blocks/Accounted.antt =====
-- A request object and the generic pool: each call of the scheduler keeps the count of references.
use pypto_serving.Prelude.{
  ℕ, ◌+◌, ◌≤◌, ◌<◌, ◌≡◌, refl, ◌∙◌, ap, Bool, List, [], ◌∷◌, ◌++◌, arith, ◌==◌, ltb, leb, length,
  take, drop, count, Bool-cases, inl, inr, returned, dec_lt, Distinct-take, elem-take, min, ◌/◌,
}
use pypto_serving.Cache.Pool.{num_free_blocks, allocate_blocks}
use pypto_serving.Cache.Pool.Validity.{IsValid}
use pypto_serving.Cache.Pool.Allocation.{allocate_blocks-Allocates}
use pypto_serving.Cache.Manager.{with_pool}
use pypto_serving.Sched.Config.{SchedulerConfig}
use pypto_serving.Sched.Request.{Request}
use pypto_serving.Sched.Blocks.{
  Lease, all_block_ids, blocks_needed, try_allocate_blocks, try_allocate_request_blocks,
  free_request_blocks, release_waiting_prefix_blocks, publish_blocks, cache_completed_blocks,
  lease_blocks, without_blocks, add_blocks,
}
use pypto_serving.Sched.Blocks.Counts.{
  count-append, count-Distinct, release_blocks-Unreferenced, cache_block_ids-Unreferenced,
}

-- Each block has the references of the other owners, `rest`, and one for each time that the request
-- lists it. The model has no cache groups.
pub record Accounted (rest : ℕ → ℕ) (h : Lease) : Type 0 where
  pub no_groups : h.manager.groups.pools ≡ []
  pub free : List ℕ
  pub valid : IsValid h.manager.pool free
  pub refs :
      (b : ℕ)
      → b < h.manager.pool.num_blocks
      → h.manager.pool.ref_cnt b ≡ rest b + count b (all_block_ids h.request)
  pub in_range : (b : ℕ) → 0 < count b (all_block_ids h.request) → b < h.manager.pool.num_blocks
  pub tables : h.request.allocated_group_block_ids ≡ []

-- A call that keeps the account, the size of the pool, and the identity and status of the request.
pub record Step (rest : ℕ → ℕ) (h h' : Lease) : Type 0 where
  pub accounted : Accounted rest h'
  pub size : h'.manager.pool.num_blocks ≡ h.manager.pool.num_blocks
  pub status : h'.request.status ≡ h.request.status
  pub id : h'.request.request_id ≡ h.request.request_id

pub Step-trans : (rest : ℕ → ℕ) (a b c : Lease) → Step rest a b → Step rest b c → Step rest a c
Step-trans rest a b c s t = record {
  accounted = t.accounted;
  size = t.size ∙ s.size;
  status = t.status ∙ s.status;
  id = t.id ∙ s.id;
}

pub Step-self : (rest : ℕ → ℕ) (h : Lease) → Accounted rest h → Step rest h h
Step-self rest h a = record { accounted = a; size = refl; status = refl; id = refl }

listed_le :
    (rest : ℕ → ℕ) (h : Lease) (b : ℕ)
    → Accounted rest h
    → count b (all_block_ids h.request) ≤ h.manager.pool.ref_cnt b
listed_le rest h b a = elim (dec_lt b h.manager.pool.num_blocks) [
  | yes inside ↦ omega (arith, a.refs b inside)
  | no outside ↦ elim (dec_lt 0 (count b (all_block_ids h.request))) [
    | yes held ↦ absurd (omega (arith, a.in_range b held))
    | no none_held ↦ omega arith
  ]
]

-- Freeing a request never fails, and leaves it without blocks.
pub free_request_blocks-Step :
    (rest : ℕ → ℕ) (h : Lease)
    → Accounted rest h
    → (h' : Lease) × (free_request_blocks h ≡ returned h')
      × Step rest h h'
      × (h'.request ≡ without_blocks h.request)
unfolding free_request_blocks
free_request_blocks-Step rest h a =
    let m =
      release_blocks-Unreferenced h.manager.pool a.free h.request.cached_block_ids
        h.request.allocated_block_ids a.valid (λ b. listed_le rest h b a) a.in_range in
    let h' : Lease = record {
      manager = with_pool h.manager m.p';
      request = without_blocks h.request;
    } in
    let freed : free_request_blocks h ≡ returned h' =
      rw (m.result, free_request_blocks) (rw (a.tables, free_request_blocks) refl) in
    (
      h',
      freed,
      record {
        accounted = record {
          no_groups = a.no_groups;
          free = m.free;
          valid = m.valid;
          refs = λ b i. omega (arith, m.refs b, a.refs b (omega (arith, i, m.size)));
          in_range = λ b i. absurd (omega arith);
          tables = refl;
        };
        size = m.size;
        status = refl;
        id = refl;
      },
      refl,
    )

-- An attempt to allocate returns, whether there were enough blocks or not.
pub record Tried (rest : ℕ → ℕ) (h : Lease) (r : Bool × Lease) : Type 0 where
  pub step : Step rest h r.1
  pub counts : r.1.request.num_computed_tokens ≡ h.request.num_computed_tokens

listed_more :
    (h : Lease) (new : List ℕ) (b : ℕ)
    → count b (all_block_ids (add_blocks h.request new))
      ≡ count b (all_block_ids h.request) + count b new
listed_more h new b = omega (
  arith,
  count-append b h.request.cached_block_ids (h.request.allocated_block_ids ++ new),
  count-append b h.request.allocated_block_ids new,
  count-append b h.request.cached_block_ids h.request.allocated_block_ids,
)

allocated :
    (rest : ℕ → ℕ) (h : Lease) (n : ℕ)
    → (a : Accounted rest h) → n ≤ length a.free
    → Tried rest h (lease_blocks h (allocate_blocks h.manager.pool n))
allocated rest h n a enough =
    let (p', result, valid, taken) =
      allocate_blocks-Allocates h.manager.pool a.free n a.valid enough in
    let d = Distinct-take n a.free a.valid.queue.distinct in
    rw (result, lease_blocks)
      (record {
        step = record {
          accounted = record {
            no_groups = a.no_groups;
            free = drop n a.free;
            valid = valid;
            refs = λ b i.
                let grown : p'.ref_cnt b ≡ h.manager.pool.ref_cnt b + count b (take n a.free) =
                  ground (
                    arith,
                    taken.refs b,
                    a.valid.unreferenced b,
                    elem-take n a.free b,
                    count-Distinct b (take n a.free) d,
                  ) in
                omega (
                  arith,
                  grown,
                  listed_more h (take n a.free) b,
                  a.refs b (omega (arith, i, taken.size)),
                );
            in_range = λ b k. ground (
              arith,
              k,
              listed_more h (take n a.free) b,
              taken.size,
              a.in_range b,
              a.valid.unreferenced b,
              elem-take n a.free b,
              count-Distinct b (take n a.free) d,
            );
            tables = a.tables;
          };
          size = taken.size;
          status = refl;
          id = refl;
        };
        counts = refl;
      })

try_allocate_blocks-Tried :
    (rest : ℕ → ℕ) (h : Lease) (n : ℕ) → Accounted rest h → Tried rest h (try_allocate_blocks h n)
unfolding try_allocate_blocks
try_allocate_blocks-Tried rest h n a = elim (Bool-cases (n == 0)) [
  | inl none_needed ↦
      rw (none_needed, try_allocate_blocks) (record { step = Step-self rest h a; counts = refl })
  | inr needed ↦ elim (Bool-cases (ltb (num_free_blocks h.manager.pool) n)) [
    | inl short ↦
        rw (needed, try_allocate_blocks)
          (rw (short, try_allocate_blocks) (record { step = Step-self rest h a; counts = refl }))
    | inr enough ↦
        rw (needed, try_allocate_blocks)
          (rw (enough, try_allocate_blocks)
            (allocated rest h n a (ground (arith, enough, a.valid.queue.count))))
  ]
]

-- Under no cache groups an attempt to allocate never raises an error.
pub try_allocate_request_blocks-Tried :
    (rest : ℕ → ℕ) (h : Lease) (n : ℕ)
    → Accounted rest h
    → (r : Bool × Lease) × (try_allocate_request_blocks h n ≡ returned r) × Tried rest h r
unfolding try_allocate_request_blocks
try_allocate_request_blocks-Tried rest h n a =
    let r = try_allocate_blocks h (blocks_needed h.manager.pool h.request n) in
    (r, rw (a.no_groups, try_allocate_request_blocks) refl, try_allocate_blocks-Tried rest h _ a)

pub release_waiting_prefix_blocks-Step :
    (rest : ℕ → ℕ) (h : Lease)
    → Accounted rest h
    → (h' : Lease) × (release_waiting_prefix_blocks h ≡ returned h')
      × Step rest h h'
      × (all_block_ids h'.request ≡ [])
unfolding release_waiting_prefix_blocks
release_waiting_prefix_blocks-Step rest h a =
    let (h', freed, step, empty) = free_request_blocks-Step rest h a in
    (
      record h' { request = record h'.request { num_computed_tokens = 0; num_blocks_cached = 0 } },
      simp freed refl,
      record {
        accounted = record {
          no_groups = step.accounted.no_groups;
          free = step.accounted.free;
          valid = step.accounted.valid;
          refs = step.accounted.refs;
          in_range = step.accounted.in_range;
          tables = step.accounted.tables;
        };
        size = step.size;
        status = step.status;
        id = step.id;
      },
      ap (λ (r : Request). all_block_ids r) empty,
    )

published :
    (rest : ℕ → ℕ) (h : Lease) (n : ℕ)
    → Accounted rest h
    → (h' : Lease) × (publish_blocks h n ≡ returned h') × Step rest h h'
unfolding publish_blocks
published rest h n a =
    let total = min (n / h.manager.pool.block_size) (length h.request.block_hashes) in
    elim (Bool-cases (leb total h.request.num_blocks_cached)) [
      | inl nothing_new ↦ (h, rw (nothing_new, publish_blocks) refl, Step-self rest h a)
      | inr more ↦
          let m =
            cache_block_ids-Unreferenced h.manager.pool a.free (all_block_ids h.request)
              h.request.block_hashes h.request.num_blocks_cached total a.valid a.in_range in
          (
            record {
              manager = with_pool h.manager m.p';
              request = record h.request { num_blocks_cached = total };
            },
            rw (more, publish_blocks) (rw (m.result, publish_blocks) refl),
            record {
              accounted = record {
                no_groups = a.no_groups;
                free = m.free;
                valid = m.valid;
                refs = λ b i. omega (arith, m.refs b, a.refs b (omega (arith, i, m.size)));
                in_range = λ b i. omega (arith, a.in_range b i, m.size);
                tables = a.tables;
              };
              size = m.size;
              status = refl;
              id = refl;
            },
          )
    ]

-- Publishing a request's full blocks never fails.
pub cache_completed_blocks-Step :
    (rest : ℕ → ℕ) (c : SchedulerConfig) (h : Lease) (n : ℕ)
    → Accounted rest h
    → (h' : Lease) × (cache_completed_blocks c h n ≡ returned h') × Step rest h h'
unfolding cache_completed_blocks
cache_completed_blocks-Step rest c h n a = elim (Bool-cases c.enable_prefix_cache) [
  | inl on ↦ let (h', e, step) = published rest h n a in (h', simp (on, a.no_groups) e, step)
  | inr off ↦ (h, rw (off, cache_completed_blocks) refl, Step-self rest h a)
]

pub append_empty : (xs ys : List ℕ) → xs ++ ys ≡ [] → (xs ≡ []) × (ys ≡ [])
append_empty [] ys e = (refl, e)
append_empty (x ∷ xs) ys e = absurd cc
