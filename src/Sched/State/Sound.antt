-- ===== src/Sched/State/Sound.antt =====
-- The states that the scheduler keeps: the queues, and the owners of each block of the generic pool.
use pypto_serving.Prelude.{
  ℕ, ◌+◌, ◌<◌, ◌≡◌, refl, ◌∙◌, sym, ap, ap₂, Bool, true, false, not, ◌&&◌, List, [], ◌∷◌, ◌++◌,
  arith, ◌==◌, count, elem, Distinct, Bool-cases, inl, inr, elem-append,
}
use pypto_serving.Cache.Pool.Validity.{IsValid}
use pypto_serving.Cache.Manager.{Manager}
use pypto_serving.Sched.Request.{Request, RequestStatus, waiting, running, preempted}
use pypto_serving.Sched.Blocks.{Lease, all_block_ids}
use pypto_serving.Sched.Blocks.Accounted.{Accounted}
use pypto_serving.Sched.State.{Scheduler, store, others}

-- How often the requests list a block.
abbrev pub owners : (ℕ → Request) → ℕ → List ℕ → ℕ
owners objects b [] = 0
owners objects b (i ∷ ids) = count b (all_block_ids (objects i)) + owners objects b ids

pub elem-others : (i j : ℕ) (ids : List ℕ) → elem j (others i ids) ≡ (not (j == i) && elem j ids)
elem-others i j [] = ground arith
elem-others i j (x ∷ ids) = ground (arith, elem-others i j ids)

pub others-Distinct : (i : ℕ) (ids : List ℕ) → Distinct ids → Distinct (others i ids)
others-Distinct i [] d = tt
others-Distinct i (x ∷ ids) d = ground (arith, others-Distinct i ids d.1, elem-others i x ids)

pub others-outside : (i : ℕ) (ids : List ℕ) → elem i ids ≡ false → others i ids ≡ ids
others-outside i [] h = refl
others-outside i (x ∷ ids) h = ground (arith, others-outside i ids)

pub owners-store_out :
    (objects : ℕ → Request) (i : ℕ) (r : Request) (b : ℕ) (ids : List ℕ)
    → elem i ids ≡ false
    → owners (store objects i r) b ids ≡ owners objects b ids
owners-store_out objects i r b [] h = refl
owners-store_out objects i r b (x ∷ ids) h = ground (arith, owners-store_out objects i r b ids)

pub owners-others :
    (objects : ℕ → Request) (i b : ℕ) (ids : List ℕ)
    → Distinct ids
    → elem i ids ≡ true
    → owners objects b ids ≡ count b (all_block_ids (objects i)) + owners objects b (others i ids)
owners-others objects i b [] d h = absurd cc
owners-others objects i b (x ∷ ids) d h =
    ground (arith, owners-others objects i b ids d.1, others-outside i ids, d.0)

pub owners-append :
    (objects : ℕ → Request) (b : ℕ) (xs ys : List ℕ)
    → owners objects b (xs ++ ys) ≡ owners objects b xs + owners objects b ys
owners-append objects b [] ys = omega arith
owners-append objects b (x ∷ xs) ys = omega (arith, owners-append objects b xs ys)

-- The model has no cache groups. Each block has one reference for each time that a running request
-- lists it, and a request that does not run lists none.
pub record Blocks (m : Manager) (objects : ℕ → Request) (ids : List ℕ) : Type 0 where
  pub no_groups : m.groups.pools ≡ []
  pub free : List ℕ
  pub valid : IsValid m.pool free
  pub refs : (b : ℕ) → b < m.pool.num_blocks → m.pool.ref_cnt b ≡ owners objects b ids
  pub in_range : (i b : ℕ) → 0 < count b (all_block_ids (objects i)) → b < m.pool.num_blocks
  pub tables : (i : ℕ) → (objects i).allocated_group_block_ids ≡ []
  pub idle :
      (i : ℕ)
      → elem i ids ≡ false
      → ((objects i).cached_block_ids ≡ []) × ((objects i).allocated_block_ids ≡ [])

abbrev pub is_queued : RequestStatus → Bool
is_queued waiting = true
is_queued preempted = true
is_queued _ = false

-- The two queues have no request twice, and the statuses tell the queue; each object stands under its
-- own id, and the requests of both queues are known.
pub record Queues (objects : ℕ → Request) (known running_ids waiting_ids : List ℕ) : Type 0 where
  pub running_distinct : Distinct running_ids
  pub waiting_distinct : Distinct waiting_ids
  pub is_running : (i : ℕ) → elem i running_ids ≡ true → (objects i).status ≡ running
  pub is_waiting : (i : ℕ) → elem i waiting_ids ≡ true → is_queued (objects i).status ≡ true
  pub ids : (i : ℕ) → (objects i).request_id ≡ i
  pub known_running : (i : ℕ) → elem i running_ids ≡ true → elem i known ≡ true
  pub known_waiting : (i : ℕ) → elem i waiting_ids ≡ true → elem i known ≡ true

pub record Sound (s : Scheduler) : Type 0 where
  pub blocks : Blocks s.manager s.objects s.running_ids
  pub queues : Queues s.objects s.known s.running_ids s.waiting_ids

-- The references of all requests but one.
abbrev pub rest_of : (ℕ → Request) → List ℕ → ℕ → ℕ → ℕ
rest_of objects ids i b = owners objects b (others i ids)

module _ (m : Manager) (objects : ℕ → Request) (ids : List ℕ) where
  -- The account of one request.
  pub Blocks-focus :
      (i : ℕ)
      → Distinct ids
      → Blocks m objects ids
      → Accounted (rest_of objects ids i) (record { manager = m; request = objects i })
  Blocks-focus i d v = record {
    no_groups = v.no_groups;
    free = v.free;
    valid = v.valid;
    refs = λ b k. elim (Bool-cases (elem i ids)) [
      | inl there ↦ omega (arith, v.refs b k, owners-others objects i b ids d there)
      | inr out ↦
          let (cached, owned) = v.idle i out in
          let nothing = ap₂ (λ (xs ys : List ℕ). count b (xs ++ ys)) cached owned in
          let same = ap (λ (l : List ℕ). owners objects b l) (others-outside i ids out) in
          omega (arith, v.refs b k, nothing, same)
    ];
    in_range = v.in_range i;
    tables = v.tables i;
  }

  -- The state after a call for a request, where `ids'` are the running requests then.
  pub Blocks-after :
      (i : ℕ) (h' : Lease) (ids' : List ℕ)
      → Blocks m objects ids
      → Accounted (rest_of objects ids i) h'
      → h'.manager.pool.num_blocks ≡ m.pool.num_blocks
      → ((b : ℕ)
          → owners (store objects i h'.request) b ids'
            ≡ owners objects b (others i ids) + count b (all_block_ids h'.request))
      → ((j : ℕ) → (i == j) ≡ false → elem j ids' ≡ false → elem j ids ≡ false)
      → (elem i ids' ≡ false
          → (h'.request.cached_block_ids ≡ []) × (h'.request.allocated_block_ids ≡ []))
      → Blocks h'.manager (store objects i h'.request) ids'
  Blocks-after i h' ids' v acc size total outside cleared = record {
    no_groups = acc.no_groups;
    free = acc.free;
    valid = acc.valid;
    refs = λ b k. omega (arith, acc.refs b k, total b);
    in_range = λ j b k. elim (Bool-cases (i == j)) [
      | inl here ↦ acc.in_range b (simp here at k)
      | inr there ↦ omega (arith, v.in_range j b (simp there at k), size)
    ];
    tables = λ j. elim (Bool-cases (i == j)) [
      | inl here ↦ simp here acc.tables
      | inr there ↦ simp there (v.tables j)
    ];
    idle = λ j k. elim (Bool-cases (i == j)) [
      | inl here ↦ simp here (cleared (ground (arith, here, k)))
      | inr there ↦ simp there (v.idle j (outside j there k))
    ];
  }

  -- A running request stays; one that does not run stays without blocks.
  pub Blocks-keep :
      (i : ℕ) (h' : Lease)
      → Distinct ids
      → Blocks m objects ids
      → Accounted (rest_of objects ids i) h'
      → h'.manager.pool.num_blocks ≡ m.pool.num_blocks
      → (elem i ids ≡ false
          → (h'.request.cached_block_ids ≡ []) × (h'.request.allocated_block_ids ≡ []))
      → Blocks h'.manager (store objects i h'.request) ids
  Blocks-keep i h' d v acc size cleared =
      Blocks-after i h' ids v acc size
        (λ b. elim (Bool-cases (elem i ids)) [
          | inl there ↦ ground (
            arith,
            owners-others (store objects i h'.request) i b ids d there,
            owners-store_out objects i h'.request b (others i ids),
            elem-others i i ids,
          )
          | inr out ↦
              let (cached, owned) = cleared out in
              let nothing = ap₂ (λ (xs ys : List ℕ). count b (xs ++ ys)) cached owned in
              let same = ap (λ (l : List ℕ). owners objects b l) (others-outside i ids out) in
              omega (arith, nothing, same, owners-store_out objects i h'.request b ids out)
        ])
        (λ j there k. k) cleared

  -- A request leaves the running list without blocks.
  pub Blocks-drop :
      (i : ℕ) (h' : Lease)
      → Blocks m objects ids
      → Accounted (rest_of objects ids i) h'
      → h'.manager.pool.num_blocks ≡ m.pool.num_blocks
      → (h'.request.cached_block_ids ≡ []) × (h'.request.allocated_block_ids ≡ [])
      → Blocks h'.manager (store objects i h'.request) (others i ids)
  Blocks-drop i h' v acc size cleared =
      Blocks-after i h' (others i ids) v acc size
        (λ b.
          let nothing = ap₂ (λ (xs ys : List ℕ). count b (xs ++ ys)) cleared.0 cleared.1 in
          omega (
            arith,
            nothing,
            owners-store_out objects i h'.request b (others i ids)
                (ground (arith, elem-others i i ids)),
          ))
        (λ j there k. ground (arith, elem-others i j ids)) (λ k. cleared)

  -- A request joins the running list.
  pub Blocks-join :
      (i : ℕ) (h' : Lease)
      → elem i ids ≡ false
      → Blocks m objects ids
      → Accounted (rest_of objects ids i) h'
      → h'.manager.pool.num_blocks ≡ m.pool.num_blocks
      → Blocks h'.manager (store objects i h'.request) (ids ++ i ∷ [])
  Blocks-join i h' out v acc size =
      Blocks-after i h' (ids ++ i ∷ []) v acc size
        (λ b.
          let same = ap (λ (l : List ℕ). owners objects b l) (others-outside i ids out) in
          let here : store objects i h'.request i ≡ h'.request = ground arith in
          let own = ap (λ (r : Request). count b (all_block_ids r)) here in
          omega (
            arith,
            owners-append (store objects i h'.request) b ids (i ∷ []),
            owners-store_out objects i h'.request b ids out,
            same,
            own,
          ))
        (λ j there k. ground (arith, elem-append j ids (i ∷ [])))
        (λ k. absurd (ground (arith, k, elem-append i ids (i ∷ []))))

owners_same :
    (objects objects' : ℕ → Request) (b : ℕ) (ids : List ℕ)
    → ((i b : ℕ) → count b (all_block_ids (objects' i)) ≡ count b (all_block_ids (objects i)))
    → owners objects' b ids ≡ owners objects b ids
owners_same objects objects' b [] h = refl
owners_same objects objects' b (i ∷ ids) h =
    omega (arith, h i b, owners_same objects objects' b ids h)

-- Only the blocks of the objects count.
pub Blocks-restate :
    (m : Manager) (objects objects' : ℕ → Request) (ids : List ℕ)
    → ((i : ℕ) → (objects' i).cached_block_ids ≡ (objects i).cached_block_ids)
    → ((i : ℕ) → (objects' i).allocated_block_ids ≡ (objects i).allocated_block_ids)
    → ((i : ℕ) → (objects' i).allocated_group_block_ids ≡ (objects i).allocated_group_block_ids)
    → Blocks m objects ids
    → Blocks m objects' ids
Blocks-restate m objects objects' ids cached owned tables v =
    let listed = λ (i b : ℕ). ap₂ (λ (xs ys : List ℕ). count b (xs ++ ys)) (cached i) (owned i) in
    record {
      no_groups = v.no_groups;
      free = v.free;
      valid = v.valid;
      refs = λ b k. v.refs b k ∙ sym (owners_same objects objects' b ids listed);
      in_range = λ i b k. v.in_range i b (omega (arith, k, listed i b));
      tables = λ i. tables i ∙ v.tables i;
      idle = λ i k. (cached i ∙ (v.idle i k).0, owned i ∙ (v.idle i k).1);
    }
