-- ===== src/Cache/Groups/Snapshots/Pins.antt =====
-- A pin and its release leave the blocks as they were.
use pypto_serving.Cache.Queue.{update}
use pypto_serving.Prelude.{
  List, ℕ, ◌==◌, [], ◌∷◌, true, false, elem, Outcome, returned, map_outcome, fold_outcome, map,
  count, ◌+◌, ◌*◌, ◌<◌, ◌≡◌, refl, ltb, arith, Pairwise, ◌∙◌, ◌-◌, Bool-cases, inl, inr, ap,
}
use pypto_serving.Cache.Groups.{GroupPool, Groups, block_from_local_id, GroupSpec}
use pypto_serving.Cache.Groups.Blocks.{retain_block, drop_reference}
use pypto_serving.Cache.Groups.Snapshots.{
  has_duplicates, pinned_block, retain_blocks, retain_snapshot, retain_snapshots,
  retain_group_block_snapshot, release_pin, release_snapshots, release_group_block_snapshot,
}

abbrev pub global_id : GroupPool → ℕ → ℕ → ℕ
global_id pool q block_id = q * pool.blocks_per_partition + block_id

-- A table of distinct ids of owned blocks of the partition.
pub record Pinnable (q : ℕ) (pool : GroupPool) (ids : List ℕ) : Type 0 where
  pub fits : ltb q pool.num_partitions ≡ true
  pub distinct : has_duplicates ids ≡ false
  pub inside : (i : ℕ) → elem i ids ≡ true → ltb i pool.blocks_per_partition ≡ true
  pub held : (i : ℕ) → elem i ids ≡ true → 0 < pool.ref_cnt (global_id pool q i)

-- The same references and queues.
pub record SameBlocks (pool pool' : GroupPool) : Type 0 where
  pub spec : pool'.spec ≡ pool.spec
  pub size : pool'.blocks_per_partition ≡ pool.blocks_per_partition
  pub refs : (b : ℕ) → pool'.ref_cnt b ≡ pool.ref_cnt b
  pub queues : pool'.free_queues ≡ pool.free_queues

pinned_blocks :
    (q : ℕ) (pool : GroupPool) (ids : List ℕ)
    → ltb q pool.num_partitions ≡ true
    → ((i : ℕ) → elem i ids ≡ true → ltb i pool.blocks_per_partition ≡ true)
    → ((i : ℕ) → elem i ids ≡ true → 0 < pool.ref_cnt (global_id pool q i))
    → map_outcome (pinned_block pool q) ids ≡ returned (map (global_id pool q) ids)
unfolding pinned_block block_from_local_id
pinned_blocks q pool [] fits inside held = refl
pinned_blocks q pool (i ∷ ids) fits inside held =
    let rest =
      pinned_blocks q pool ids fits (λ j h. inside j (ground arith))
        (λ j h. held j (ground arith)) in
    ground (arith, rest, fits, inside i, held i)

-- The release of `ids`, from a state in which each of their blocks keeps a reference.
record Unpinned (q : ℕ) (pool : GroupPool) (globals : List ℕ) (r : Outcome GroupPool) : Type 0 where
  pool' : GroupPool
  result : r ≡ returned pool'
  spec : pool'.spec ≡ pool.spec
  size : pool'.blocks_per_partition ≡ pool.blocks_per_partition
  refs : (b : ℕ) → pool'.ref_cnt b + count b globals ≡ pool.ref_cnt b
  queues : pool'.free_queues ≡ pool.free_queues

refs-retain_blocks :
    (pool : GroupPool) (blocks : List ℕ) (b : ℕ)
    → (retain_blocks pool blocks).ref_cnt b ≡ pool.ref_cnt b + count b blocks
unfolding retain_blocks
refs-retain_blocks pool [] b = omega arith
refs-retain_blocks pool (c ∷ blocks) b =
    ground (arith, refs-retain_blocks (retain_block pool c) blocks b)

rest-retain_blocks :
    (pool : GroupPool) (blocks : List ℕ)
    → ((retain_blocks pool blocks).spec ≡ pool.spec)
      × ((retain_blocks pool blocks).blocks_per_partition ≡ pool.blocks_per_partition)
      × ((retain_blocks pool blocks).free_queues ≡ pool.free_queues)
unfolding retain_blocks
rest-retain_blocks pool [] = (refl, refl, refl)
rest-retain_blocks pool (c ∷ blocks) = rest-retain_blocks (retain_block pool c) blocks

abbrev less_one : GroupPool → ℕ → GroupPool
less_one pool b = record pool { ref_cnt = update pool.ref_cnt b (pool.ref_cnt b - 1) }

release_pin-shared :
    (q : ℕ) (pool : GroupPool) (i : ℕ)
    → ltb q pool.num_partitions ≡ true
    → ltb i pool.blocks_per_partition ≡ true
    → 1 < pool.ref_cnt (global_id pool q i)
    → release_pin q pool i ≡ returned (less_one pool (global_id pool q i))
unfolding release_pin block_from_local_id drop_reference
release_pin-shared q pool i fits inside many = ground (arith, fits, inside, many)

release_pins-Unpinned :
    (q : ℕ) (pool : GroupPool) (ids : List ℕ)
    → ltb q pool.num_partitions ≡ true
    → ((i : ℕ) → elem i ids ≡ true → ltb i pool.blocks_per_partition ≡ true)
    → ((b : ℕ)
        → 0 < count b (map (global_id pool q) ids)
        → count b (map (global_id pool q) ids) < pool.ref_cnt b)
    → Unpinned q pool (map (global_id pool q) ids) (fold_outcome (release_pin q) pool ids)
release_pins-Unpinned q pool [] fits inside more = record {
  pool' = pool;
  result = refl;
  spec = refl;
  size = refl;
  refs = λ b. omega arith;
  queues = refl;
}
release_pins-Unpinned q pool (i ∷ ids) fits inside more =
    let b = global_id pool q i in
    let step =
      release_pin-shared q pool i fits (inside i (ground arith)) (ground (arith, more b)) in
    let m =
      release_pins-Unpinned q (less_one pool b) ids fits (λ j h. inside j (ground arith))
        (λ c h. ground (arith, more c, h)) in
    record {
      pool' = m.pool';
      result = simp step m.result;
      spec = m.spec;
      size = m.size;
      refs = λ c. ground (arith, m.refs c, more c);
      queues = m.queues;
    }

-- One group: the pins are set and taken back.
record Returned (q : ℕ) (pool : GroupPool) (ids : List ℕ) : Type 0 where
  pinned : GroupPool
  unpinned : GroupPool
  retains : retain_snapshot q pool ids ≡ returned pinned
  releases : fold_outcome (release_pin q) pinned ids ≡ returned unpinned
  same : SameBlocks pool unpinned

count-map_pos :
    (f : ℕ → ℕ) (ids : List ℕ) (b : ℕ)
    → 0 < count b (map f ids)
    → (i : ℕ) × (elem i ids ≡ true) × (f i ≡ b)
count-map_pos f [] b h = absurd (omega arith)
count-map_pos f (i ∷ ids) b h = elim (Bool-cases (f i == b)) [
  | inl here ↦ (i, ground arith, ground (arith, here))
  | inr there ↦
      let (j, k, e) = count-map_pos f ids b (ground (arith, h, there)) in (j, ground (arith, k), e)
]

Pinnable-Returned :
    (q : ℕ) (pool : GroupPool) (ids : List ℕ) → Pinnable q pool ids → Returned q pool ids
unfolding retain_snapshot
Pinnable-Returned q pool ids p =
    let globals = map (global_id pool q) ids in
    let pinned = retain_blocks pool globals in
    let (spec, size, queues) = rest-retain_blocks pool globals in
    let e : map (global_id pinned q) ids ≡ globals =
      ap (λ (n : ℕ). map (λ i. q * n + i) ids) size in
    let more : (b : ℕ) → 0 < count b globals → count b globals < pinned.ref_cnt b = λ b h.
      let (i, inside, at) = count-map_pos (global_id pool q) ids b h in
      omega (arith, refs-retain_blocks pool globals b, rw at at (p.held i inside)) in
    let m : Unpinned q pinned globals (fold_outcome (release_pin q) pinned ids) = rw e at (
      release_pins-Unpinned q pinned ids
        (ap (λ (s : GroupSpec). ltb q s.num_partitions) spec ∙ p.fits)
        (λ i h. ap (λ (n : ℕ). ltb i n) size ∙ p.inside i h) (rw e more)) in
    record {
      pinned = pinned;
      unpinned = m.pool';
      retains = ground (arith, p.distinct, pinned_blocks q pool ids p.fits p.inside p.held);
      releases = m.result;
      same = record {
        spec = m.spec ∙ spec;
        size = m.size ∙ size;
        refs = λ b. omega (arith, m.refs b, refs-retain_blocks pool globals b);
        queues = m.queues ∙ queues;
      };
    }

snapshots-Returned :
    (q : ℕ) (pools : List GroupPool) (tables : List (List ℕ))
    → Pairwise (Pinnable q) pools tables
    → (pinned : List GroupPool) × (unpinned : List GroupPool) × (retain_snapshots q pools tables
        ≡ returned pinned)
      × (release_snapshots q pinned tables ≡ returned unpinned)
      × Pairwise SameBlocks pools unpinned
unfolding retain_snapshots release_snapshots
snapshots-Returned q [] [] h = ([], [], refl, refl, tt)
snapshots-Returned q [] (table ∷ tables) h = absurd h
snapshots-Returned q (pool ∷ pools) [] h = absurd h
snapshots-Returned q (pool ∷ pools) (table ∷ tables) (p, h) =
    let m = Pinnable-Returned q pool table p in
    let (pinned, unpinned, r, s, same) = snapshots-Returned q pools tables h in
    (
      m.pinned ∷ pinned,
      m.unpinned ∷ unpinned,
      simp (m.retains, r) refl,
      simp (m.releases, s) refl,
      (m.same, same),
    )

SameBlocks-self : (pools : List GroupPool) → Pairwise SameBlocks pools pools
SameBlocks-self [] = tt
SameBlocks-self (pool ∷ pools) =
    (record { spec = refl; size = refl; refs = λ b. refl; queues = refl }, SameBlocks-self pools)

-- Pinning the tables of a step and releasing the pins raises no error and leaves the reference
-- counts and the free queues of every group as they were, where each table names distinct blocks
-- of the partition that have an owner.
pub release_snapshots-retain_snapshots :
    (g : Groups) (tables : List (List ℕ)) (q : ℕ)
    → Pairwise (Pinnable q) g.pools tables
    → (pinned : Groups) × (unpinned : Groups) × (retain_group_block_snapshot g tables q
        ≡ returned pinned)
      × (release_group_block_snapshot pinned tables q ≡ returned unpinned)
      × Pairwise SameBlocks g.pools unpinned.pools
unfolding retain_group_block_snapshot release_group_block_snapshot release_snapshots
release_snapshots-retain_snapshots g [] q h = (g, g, refl, refl, SameBlocks-self g.pools)
release_snapshots-retain_snapshots g (table ∷ tables) q h =
    let (pinned, unpinned, r, s, same) = snapshots-Returned q g.pools (table ∷ tables) h in
    (record g { pools = pinned }, record g { pools = unpinned }, simp r refl, simp s refl, same)
