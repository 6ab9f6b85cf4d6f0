-- ===== src/Config/Parallel/Replicas.antt =====
-- The device groups of the replicas of a valid configuration.
use pypto_serving.Prelude.{
  ℕ, zero, suc, ◌+◌, ◌*◌, ◌-◌, ◌<◌, ◌≤◌, ◌≡◌, refl, ◌∙◌, sym, ap, Bool, true, false, not, ◌&&◌,
  ◌||◌, List, [], ◌∷◌, ◌++◌, ltb, ◌==◌, elem-append, take, drop, length, length-take, length-drop,
  take-nil, take-append-drop, take-add, arith, Bool-cases, inl, inr, Outcome, returned, raise_if,
  value_error,
}
use pypto_serving.Config.Parallel.{
  ParallelConfig, is_overlapped, is_replica, is_supported_policy, num_replicas, worker_group_size,
  has_duplicates, is_misplaced, post_init, device_group, groups_from, replica_device_groups,
  for_replica,
}

-- What the checks leave.
pub record IsValid (c : ParallelConfig) : Type 0 where
  pub dp : (ltb c.data_parallel_size 1) ≡ false
  pub tp : (ltb c.tensor_parallel_size 1) ≡ false
  pub ep : (ltb c.expert_parallel_size 1) ≡ false
  pub pipeline : not (c.pipeline_parallel_size == 1) ≡ false
  pub mode : not (is_replica c.placement_mode || is_overlapped c.placement_mode) ≡ false
  pub dense :
      (is_replica c.placement_mode
        && (c.enable_expert_parallel || not (c.expert_parallel_size == 1)))
      ≡ false
  pub placed : (is_overlapped c.placement_mode && is_misplaced c) ≡ false
  pub policy : not (is_supported_policy c.data_parallel_routing) ≡ false
  pub some_device : (length c.devices == 0) ≡ false
  pub distinct : has_duplicates c.devices ≡ false
  pub count : not (length c.devices == num_replicas c * worker_group_size c) ≡ false

post_init-returned : (c : ParallelConfig) → IsValid c → post_init c ≡ returned c
unfolding post_init
post_init-returned c v =
    simp
      (
        v.dp, v.tp, v.ep, v.pipeline, v.mode, v.dense, v.placed, v.policy, v.some_device,
        v.distinct, v.count,
      )
      refl

raise_if-returned {ℓ} :
    {A : Type ℓ} (b : Bool) (r : Outcome A) (x : A)
    → raise_if b value_error r ≡ returned x
    → (b ≡ false) × (r ≡ returned x)
raise_if-returned true r x e = absurd cc
raise_if-returned false r x e = (refl, e)

post_init-IsValid : (c c' : ParallelConfig) → post_init c ≡ returned c' → IsValid c
unfolding post_init
post_init-IsValid c c' e =
    let (dp, e1) = raise_if-returned _ _ c' e in
    let (tp, e2) = raise_if-returned _ _ c' e1 in
    let (ep, e3) = raise_if-returned _ _ c' e2 in
    let (pipeline, e4) = raise_if-returned _ _ c' e3 in
    let (mode, e5) = raise_if-returned _ _ c' e4 in
    let (dense, e6) = raise_if-returned _ _ c' e5 in
    let (placed, e7) = raise_if-returned _ _ c' e6 in
    let (policy, e8) = raise_if-returned _ _ c' e7 in
    let (some_device, e9) = raise_if-returned _ _ c' e8 in
    let (distinct, e10) = raise_if-returned _ _ c' e9 in
    let (count, e11) = raise_if-returned _ _ c' e10 in
    record {
      dp = dp;
      tp = tp;
      ep = ep;
      pipeline = pipeline;
      mode = mode;
      dense = dense;
      placed = placed;
      policy = policy;
      some_device = some_device;
      distinct = distinct;
      count = count;
    }

-- The lists, one after the other.
abbrev pub concat : List (List ℕ) → List ℕ
concat [] = []
concat (xs ∷ xss) = xs ++ concat xss

drop-nil : (n : ℕ) → drop {A = ℕ} n [] ≡ []
drop-nil zero = refl
drop-nil (suc n) = refl

drop-drop : (a b : ℕ) (xs : List ℕ) → drop a (drop b xs) ≡ drop (b + a) xs
drop-drop a zero xs = let e : 0 + a ≡ a = omega arith in ap (λ (n : ℕ). drop n xs) (sym e)
drop-drop a (suc b) [] = drop-nil a ∙ sym (drop-nil (suc b + a))
drop-drop a (suc b) (x ∷ xs) =
    let e : suc b + a ≡ suc (b + a) = omega arith in
    drop-drop a b xs ∙ ap (λ (n : ℕ). drop n (x ∷ xs)) (sym e)

take-all : (n : ℕ) (xs : List ℕ) → length xs ≡ n → take n xs ≡ xs
take-all n [] e = take-nil n
take-all zero (x ∷ xs) e = absurd (omega (arith, e))
take-all (suc n) (x ∷ xs) e = ap (λ (l : List ℕ). x ∷ l) (take-all n xs (omega (arith, e)))

groups_from-concat :
    (c : ParallelConfig) (rank n : ℕ)
    → concat (groups_from c rank n)
      ≡ take (n * worker_group_size c) (drop (rank * worker_group_size c) c.devices)
unfolding groups_from device_group
groups_from-concat c rank zero =
    let e : 0 * worker_group_size c ≡ 0 = omega arith in
    ap (λ (n : ℕ). take n (drop (rank * worker_group_size c) c.devices)) (sym e)
groups_from-concat c rank (suc n) =
    let w = worker_group_size c in
    let ds = c.devices in
    let later = groups_from-concat c (rank + 1) n in
    let next : rank * w + w ≡ (rank + 1) * w = ground arith in
    let all : suc n * w ≡ w + n * w = ground arith in
    let rest = drop-drop w (rank * w) ds ∙ ap (λ (k : ℕ). drop k ds) next in
    ap (λ (l : List ℕ). device_group c rank ++ l)
      (later ∙ ap (λ (l : List ℕ). take (n * w) l) (sym rest))
    ∙ sym (take-add w (n * w) (drop (rank * w) ds))
    ∙ ap (λ (k : ℕ). take k (drop (rank * w) ds)) (sym all)

has_duplicates-append :
    (xs ys : List ℕ)
    → has_duplicates (xs ++ ys) ≡ false
    → (has_duplicates xs ≡ false) × (has_duplicates ys ≡ false)
unfolding has_duplicates
has_duplicates-append [] ys h = (refl, h)
has_duplicates-append (x ∷ xs) ys h =
    let (left, right) = has_duplicates-append xs ys (ground (arith, h)) in
    (ground (arith, h, left, elem-append x xs ys), right)

-- The device groups of a valid configuration, one after the other, are its devices.
pub replica_device_groups-concat :
    (c : ParallelConfig) → post_init c ≡ returned c → concat (replica_device_groups c) ≡ c.devices
unfolding replica_device_groups
replica_device_groups-concat c e =
    let v = post_init-IsValid c c e in
    let size : length c.devices ≡ num_replicas c * worker_group_size c = ground (arith, v.count) in
    let none_before : 0 * worker_group_size c ≡ 0 = omega arith in
    groups_from-concat c 0 (num_replicas c)
    ∙ ap (λ (k : ℕ). take (num_replicas c * worker_group_size c) (drop k c.devices)) none_before
    ∙ take-all (num_replicas c * worker_group_size c) c.devices size

has_duplicates-device_group :
    (c : ParallelConfig) (i : ℕ)
    → has_duplicates c.devices ≡ false
    → has_duplicates (device_group c i) ≡ false
unfolding device_group
has_duplicates-device_group c i h =
    let w = worker_group_size c in
    let ds = c.devices in
    let after =
      (has_duplicates-append (take (i * w) ds) (drop (i * w) ds)
        (ap has_duplicates (take-append-drop (i * w) ds) ∙ h)).1 in
    (has_duplicates-append (take w (drop (i * w) ds)) (drop w (drop (i * w) ds))
      (ap has_duplicates (take-append-drop w (drop (i * w) ds)) ∙ after)).0

length-device_group :
    (c : ParallelConfig) (i : ℕ)
    → length c.devices ≡ num_replicas c * worker_group_size c
    → i < num_replicas c
    → length (device_group c i) ≡ worker_group_size c
unfolding device_group
length-device_group c i size h =
    let w = worker_group_size c in
    let k = num_replicas c - (i + 1) in
    let split : num_replicas c ≡ (i + 1) + k = omega (arith, h) in
    let product = ap (λ (n : ℕ). n * w) split in
    let spread : ((i + 1) + k) * w ≡ i * w + w + k * w = ground arith in
    let room : i * w + w ≤ num_replicas c * w = omega (arith, product, spread) in
    omega (arith, room, size, length-take w (drop (i * w) c.devices), length-drop (i * w) c.devices)

one_group : (c : ParallelConfig) → is_overlapped c.placement_mode ≡ true → num_replicas c ≡ 1
unfolding num_replicas
one_group c shared = simp shared refl

-- With overlapped axes the one group has all devices.
first_group :
    (c : ParallelConfig) (i : ℕ)
    → is_overlapped c.placement_mode ≡ true
    → length c.devices ≡ num_replicas c * worker_group_size c
    → i < num_replicas c
    → device_group c i ≡ c.devices
unfolding device_group
first_group c i shared size h =
    let one = one_group c shared in
    let w = worker_group_size c in
    let first : i * w ≡ 0 =
      let zero_rank : i ≡ 0 = omega (arith, h, one) in
      ap (λ (k : ℕ). k * w) zero_rank ∙ (omega arith) in
    let product = ap (λ (n : ℕ). n * w) one in
    ap (λ (k : ℕ). take w (drop k c.devices)) first
    ∙ take-all w c.devices (omega (arith, size, product))

-- The topology that one worker sees.
pub record Seen (c : ParallelConfig) (group : List ℕ) : Type 0 where
  pub c' : ParallelConfig
  pub result : for_replica c group ≡ returned c'
  pub owns : c'.devices ≡ group
  pub alone : num_replicas c' ≡ 1
  pub size : length group ≡ worker_group_size c
  pub same_size : worker_group_size c' ≡ worker_group_size c

replica_mode :
    (c : ParallelConfig) (group : List ℕ)
    → IsValid c
    → is_overlapped c.placement_mode ≡ false
    → has_duplicates group ≡ false
    → length group ≡ worker_group_size c
    → Seen c group
unfolding for_replica num_replicas worker_group_size
replica_mode c group v mode distinct size =
    let c' = record c {
      data_parallel_size = 1;
      tensor_parallel_size = length group;
      expert_parallel_size = 1;
      devices = group;
    } in
    let own : worker_group_size c ≡ c.tensor_parallel_size = simp mode refl in
    let some_left : (length group == 0) ≡ false = ground (arith, v.tp, size, own) in
    let one : num_replicas c' ≡ 1 = simp mode refl in
    let width : worker_group_size c' ≡ length group = simp mode refl in
    let valid : IsValid c' = record {
      dp = refl;
      tp = ground (arith, some_left);
      ep = refl;
      pipeline = v.pipeline;
      mode = v.mode;
      dense = ground (arith, v.dense);
      placed = simp mode refl;
      policy = v.policy;
      some_device = some_left;
      distinct = distinct;
      count = ground (arith, one, width);
    } in
    record {
      c' = c';
      result = simp mode (post_init-returned c' valid);
      owns = refl;
      alone = one;
      size = size;
      same_size = width ∙ size;
    }

overlapped_mode :
    (c : ParallelConfig) (group : List ℕ)
    → IsValid c
    → is_overlapped c.placement_mode ≡ true
    → group ≡ c.devices
    → length group ≡ worker_group_size c
    → Seen c group
unfolding for_replica num_replicas worker_group_size is_misplaced
overlapped_mode c group v mode all size =
    let c' = record c { devices = group } in
    let valid : IsValid c' = record {
      dp = v.dp;
      tp = v.tp;
      ep = v.ep;
      pipeline = v.pipeline;
      mode = v.mode;
      dense = v.dense;
      placed = v.placed;
      policy = v.policy;
      some_device = ap (λ (l : List ℕ). length l == 0) all ∙ v.some_device;
      distinct = ap has_duplicates all ∙ v.distinct;
      count =
          ap (λ (l : List ℕ). not (length l == num_replicas c * worker_group_size c)) all ∙ v.count;
    } in
    record {
      c' = c';
      result = simp mode (post_init-returned c' valid);
      owns = refl;
      alone = simp mode refl;
      size = size;
      same_size = refl;
    }

-- Each device group of a valid configuration makes a valid configuration of one replica, with the same
-- number of devices for its worker.
pub for_replica-Seen :
    (c : ParallelConfig) (i : ℕ)
    → post_init c ≡ returned c
    → i < num_replicas c
    → Seen c (device_group c i)
for_replica-Seen c i e h =
    let v = post_init-IsValid c c e in
    let size : length c.devices ≡ num_replicas c * worker_group_size c = ground (arith, v.count) in
    let width = length-device_group c i size h in
    elim (Bool-cases (is_overlapped c.placement_mode)) [
      | inr replicas ↦
          replica_mode c (device_group c i) v replicas (has_duplicates-device_group c i v.distinct)
            width
      | inl shared ↦
          overlapped_mode c (device_group c i) v shared (first_group c i shared size h) width
    ]
