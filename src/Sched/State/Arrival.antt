-- ===== src/Sched/State/Arrival.antt =====
-- A new scheduler is sound, and adding a request keeps the state sound.
use pypto_serving.Prelude.{
  ◌<◌, ℕ, ◌≡◌, refl, ap, ap₂, true, false, not, ◌&&◌, List, [], ◌∷◌, ◌++◌, arith, ◌==◌, elem,
  Distinct-append_one, Bool-cases, inl, inr, ◌⊎◌, returned, raised, value_error, elem-append, count,
  min, length, ◌-◌, ltb,
}
use pypto_serving.Cache.Pool.Validity.{IsValid}
use pypto_serving.Sched.Phase.{decode}
use pypto_serving.Cache.Manager.{Manager, has_groups}
use pypto_serving.Sched.Config.{SchedulerConfig}
use pypto_serving.Sched.Request.{Request, waiting}
use pypto_serving.Sched.Limits.{single_prefill_rejection}
use pypto_serving.Sched.State.{
  new_scheduler, Scheduler, store, with_status, with_hashes, is_rejected, add_request,
}
use pypto_serving.Sched.State.Sound.{Sound, Queues, Blocks-focus, Blocks-keep, is_queued}

-- The request as it is queued: its generation is capped to the room that is left.
abbrev pub capped : Scheduler → Request → Request
capped s r = record r {
  max_new_tokens = min r.max_new_tokens (s.config.max_seq_len - length r.prompt_token_ids);
}

-- A request that has not run holds no blocks.
pub record Fresh (r : Request) : Type 0 where
  pub cached : r.cached_block_ids ≡ []
  pub owned : r.allocated_block_ids ≡ []
  pub tables : r.allocated_group_block_ids ≡ []

-- A new scheduler over a pool without references.
pub new_scheduler-Sound :
    (c : SchedulerConfig) (m : Manager) (objects : ℕ → Request) (free : List ℕ)
    → m.groups.pools ≡ []
    → IsValid m.pool free
    → ((b : ℕ) → m.pool.ref_cnt b ≡ 0)
    → ((i : ℕ) → Fresh (objects i))
    → ((i : ℕ) → (objects i).request_id ≡ i)
    → (s : Scheduler) × (new_scheduler c m objects ≡ returned s) × Sound s
unfolding new_scheduler
new_scheduler-Sound c m objects free no_groups valid unused fresh ids =
    let listed =
      λ (i b : ℕ). ap₂ (λ (xs ys : List ℕ). count b (xs ++ ys)) (fresh i).cached (fresh i).owned in
    (
      record {
        config = c;
        manager = m;
        objects = objects;
        known = [];
        waiting_ids = [];
        running_ids = [];
        next_phase = decode;
      },
      simp no_groups refl,
      record {
        blocks = record {
          no_groups = no_groups;
          free = free;
          valid = valid;
          refs = λ b k. unused b;
          in_range = λ i b k. absurd (omega (arith, k, listed i b));
          tables = λ i. (fresh i).tables;
          idle = λ i h. ((fresh i).cached, (fresh i).owned);
        };
        queues = record {
          running_distinct = tt;
          waiting_distinct = tt;
          is_running = λ i h. absurd (ground (arith, h));
          is_waiting = λ i h. absurd (ground (arith, h));
          ids = ids;
          known_running = λ i h. absurd (ground (arith, h));
          known_waiting = λ i h. absurd (ground (arith, h));
        };
      },
    )

-- The request joins the waiting queue at its end.
Queues-arrive :
    (objects : ℕ → Request) (known ids ws : List ℕ) (i : ℕ) (r : Request)
    → r.status ≡ waiting
    → r.request_id ≡ i
    → elem i known ≡ false
    → Queues objects known ids ws
    → Queues (store objects i r) (known ++ i ∷ []) ids (ws ++ i ∷ [])
Queues-arrive objects known ids ws i r e same unknown v =
    let other : (j : ℕ) → elem j known ≡ true → (i == j) ≡ false = λ j h.
      elim (Bool-cases (i == j)) [
        | inl here ↦ absurd (ground (arith, here, h, unknown))
        | inr there ↦ there
      ] in
    record {
      running_distinct = v.running_distinct;
      waiting_distinct =
          Distinct-append_one ws i v.waiting_distinct (elim (Bool-cases (elem i ws)) [
            | inl there ↦ absurd (ground (arith, unknown, v.known_waiting i there))
            | inr out ↦ out
          ]);
      is_running = λ j h. simp (other j (v.known_running j h)) (v.is_running j h);
      is_waiting = λ j h. elim (Bool-cases (i == j)) [
        | inl here ↦ simp here (ap is_queued e)
        | inr there ↦
            simp there (v.is_waiting j (ground (arith, h, there, elem-append j ws (i ∷ []))))
      ];
      ids = λ j. elim (Bool-cases (i == j)) [
        | inl here ↦ simp here (ground (arith, here, same))
        | inr there ↦ simp there (v.ids j)
      ];
      known_running = λ j h. ground (arith, v.known_running j h, elem-append j known (i ∷ []));
      known_waiting = λ j h. elim (Bool-cases (i == j)) [
        | inl here ↦ ground (arith, here, elem-append j known (i ∷ []))
        | inr there ↦ ground (
          arith,
          elem-append j known (i ∷ []),
          v.known_waiting j (ground (arith, h, there, elem-append j ws (i ∷ []))),
        )
      ];
    }

-- The prompt leaves room for a token, and some step can prefill it, as far as it is known.
abbrev pub IsAcceptable : Scheduler → Request → Type 0
IsAcceptable s r =
    (length r.prompt_token_ids < s.config.max_seq_len)
    × (s.config.enable_prefix_cache ≡ false
        → is_rejected (single_prefill_rejection s.config (capped s r)) ≡ false)

module _ (hash : ℕ → List ℕ → ℕ) (none_hash : ℕ) where
  -- The hashes are all that a new request gains.
  record Hashed (r r' : Request) : Type 0 where
    fresh : Fresh r'
    id : r'.request_id ≡ r.request_id
    prompt : r'.prompt_token_ids ≡ r.prompt_token_ids
    limit : r'.max_new_tokens ≡ r.max_new_tokens

  with_hashes-Hashed :
      (c : SchedulerConfig) (m : Manager) (r : Request)
      → Fresh r
      → Hashed r (with_hashes hash none_hash c m r)
  unfolding with_hashes
  with_hashes-Hashed c m r f = elim (Bool-cases c.enable_prefix_cache) [
    | inr off ↦ simp off (record { fresh = f; id = refl; prompt = refl; limit = refl })
    | inl on ↦ elim (Bool-cases (has_groups m)) [
      | inl grouped ↦
          simp (on, grouped)
            (record {
              fresh = record { cached = f.cached; owned = f.owned; tables = f.tables };
              id = refl;
              prompt = refl;
              limit = refl;
            })
      | inr generic ↦
          simp (on, generic)
            (record {
              fresh = record { cached = f.cached; owned = f.owned; tables = f.tables };
              id = refl;
              prompt = refl;
              limit = refl;
            })
    ]
  ]

  -- What adding a request comes to.
  pub record Arrives (s : Scheduler) (r : Request) : Type 0 where
    pub s' : Scheduler
    pub result : add_request hash none_hash s r ≡ returned s'
    pub sound : Sound s'
    pub last : s'.waiting_ids ≡ s.waiting_ids ++ r.request_id ∷ []
    pub running_same : s'.running_ids ≡ s.running_ids
    pub prompt : (s'.objects r.request_id).prompt_token_ids ≡ r.prompt_token_ids
    pub limit :
        (s'.objects r.request_id).max_new_tokens
        ≡ min r.max_new_tokens (s.config.max_seq_len - length r.prompt_token_ids)

  pub arrived-Sound :
      (s : Scheduler) (i : ℕ) (r : Request)
      → Fresh r
      → r.request_id ≡ i
      → Sound s
      → elem i s.known ≡ false
      → Sound (record s {
        objects = store s.objects i (with_status r waiting);
        waiting_ids = s.waiting_ids ++ i ∷ [];
        known = s.known ++ i ∷ [];
      })
  arrived-Sound s i r f same v unknown =
      let out : elem i s.running_ids ≡ false = elim (Bool-cases (elem i s.running_ids)) [
        | inl there ↦ absurd (ground (arith, unknown, v.queues.known_running i there))
        | inr out ↦ out
      ] in
      let a = Blocks-focus s.manager s.objects s.running_ids i v.queues.running_distinct v.blocks in
      let (was_cached, was_owned) = v.blocks.idle i out in
      let before = λ (b : ℕ). ap₂ (λ (xs ys : List ℕ). count b (xs ++ ys)) was_cached was_owned in
      let after = λ (b : ℕ). ap₂ (λ (xs ys : List ℕ). count b (xs ++ ys)) f.cached f.owned in
      record {
        blocks =
            Blocks-keep s.manager s.objects s.running_ids i
              (record { manager = s.manager; request = with_status r waiting })
              v.queues.running_distinct v.blocks
              (record {
                no_groups = a.no_groups;
                free = a.free;
                valid = a.valid;
                refs = λ b k. omega (arith, a.refs b k, before b, after b);
                in_range = λ b k. absurd (omega (arith, k, after b));
                tables = f.tables;
              })
              refl (λ _. (f.cached, f.owned));
        queues =
            Queues-arrive s.objects s.known s.running_ids s.waiting_ids i (with_status r waiting)
              refl same unknown v.queues;
      }

  -- In a model without cache groups, a new request whose prompt leaves room for a token, and, without
  -- the prefix cache, is not too long for a step that must prefill it whole, joins the waiting queue at
  -- its end with its generation capped to the room, and the state stays sound. Any other new request is
  -- refused with a `ValueError`.
  pub add_request-Sound :
      (s : Scheduler) (r : Request)
      → Sound s
      → Fresh r
      → elem r.request_id s.known ≡ false
      → (IsAcceptable s r × Arrives s r)
        ⊎ ((¬ (IsAcceptable s r)) × (add_request hash none_hash s r ≡ raised value_error))
  unfolding add_request
  add_request-Sound s r v f unknown =
      let prompt_len = length r.prompt_token_ids in
      let c = s.config in
      elim (Bool-cases (ltb c.max_seq_len prompt_len)) [
        | inl long ↦ inr (λ ok. absurd (ground (arith, long, ok.0)), simp long refl)
        | inr fits ↦ elim (Bool-cases (c.max_seq_len - prompt_len == 0)) [
          | inl no_room ↦
              inr (λ ok. absurd (ground (arith, no_room, ok.0)), simp (fits, no_room) refl)
          | inr room ↦
              elim (Bool-cases (
                not c.enable_prefix_cache
                && is_rejected (single_prefill_rejection c (capped s r)))) [
                  | inl refused ↦
                      let off : c.enable_prefix_cache ≡ false = ground (arith, refused) in
                      let rejected : is_rejected (single_prefill_rejection c (capped s r)) ≡ true =
                        ground (arith, refused) in
                      inr (
                        λ ok. absurd (ground (arith, rejected, ok.1 off)),
                        simp (fits, room, refused) refl,
                      )
                  | inr accepted ↦
                      let q = with_hashes hash none_hash c s.manager (capped s r) in
                      let h =
                        with_hashes-Hashed c s.manager (capped s r)
                          (record { cached = f.cached; owned = f.owned; tables = f.tables }) in
                      let here : (r.request_id == r.request_id) ≡ true = ground arith in
                      inl (
                        (ground (arith, fits, room), λ off. ground (arith, off, accepted)),
                        record {
                          s' = record s {
                            objects = store s.objects r.request_id (with_status q waiting);
                            waiting_ids = s.waiting_ids ++ r.request_id ∷ [];
                            known = s.known ++ r.request_id ∷ [];
                          };
                          result = simp (fits, room, accepted, unknown) refl;
                          sound = arrived-Sound s r.request_id q h.fresh h.id v unknown;
                          last = refl;
                          running_same = refl;
                          prompt = simp here h.prompt;
                          limit = simp here h.limit;
                        },
                      )
                ]
        ]
      ]
