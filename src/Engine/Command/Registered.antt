-- ===== src/Engine/Command/Registered.antt =====
-- Which requests a command introduces to the worker.
use mathlib.Core.List.{append-nil, append_assoc}
use pypto_serving.Prelude.{
  All, last_from, ℕ, ◌<◌, ◌≡◌, refl, ◌∙◌, sym, ap, not, ◌&&◌, ◌||◌, Option, none, some, List, [],
  ◌∷◌, ◌++◌, arith, length, ltb, ◌==◌, elem, elem-append, Distinct, Distinct-append_one, get_last?,
  Bool-cases, Option-cases, inl, inr, Outcome, returned, fold_outcome,
}
use pypto_serving.Sched.Request.{Request, ScheduledRequest}
use pypto_serving.Engine.Command.{
  NewRequestData, Building, register, with_prefill, with_decode, prefill_request, decode_request,
  last_token, add_entry, still_known, build_step_command,
}

abbrev pub new_ids : List NewRequestData → List ℕ
new_ids [] = []
new_ids (x ∷ xs) = x.request_id ∷ new_ids xs

abbrev pub scheduled_ids : List ScheduledRequest → List ℕ
scheduled_ids [] = []
scheduled_ids (x ∷ xs) = x.request_id ∷ scheduled_ids xs

new_ids-append :
    (xs : List NewRequestData) (x : NewRequestData)
    → new_ids (xs ++ x ∷ []) ≡ new_ids xs ++ x.request_id ∷ []
new_ids-append [] x = refl
new_ids-append (y ∷ xs) x = ap (λ (l : List ℕ). y.request_id ∷ l) (new_ids-append xs x)

-- The message carries the prompt of its request.
abbrev pub HasPrompt : (ℕ → Request) → NewRequestData → Type 0
HasPrompt objects x = x.prompt_token_ids ≡ (objects x.request_id).prompt_token_ids

All-append_one :
    {A : Type 0} (P : A → Type 0) (xs : List A) (x : A) → All P xs → P x → All P (xs ++ x ∷ [])
All-append_one P [] x h p = (p, tt)
All-append_one P (y ∷ xs) x h p = (h.0, All-append_one P xs x h.1 p)

-- What the command introduces, once it has the entries of `seen`: the requests that the worker did not
-- know, each of them once and with its prompt.
pub record Introduces (objects : ℕ → Request) (known seen : List ℕ) (b : Building) : Type 0 where
  pub introduced :
      (i : ℕ) → elem i (new_ids b.command.new_requests) ≡ (elem i seen && not (elem i known))
  pub knows : (i : ℕ) → elem i b.known ≡ (elem i known || elem i seen)
  pub once : Distinct (new_ids b.command.new_requests)
  pub prompts : All (HasPrompt objects) b.command.new_requests

register-Introduces :
    (objects : ℕ → Request) (known seen : List ℕ) (b : Building) (i : ℕ)
    → Introduces objects known seen b
    → Introduces objects known (seen ++ i ∷ []) (register objects b i)
unfolding register
register-Introduces objects known seen b i v = elim (Bool-cases (elem i b.known)) [
  | inl there ↦
      rw (there, register)
        (record {
          introduced = λ j. elim (Bool-cases (i == j)) [
            | inl here ↦
                ground (arith, here, there, v.introduced j, v.knows j, elem-append j seen (i ∷ []))
            | inr other ↦ ground (arith, other, v.introduced j, elem-append j seen (i ∷ []))
          ];
          knows = λ j. elim (Bool-cases (i == j)) [
            | inl here ↦ ground (arith, here, there, v.knows j, elem-append j seen (i ∷ []))
            | inr other ↦ ground (arith, other, v.knows j, elem-append j seen (i ∷ []))
          ];
          once = v.once;
          prompts = v.prompts;
        })
  | inr new ↦
      rw (new, register)
        (let fresh : NewRequestData = record {
          request_id = i;
          prompt_token_ids = (objects i).prompt_token_ids;
        } in
          let grown = new_ids-append b.command.new_requests fresh in
          let has = λ (j : ℕ). ap (λ (l : List ℕ). elem j l) grown in
          let ids = new_ids b.command.new_requests in
          (record {
            introduced = λ j. elim (Bool-cases (i == j)) [
              | inl here ↦ ground (
                arith,
                here,
                new,
                has j,
                v.knows j,
                elem-append j ids (i ∷ []),
                elem-append j seen (i ∷ []),
              )
              | inr other ↦ ground (
                arith,
                other,
                has j,
                v.introduced j,
                elem-append j ids (i ∷ []),
                elem-append j seen (i ∷ []),
              )
            ];
            knows = λ j.
                ground
                  (arith, v.knows j, elem-append j b.known (i ∷ []), elem-append j seen (i ∷ []));
            once =
                rw grown (
                  Distinct-append_one ids i v.once
                    (ground (arith, new, v.introduced i, v.knows i)));
            prompts =
                All-append_one (HasPrompt objects) b.command.new_requests fresh v.prompts refl;
          }))
]

last_from-some : (x : ℕ) (xs : List ℕ) → (y : ℕ) × (last_from (some x) xs ≡ some y)
last_from-some x [] = (x, refl)
last_from-some x (y ∷ xs) = last_from-some y xs

get_last?-some : (xs : List ℕ) → 0 < length xs → (y : ℕ) × (get_last? xs ≡ some y)
get_last?-some [] h = absurd (omega (arith, h))
get_last?-some (x ∷ xs) h = last_from-some x xs

last_token-returned :
    (r : Request)
    → 0 < length r.prompt_token_ids
    → (token : Option ℕ) × (last_token r ≡ returned token)
unfolding last_token
last_token-returned r h = elim (Bool-cases (ltb 0 r.num_output_placeholders)) [
  | inl in_flight ↦ (none, rw (in_flight, last_token) refl)
  | inr settled ↦ elim (Option-cases (get_last? r.output_token_ids)) [
    | inr (token, generated) ↦
        (some token, rw (settled, last_token) (rw (generated, last_token) refl))
    | inl nothing ↦ elim (Option-cases (get_last? r.prompt_token_ids)) [
      | inr (token, prompted) ↦ (
        some token,
        rw (settled, last_token) (rw (nothing, last_token) (rw (prompted, last_token) refl)),
      )
      | inl empty ↦
          let (y, some_last) = get_last?-some r.prompt_token_ids h in
          let clash : none ≡ some y = sym empty ∙ some_last in absurd cc
    ]
  ]
]

-- A command with one more entry.
record Entered (objects : ℕ → Request) (known seen : List ℕ) (r : Outcome Building) : Type 0 where
  pub b' : Building
  pub result : r ≡ returned b'
  pub introduces : Introduces objects known seen b'

add_entry-Entered :
    (objects : ℕ → Request) (known seen : List ℕ) (b : Building) (x : ScheduledRequest)
    → 0 < length (objects x.request_id).prompt_token_ids
    → Introduces objects known seen b
    → Entered objects known (seen ++ x.request_id ∷ []) (add_entry objects b x)
unfolding add_entry
add_entry-Entered objects known seen b x h v =
    let i = x.request_id in
    let w = register-Introduces objects known seen b i v in
    elim (Bool-cases x.prefill) [
      | inl prefilling ↦ record {
        b' = with_prefill (register objects b i) (prefill_request (objects i) x);
        result = simp prefilling refl;
        introduces = record {
          introduced = w.introduced;
          knows = w.knows;
          once = w.once;
          prompts = w.prompts;
        };
      }
      | inr decoding ↦
          let t = last_token-returned (objects i) h in
          record {
            b' = with_decode (register objects b i) (decode_request t.0 x);
            result = simp (decoding, t.1) refl;
            introduces = record {
              introduced = w.introduced;
              knows = w.knows;
              once = w.once;
              prompts = w.prompts;
            };
          }
    ]

add_entries-Entered :
    (objects : ℕ → Request) (known seen : List ℕ) (b : Building) (xs : List ScheduledRequest)
    → ((i : ℕ) → 0 < length (objects i).prompt_token_ids)
    → Introduces objects known seen b
    → Entered objects known (seen ++ scheduled_ids xs) (fold_outcome (add_entry objects) b xs)
add_entries-Entered objects known seen b [] h v = record {
  b' = b;
  result = refl;
  introduces = rw (append-nil seen) v;
}
add_entries-Entered objects known seen b (x ∷ xs) h v =
    let e = add_entry-Entered objects known seen b x (h x.request_id) v in
    let later =
      add_entries-Entered objects known (seen ++ x.request_id ∷ []) e.b' xs h e.introduces in
    simp e.result (record {
      b' = later.b';
      result = later.result;
      introduces =
          rw (sym (append_assoc seen (x.request_id ∷ []) (scheduled_ids xs))) later.introduces;
    })

-- For requests with prompts a command is built without an error. It introduces exactly the scheduled
-- requests that the worker does not know, or that were released meanwhile, each of them once and with
-- its own prompt; after that the worker knows all that are scheduled.
pub build_step_command-Introduces :
    (objects : ℕ → Request) (known : List ℕ) (scheduled : List ScheduledRequest)
    (finished_ids : List ℕ) (step_id : ℕ)
    → ((i : ℕ) → 0 < length (objects i).prompt_token_ids)
    → (b : Building) × (build_step_command objects known scheduled finished_ids step_id
        ≡ returned b)
      × Introduces objects (still_known known finished_ids) (scheduled_ids scheduled) b
unfolding build_step_command
build_step_command-Introduces objects known scheduled finished_ids step_id h =
    let e = add_entries-Entered objects (still_known known finished_ids) [] _ scheduled h (record {
      introduced = λ i. ground arith;
      knows = λ i. ground arith;
      once = tt;
      prompts = tt;
    }) in
    (e.b', e.result, e.introduces)
