-- ===== src/Micro/Collected.antt =====
-- Which services a collection keeps, where no two active services share their identifier.
use libpolycall_v.Prelude.{
  refl, true, false, zero, suc, inl, inr, ℕ, Bool, ◌&&◌, ◌≡◌, not, ◌<◌, ◌≢◌, if_rule, ltb, arith,
  ◌∙◌, ap, get_or-set, sym, Bool-cases, ◌≤◌, ◌+◌, ◌⊎◌, leb, ◌-◌, ◌||◌, ◌%◌,
}
use libpolycall_v.Micro.{ServiceArray, max_services}
use libpolycall_v.Micro.Services.{
  destroy_at, collect_slot, destroy_service, timeout, age, collect_from, collect_garbage,
}
use libpolycall_v.Micro.Valid.{IsValid, service_at, destroy_at-IsValid}
use libpolycall_v.Micro.Unique.{
  active_at, IsUnique, get_or_inside, find_service_unique, destroy_at-IsKept, destroy_at-IsUnique,
}

-- The code's test on the age.
abbrev is_kept : ℕ → ServiceArray → ℕ → Bool
is_kept now ctx i = active_at ctx i && not (ltb timeout (age now (service_at ctx i)))

-- The last use lies at most an hour back. A last use that is later than the time of the collection
-- counts as one by 2 ^ 64 seconds earlier.
abbrev pub is_recent : ℕ → ℕ → Bool
is_recent now last_use =
    leb last_use now && leb now (last_use + 3600)
    || ltb now last_use && leb (now + 18446744073709551616) (last_use + 3600)

-- One round of the collection.
record IsCollected (now i : ℕ) (ctx out : ServiceArray) : Type 0 where
  valid : IsValid out
  unique : IsUnique out
  here : active_at out i ≡ is_kept now ctx i
  others : (j : ℕ) → j ≢ i → active_at out j ≡ active_at ctx j
  same : (j : ℕ) → active_at out j ≡ true → service_at out j ≡ service_at ctx j

collect_slot-IsCollected :
    {ctx : ServiceArray} (now i : ℕ)
    → IsValid ctx
    → IsUnique ctx
    → IsCollected now i ctx (collect_slot now i ctx)
unfolding collect_slot destroy_service destroy_at
collect_slot-IsCollected {ctx} now i v u =
    if_rule (IsCollected now i ctx) (active_at ctx i && ltb timeout (age now (service_at ctx i)))
      (λ t. rw (find_service_unique i v u (ground (arith, t))) (record {
        valid = destroy_at-IsValid i (ground (arith, t)) v;
        unique = destroy_at-IsUnique ctx i u;
        here =
            ground (
              arith,
              t,
              get_or-set ctx.active_mask i i false false,
              get_or_inside ctx.active_mask i,
            );
        others = λ j n. ground (arith, n, get_or-set ctx.active_mask i j false false);
        same = λ j a. (destroy_at-IsKept ctx i j a).same;
      }))
      (λ f. record {
        valid = v;
        unique = u;
        here = ground (arith, f);
        others = λ j n. refl;
        same = λ j a. refl;
      })

-- The service of a slot that another slot's round does not touch survives as before.
is_kept-same :
    {now i j : ℕ} {ctx out : ServiceArray}
    → IsCollected now i ctx out
    → j ≢ i
    → is_kept now out j ≡ is_kept now ctx j
is_kept-same {now} {i} {j} {ctx} {out} c n = elim (Bool-cases (active_at out j)) [
  | inl e ↦ rw (c.same j e, c.others j n) refl
  | inr e ↦ rw (e, (sym (c.others j n) ∙ e)) refl
]

-- The collection from slot `i` on, over `rounds` slots.
record IsSwept (now i rounds : ℕ) (ctx out : ServiceArray) : Type 0 where
  swept : (j : ℕ) → i ≤ j → j < i + rounds → active_at out j ≡ is_kept now ctx j
  outside : (j : ℕ) → (j < i) ⊎ (i + rounds ≤ j) → active_at out j ≡ active_at ctx j
  same : (j : ℕ) → active_at out j ≡ true → service_at out j ≡ service_at ctx j

pub cases_at : (i j : ℕ) → (j ≡ i) ⊎ (j ≢ i)
cases_at i j = ground arith

cases_in : (i rounds j : ℕ) → ((j < i) ⊎ (i + rounds ≤ j)) ⊎ ((i ≤ j) × (j < i + rounds))
cases_in i rounds j = ground arith

was_active :
    {now i rounds : ℕ} {ctx out : ServiceArray}
    → IsSwept now i rounds ctx out
    → (j : ℕ) → active_at out j ≡ true
    → active_at ctx j ≡ true
was_active {now} {i} {rounds} r j a = elim (cases_in i rounds j) [
  | inl h ↦ sym (r.outside j h) ∙ a
  | inr h ↦ ground (arith, r.swept j h.0 h.1, a)
]

collect_from-IsSwept :
    {ctx : ServiceArray} (now rounds i : ℕ)
    → IsValid ctx
    → IsUnique ctx
    → IsSwept now i rounds ctx (collect_from now rounds i ctx)
unfolding collect_from
collect_from-IsSwept {ctx} now zero i v u = record {
  swept = λ j h k. absurd (omega (arith, h, k));
  outside = λ j h. refl;
  same = λ j a. refl;
}
collect_from-IsSwept {ctx} now (suc rounds) i v u =
    let c = collect_slot-IsCollected {ctx = ctx} now i v u in
    let r =
      collect_from-IsSwept {ctx = collect_slot now i ctx} now rounds (i + 1) c.valid c.unique in
    record {
      swept = λ j h k. elim (cases_at i j) [
        | inl q ↦
            r.outside j (inl (omega (arith, q)))
            ∙ ap (active_at (collect_slot now i ctx)) q
            ∙ c.here
            ∙ sym (ap (is_kept now ctx) q)
        | inr n ↦ r.swept j (omega (arith, n, h)) (omega (arith, k)) ∙ is_kept-same c n
      ];
      outside = λ j h. elim h [
        | inl l ↦ r.outside j (inl (omega (arith, l))) ∙ c.others j (omega (arith, l))
        | inr l ↦ r.outside j (inr (omega (arith, l))) ∙ c.others j (omega (arith, l))
      ];
      same = λ j a. r.same j a ∙ c.same j (was_active r j a);
    }

recent_lem :
    (now last_use : ℕ)
    → now < 18446744073709551616
    → last_use < 18446744073709551616
    → not (ltb timeout ((now + 18446744073709551616 - last_use) % 18446744073709551616))
      ≡ is_recent now last_use
recent_lem now last_use n l = ground (arith, n, l)

is_kept-recent :
    (ctx : ServiceArray) (now j : ℕ)
    → now < 18446744073709551616
    → (service_at ctx j).last_update < 18446744073709551616
    → is_kept now ctx j ≡ (active_at ctx j && is_recent now (service_at ctx j).last_update)
is_kept-recent ctx now j n l =
    ap (active_at ctx j &&◌) (recent_lem now (service_at ctx j).last_update n l)

-- On a valid array where no two active services share their identifier, with times of 64 bits,
-- a collection keeps active exactly the services last used at most 3600 seconds before it,
-- each as it was; a last use that is later than the clock counts as 2^64 seconds longer ago
-- than it is.
pub collect_garbage_lem :
    {ctx : ServiceArray} (now j : ℕ)
    → IsValid ctx
    → IsUnique ctx
    → j < max_services
    → now < 18446744073709551616
    → (service_at ctx j).last_update < 18446744073709551616
    → let survives = active_at ctx j && is_recent now (service_at ctx j).last_update in
      (active_at (collect_garbage ctx now).0 j ≡ survives)
      × (survives ≡ true → service_at (collect_garbage ctx now).0 j ≡ service_at ctx j)
unfolding collect_garbage
collect_garbage_lem {ctx} now j v u h n l =
    let r = collect_from-IsSwept {ctx = ctx} now max_services 0 v u in
    let swept = r.swept j (omega arith) (omega (arith, h)) ∙ is_kept-recent ctx now j n l in
    (swept, λ s. r.same j (swept ∙ s))
