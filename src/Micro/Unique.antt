-- ===== src/Micro/Unique.antt =====
-- Service arrays where no two active services share their identifier.
use libpolycall_v.Prelude.{
  refl, some, true, false, zero, suc, [], inl, inr, ◌∷◌, List, ℕ, Bool, get_or, ◌≡◌, ◌<◌, length,
  arith, Option-cases, ◌∙◌, ap, get_or-set, sym,
}
use libpolycall_v.Micro.{ServiceArray, ServiceState, reset_service_state}
use libpolycall_v.Micro.Services.{destroy_at, find_service}
use libpolycall_v.Micro.Mask.{IsFirstAt, IsAt, find_service_lem}
use libpolycall_v.Micro.Valid.{IsValid, service_at}

abbrev pub active_at : ServiceArray → ℕ → Bool
active_at ctx i = get_or ctx.active_mask i false

pub record IsUnique (ctx : ServiceArray) : Type 0 where
  pub only :
      (i j : ℕ)
      → active_at ctx i ≡ true
      → active_at ctx j ≡ true
      → (service_at ctx i).id ≡ (service_at ctx j).id
      → i ≡ j

pub get_or_inside : (xs : List Bool) (i : ℕ) → get_or xs i false ≡ true → i < length xs
get_or_inside [] i h = ground (arith, h)
get_or_inside (x ∷ xs) zero h = omega arith
get_or_inside (x ∷ xs) (suc i) h = omega (arith, get_or_inside xs i h)

-- The search ends at the only slot that holds the service.
pub found_unique :
    (ctx : ServiceArray) (service_id i : ℕ)
    → IsFirstAt ctx.active_mask ctx.services service_id
        (find_service ctx.active_mask ctx.services service_id)
    → IsAt ctx.active_mask ctx.services service_id i
    → ((j : ℕ) → IsAt ctx.active_mask ctx.services service_id j → j ≡ i)
    → find_service ctx.active_mask ctx.services service_id ≡ some i
found_unique ctx service_id i f h u =
    elim (Option-cases (find_service ctx.active_mask ctx.services service_id)) [
      | inl e ↦ absurd ((rw e at f) i h)
      | inr (j, e) ↦ e ∙ ap some (u j (rw e at f).0)
    ]

pub find_service_unique :
    {ctx : ServiceArray} (i : ℕ)
    → IsValid ctx
    → IsUnique ctx
    → active_at ctx i ≡ true
    → find_service ctx.active_mask ctx.services (service_at ctx i).id ≡ some i
find_service_unique {ctx} i v u a =
    found_unique ctx (service_at ctx i).id i
      (find_service_lem ctx.active_mask ctx.services (service_at ctx i).id)
      (record {
        active = a;
        matches = refl;
        below = omega (arith, get_or_inside ctx.active_mask i a, v.mask_size, v.services_size);
      })
      (λ j h. u.only j i h.active a h.matches)

-- A slot that is active after the destruction was so before, and keeps its service.
pub record IsKept (i j : ℕ) (ctx out : ServiceArray) : Type 0 where
  pub active : active_at ctx j ≡ true
  pub same : service_at out j ≡ service_at ctx j

pub destroy_at-IsKept :
    (ctx : ServiceArray) (i j : ℕ)
    → active_at (destroy_at ctx (some i)).0 j ≡ true
    → IsKept i j ctx (destroy_at ctx (some i)).0
unfolding destroy_at
destroy_at-IsKept ctx i j a = record {
  active =
      ground
        (arith, a, get_or-set ctx.active_mask i j false false, get_or_inside ctx.active_mask j);
  same = ground (
    arith,
    a,
    get_or-set ctx.active_mask i j false false,
    get_or_inside ctx.active_mask j,
    get_or-set ctx.services i j reset_service_state reset_service_state,
  );
}

pub destroy_at-IsUnique :
    (ctx : ServiceArray) (i : ℕ) → IsUnique ctx → IsUnique (destroy_at ctx (some i)).0
unfolding destroy_at
destroy_at-IsUnique ctx i u = record {
  only = λ j k a b e.
      let first = destroy_at-IsKept ctx i j a in
      let second = destroy_at-IsKept ctx i k b in
      u.only j k first.active second.active (
        sym (ap (λ (s : ServiceState). s.id) first.same)
        ∙ e
        ∙ ap (λ (s : ServiceState). s.id) second.same);
}
