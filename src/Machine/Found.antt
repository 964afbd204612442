-- ===== src/Machine/Found.antt =====
-- What the search loop of `polycall_sm_execute_transition` finds.
use libpolycall_v.Prelude.{
  ℕ, zero, suc, ◌≤◌, ◌<◌, ◌≡◌, refl, inl, inr, true, false, none, some, List, [], ◌∷◌, get_or, take,
  length, arith, Bool-cases, strcmp_eq,
}
use libpolycall_v.Machine.{Transition, zero_transition}
use libpolycall_v.Machine.Execute.{find_transition}

-- Transition `i` is the first of the first `n` that carries the name.
pub record IsFirst (ts : List Transition) (n : ℕ) (name : List ℕ) (t : Transition) (i : ℕ)
    : Type 0 where
  pub below : i < n
  pub here : get_or ts i zero_transition ≡ t
  pub named : strcmp_eq t.name name ≡ true
  pub earlier : (j : ℕ) → j < i → strcmp_eq (get_or ts j zero_transition).name name ≡ false

earlier_suc :
    (t : Transition) (ts : List Transition) (name : List ℕ) (i : ℕ)
    → strcmp_eq t.name name ≡ false
    → ((j : ℕ) → j < i → strcmp_eq (get_or ts j zero_transition).name name ≡ false)
    → (j : ℕ) → j < suc i
    → strcmp_eq (get_or (t ∷ ts) j zero_transition).name name ≡ false
earlier_suc t ts name i e h zero lt = e
earlier_suc t ts name i e h (suc j) lt = h j (omega arith)

pub find_transition-IsFirst :
    (n : ℕ) (ts : List Transition) (name : List ℕ) (t : Transition)
    → find_transition (take n ts) name ≡ some t
    → (i : ℕ) × IsFirst ts n name t i
unfolding find_transition
find_transition-IsFirst zero ts name t e = cc
find_transition-IsFirst (suc n) [] name t e = cc
find_transition-IsFirst (suc n) (x ∷ ts) name t e = elim (Bool-cases (strcmp_eq x.name name)) [
  | inl hit ↦
      let same : x ≡ t = ground arith in
      (
        0,
        record {
          below = omega arith;
          here = same;
          named = ground arith;
          earlier = λ j h. absurd (omega arith);
        },
      )
  | inr miss ↦
      let (i, f) = find_transition-IsFirst n ts name t (ground arith) in
      (
        suc i,
        record {
          below = omega (arith, f.below);
          here = f.here;
          named = f.named;
          earlier = earlier_suc x ts name i miss f.earlier;
        },
      )
]

-- No transition of that name: the search fails.
pub find_transition-none :
    (n : ℕ) (ts : List Transition) (name : List ℕ)
    → ((j : ℕ) → j < n → strcmp_eq (get_or ts j zero_transition).name name ≡ false)
    → n ≤ length ts
    → find_transition (take n ts) name ≡ none
unfolding find_transition
find_transition-none zero ts name h l = refl
find_transition-none (suc n) [] name h l = refl
find_transition-none (suc n) (x ∷ ts) name h l =
    ground
      (arith, h 0 (omega arith), find_transition-none n ts name (λ j lt. h (suc j) (omega arith)))

-- The search finds the first transition that carries the name.
pub find_transition_first :
    (n : ℕ) (ts : List Transition) (name : List ℕ) (t : Transition) (i : ℕ)
    → IsFirst ts n name t i
    → n ≤ length ts
    → find_transition (take n ts) name ≡ some t
unfolding find_transition
find_transition_first zero ts name t i f h = absurd (omega (arith, f.below))
find_transition_first (suc n) [] name t i f h = absurd (omega arith)
find_transition_first (suc n) (x ∷ ts) name t zero f h = ground (arith, f.here, f.named)
find_transition_first (suc n) (x ∷ ts) name t (suc i) f h =
    let rest : IsFirst ts n name t i = record {
      below = omega (arith, f.below);
      here = f.here;
      named = f.named;
      earlier = λ j lt. f.earlier (suc j) (omega arith);
    } in
    ground (arith, f.earlier 0 (omega arith), find_transition_first n ts name t i rest)
