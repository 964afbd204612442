-- ===== src/Micro/Filter.antt =====
-- The in-place filter computes the filter of the list it is given.
use libpolycall_v.Prelude.{
  refl, some, zero, suc, [], inl, inr, ◌∷◌, List, ℕ, Bool, if◌then◌else◌, ◌<◌, ◌++◌, length, drop,
  ◌≡◌, ◌≤◌, take, set, get_or, ap, ◌+◌, arith, Bool-cases, ◌==◌, sym, if_rule, not, length-set,
}
use libpolycall_v.Micro.Commands.{filter_loop, copy_down, filter_commands}
use mathlib.Core.List.{append-nil, append_assoc}
use libpolycall_v.Micro.{CommandArray, Command, zero_command}

module _ {ℓ} {A : Type ℓ} where
  -- The elements that pass, in their order.
  unfoldable pub keep : (A → Bool) → List A → List A
  keep p [] = []
  keep p (x ∷ xs) = if p x then x ∷ keep p xs else keep p xs

module _ {ℓ} {A : Type ℓ} where
  pub take-suc :
      (n : ℕ) (xs : List A) (d : A)
      → n < length xs
      → take (suc n) xs ≡ take n xs ++ get_or xs n d ∷ []
  take-suc n [] d h = absurd (omega arith)
  take-suc zero (x ∷ xs) d h = refl
  take-suc (suc n) (x ∷ xs) d h = ap (x ∷◌) (take-suc n xs d (omega arith))

  pub take-set :
      (n : ℕ) (xs : List A) (v : A)
      → n < length xs
      → take (suc n) (set xs n v) ≡ take n xs ++ v ∷ []
  take-set n [] v h = absurd (omega arith)
  take-set zero (x ∷ xs) v h = refl
  take-set (suc n) (x ∷ xs) v h = ap (x ∷◌) (take-set n xs v (omega arith))

  pub drop-set : (r w : ℕ) (xs : List A) (v : A) → w < r → drop r (set xs w v) ≡ drop r xs
  drop-set zero w xs v h = absurd (omega arith)
  drop-set (suc r) w [] v h = refl
  drop-set (suc r) zero (x ∷ xs) v h = refl
  drop-set (suc r) (suc w) (x ∷ xs) v h = drop-set r w xs v (omega arith)

  pub drop_cons :
      (r : ℕ) (xs : List A) (d : A) → r < length xs → drop r xs ≡ get_or xs r d ∷ drop (suc r) xs
  drop_cons r [] d h = absurd (omega arith)
  drop_cons zero (x ∷ xs) d h = refl
  drop_cons (suc r) (x ∷ xs) d h = drop_cons r xs d (omega arith)

module _ {ℓ} {A : Type ℓ} (p : A → Bool) (d : A) where
  record IsCopied (r w : ℕ) (xs ys : List A) : Type ℓ where
    same_length : length ys ≡ length xs
    kept : take (suc w) ys ≡ take w xs ++ get_or xs r d ∷ []
    left : drop (suc r) ys ≡ drop (suc r) xs

  kept_in_place :
      (r w : ℕ) (xs : List A)
      → w ≡ r
      → r < length xs
      → take (suc w) xs ≡ take w xs ++ get_or xs r d ∷ []
  kept_in_place r w xs q k = rw q (take-suc r xs d k)

  copy_down-IsCopied :
      (r w : ℕ) (xs : List A) → w ≤ r → r < length xs → IsCopied r w xs (copy_down d r w xs)
  unfolding copy_down
  copy_down-IsCopied r w xs h k =
      if_rule (IsCopied r w xs) (not (w == r))
        (λ t. record {
          same_length = length-set xs w _;
          kept = take-set w xs _ (omega arith);
          left = drop-set (suc r) w xs _ (omega arith);
        })
        (λ f. record {
          same_length = refl;
          kept = kept_in_place r w xs (ground arith) k;
          left = refl;
        })

  -- The loop, with `w` elements already kept: those, then the filter of what is left to read.
  pub filter_loop_lem :
      (rounds r w : ℕ) (xs : List A)
      → w ≤ r
      → r + rounds ≤ length xs
      → take (filter_loop p d rounds r w xs).1 (filter_loop p d rounds r w xs).0
        ≡ take w xs ++ keep p (take rounds (drop r xs))
  unfolding filter_loop keep
  filter_loop_lem zero r w xs h k = sym (append-nil (take w xs))
  filter_loop_lem (suc rounds) r w xs h k = elim (Bool-cases (p (get_or xs r d))) [
    | inr e ↦ ground (
      arith,
      e,
      drop_cons r xs d (omega arith),
      filter_loop_lem rounds (suc r) w xs (omega arith) (omega arith),
    )
    | inl e ↦
        let copied = copy_down-IsCopied r w xs h (omega arith) in
        let ys = copy_down d r w xs in
        ground (
          arith,
          e,
          drop_cons r xs d (omega arith),
          copied.kept,
          copied.left,
          append_assoc (take w xs) (get_or xs r d ∷ []) (keep p (take rounds (drop (suc r) xs))),
          filter_loop_lem rounds (suc r) (suc w) ys (omega arith)
              (omega (arith, copied.same_length, k)),
        )
  ]

-- When the count is within the array, filtering leaves, up to its new count, exactly the
-- commands up to the old count that satisfy the predicate, in their order.
pub filter_commands_lem :
    (array : CommandArray) (predicate : Command → Bool)
    → array.count ≤ length array.commands
    → take
        (filter_commands array (some predicate)).0.count
        (filter_commands array (some predicate)).0.commands
      ≡ keep predicate (take array.count array.commands)
unfolding filter_commands
filter_commands_lem array predicate h =
    filter_loop_lem predicate zero_command array.count 0 0 array.commands (omega arith)
      (omega arith)
