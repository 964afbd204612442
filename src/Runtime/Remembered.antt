-- ===== src/Runtime/Remembered.antt =====
-- The history holds the last ten commands.
use mathlib.Core.List.{append_assoc, append-nil}
use libpolycall_v.Prelude.{
  refl, false, zero, suc, [], inl, inr, ◌∷◌, List, ℕ, drop, ◌≤◌, length, ◌≡◌, ◌++◌, arith, ◌-◌, ◌∙◌,
  map, length-append, ap, Bool-cases, sym, ltb,
}
use libpolycall_v.Runtime.History.{add_to_history, add_all, last, cut_to_place}
use libpolycall_v.Runtime.{history_size}

module _ {ℓ} {A : Type ℓ} where
  drop-drop : (n : ℕ) (xs : List A) → drop 1 (drop n xs) ≡ drop (suc n) xs
  drop-drop zero xs = refl
  drop-drop (suc n) [] = refl
  drop-drop (suc n) (x ∷ xs) = drop-drop n xs

  drop-append : (n : ℕ) (xs ys : List A) → n ≤ length xs → drop n (xs ++ ys) ≡ drop n xs ++ ys
  drop-append zero xs ys h = refl
  drop-append (suc n) [] ys h = absurd (omega (arith, h))
  drop-append (suc n) (x ∷ xs) ys h = drop-append n xs ys (omega (arith, h))

  length-drop : (n : ℕ) (xs : List A) → length (drop n xs) ≡ length xs - n
  length-drop zero xs = omega arith
  length-drop (suc n) [] = omega arith
  length-drop (suc n) (x ∷ xs) = length-drop n xs ∙ omega arith

add_to_history-last :
    (xs : List (List ℕ)) (command : List ℕ)
    → add_to_history (last history_size xs) command
      ≡ last history_size (xs ++ cut_to_place command ∷ [])
unfolding add_to_history
add_to_history-last xs command =
    let new = cut_to_place command ∷ [] in
    let l = length-drop (length xs - 10) xs in
    let m = length-append xs new in
    elim (Bool-cases (ltb (length xs) 10)) [
      | inl t ↦
          let a : length xs - 10 ≡ 0 = ground (arith, t) in
          let b : length (xs ++ new) - 10 ≡ 0 = ground (arith, t, m) in rw (b, a, t) refl
      | inr f ↦
          let a : ltb (length (last 10 xs)) 10 ≡ false = ground (arith, f, l) in
          let b : length (xs ++ new) - 10 ≡ suc (length xs - 10) = ground (arith, f, m) in
          rw (a, b)
            (ap (λ ys. ys ++ new) (drop-drop (length xs - 10) xs)
              ∙ sym (drop-append (suc (length xs - 10)) xs new (ground (arith, f))))
    ]

add_all-last :
    (xs commands : List (List ℕ))
    → add_all (last history_size xs) commands ≡ last history_size (xs ++ map cut_to_place commands)
unfolding add_all
add_all-last xs [] = ap (last history_size) (sym (append-nil xs))
add_all-last xs (command ∷ commands) =
    ap (λ h. add_all h commands) (add_to_history-last xs command)
    ∙ add_all-last (xs ++ cut_to_place command ∷ []) commands
    ∙ ap (last history_size)
        (append_assoc xs (cut_to_place command ∷ []) (map cut_to_place commands))

-- Of any list of commands, the history holds the last ten, in their order, each cut to 255
-- characters.
pub add_all_lem :
    (commands : List (List ℕ)) → add_all [] commands ≡ last history_size (map cut_to_place commands)
add_all_lem commands = add_all-last [] commands
