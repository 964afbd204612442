-- ===== src/Runtime/History.antt =====
-- The history of commands: the last ten, each cut to its place.
use libpolycall_v.Prelude.{[], ◌∷◌, List, ℕ, if◌then◌else◌, take, ltb, drop, length, ◌-◌, ◌++◌}
use libpolycall_v.Runtime.{max_input, history_size}

abbrev pub cut_to_place : List ℕ → List ℕ
cut_to_place command = take (max_input - 1) command

unfoldable pub add_to_history : List (List ℕ) → List ℕ → List (List ℕ)
add_to_history history command =
    if ltb (length history) history_size
    then history ++ cut_to_place command ∷ []
    else drop 1 history ++ cut_to_place command ∷ []

unfoldable pub add_all : List (List ℕ) → List (List ℕ) → List (List ℕ)
add_all history [] = history
add_all history (command ∷ commands) = add_all (add_to_history history command) commands

-- The last `n` of a list.
abbrev pub last {ℓ} : {A : Type ℓ} → ℕ → List A → List A
last n xs = drop (length xs - n) xs
