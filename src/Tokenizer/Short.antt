-- ===== src/Tokenizer/Short.antt =====
-- The scan ends; and it fails on a text that does not fill the buffer.
use libpolycall_v.Tokenizer.{
  ready, scanning, error, Tokenizer, set_input, reset_state, set_error_state, write_all,
}
use libpolycall_v.Prelude.{
  refl, none, some, true, false, zero, suc, [], inl, inr, ◌∷◌, List, ℕ, Bool, Option, ◌≡◌, ◌<◌,
  Option-cases, get_or, ◌+◌, if_rule, ◌≢◌, arith, drop, ◌≤◌, ◌⊎◌, ◌-◌, ◌∙◌, ltb, ap, length, set,
  get_or-set_self, length-set, is_space,
}
use libpolycall_v.Tokenizer.Process.{Operation, try_patterns, round, scan, tokenizer_process}

-- A matcher that takes at least one character, and no terminator.
pub record IsPattern (match : List ℕ → Option ℕ) : Type 0 where
  pub productive : (s : List ℕ) (n : ℕ) → match s ≡ some n → 0 < n
  pub inside : (s : List ℕ) (n j : ℕ) → match s ≡ some n → j < n → get_or s j 0 ≢ 0

abbrev pub AllPatterns : List Operation → Type 0
AllPatterns [] = Unit {0}
AllPatterns (op ∷ ops) = IsPattern op.match × AllPatterns ops

-- The tokenizer after a round that took the first `taken` characters of `s`.
record IsNext (tokenizer : Tokenizer) (s : List ℕ) (next : Tokenizer) : Type 0 where
  taken : ℕ
  taken-lt : 0 < taken
  position : next.position ≡ tokenizer.position + taken
  size : next.size ≡ tokenizer.size
  buffer : next.buffer ≡ tokenizer.buffer
  inside : (j : ℕ) → j < taken → get_or s j 0 ≢ 0

-- What a round gives, if anything.
abbrev Leads : Tokenizer → List ℕ → Option Tokenizer → Type 0
Leads tokenizer s none = Unit {0}
Leads tokenizer s (some next) = IsNext tokenizer s next

space_inside : (c : ℕ) (s : List ℕ) (j : ℕ) → is_space c ≡ true → j < 1 → get_or (c ∷ s) j 0 ≢ 0
space_inside c s zero t h z = absurd (ground (arith, t, z))
space_inside c s (suc j) t h z = absurd (omega (arith, h))

shift : (i j : ℕ) → suc (i + j) ≡ suc i + j
shift i j = omega arith

pub get_or-drop : (xs : List ℕ) (i j : ℕ) → get_or (drop i xs) j 0 ≡ get_or xs (i + j) 0
get_or-drop xs zero j = ap (λ k. get_or xs k 0) (omega arith)
get_or-drop [] (suc i) j = refl
get_or-drop (x ∷ xs) (suc i) j = get_or-drop xs i j ∙ ap (λ k. get_or (x ∷ xs) k 0) (shift i j)

cases_le : (a b : ℕ) → (a ≤ b) ⊎ (b < a)
cases_le a b = ground arith

-- A round does not step over a terminator.
not_over :
    (tokenizer next : Tokenizer) (i : ℕ)
    → IsNext tokenizer (drop tokenizer.position tokenizer.buffer) next
    → get_or tokenizer.buffer i 0 ≡ 0
    → tokenizer.position ≤ i
    → next.position ≤ i
not_over tokenizer next i n z h = elim (cases_le next.position i) [
  | inl l ↦ l
  | inr l ↦ absurd (
      n.inside (i - tokenizer.position) (omega (arith, n.position, l, h)) (
        get_or-drop tokenizer.buffer tokenizer.position (i - tokenizer.position)
        ∙ ap (λ k. get_or tokenizer.buffer k 0) (omega (arith, h))
        ∙ z))
]

-- What a scan that fails gives.
pub record IsRefused (r : Option (Tokenizer × Bool)) : Type 0 where
  pub out : Tokenizer
  pub result : r ≡ some (out, false)
  pub failed : out.current ≡ error

module _ (strtod strtoll : List ℕ → ℕ) where
  try_patterns-Leads :
      (tokenizer : Tokenizer) (ops : List Operation) (s : List ℕ)
      → AllPatterns ops
      → Leads tokenizer s (try_patterns strtod strtoll tokenizer ops s)
  unfolding try_patterns
  try_patterns-Leads tokenizer [] s p = tt
  try_patterns-Leads tokenizer (op ∷ ops) s p = elim (Option-cases (op.match s)) [
    | inl e ↦ rw e (try_patterns-Leads tokenizer ops s p.1)
    | inr (n, e) ↦ rw e (record {
      taken = n;
      taken-lt = p.0.productive s n e;
      position = refl;
      size = refl;
      buffer = refl;
      inside = λ j h. p.0.inside s n j e h;
    })
  ]

  round-Leads :
      (tokenizer : Tokenizer) (ops : List Operation) (s : List ℕ)
      → AllPatterns ops
      → Leads tokenizer s (round strtod strtoll tokenizer ops s)
  round-Leads tokenizer ops [] p = tt
  round-Leads tokenizer ops (c ∷ s) p =
      if_rule (Leads tokenizer (c ∷ s)) (is_space c)
        (λ t. record {
          taken = 1;
          taken-lt = omega arith;
          position = ground arith;
          size = ground arith;
          buffer = ground arith;
          inside = λ j h. space_inside c s j t h;
        })
        (λ f. try_patterns-Leads tokenizer ops (c ∷ s) p)

  -- With a round for each character that is left and one more, the scan ends.
  scan_ends :
      (fuel : ℕ) (tokenizer : Tokenizer) (ops : List Operation)
      → AllPatterns ops
      → tokenizer.size - tokenizer.position < fuel
      → (r : Tokenizer × Bool) × (scan strtod strtoll fuel tokenizer ops ≡ some r)
  unfolding scan
  scan_ends zero tokenizer ops p h = absurd (omega arith)
  scan_ends (suc fuel) tokenizer ops p h =
      if_rule (λ (o : Option (Tokenizer × Bool)). (r : Tokenizer × Bool) × (o ≡ some r))
        (ltb tokenizer.position tokenizer.size)
        (λ t.
          let s = drop tokenizer.position tokenizer.buffer in
          let leads = round-Leads tokenizer ops s p in
          elim (Option-cases (round strtod strtoll tokenizer ops s)) [
            | inl e ↦ rw e (_, refl)
            | inr (next, e) ↦
                let n : IsNext tokenizer s next = rw e at leads in
                rw e
                  (scan_ends fuel next ops p (ground (arith, t, h, n.position, n.size, n.taken-lt)))
          ])
        (λ f. (_, refl))

  -- Where a terminator stands before the end of the buffer, the scan stops there and fails.
  scan_short :
      (fuel i : ℕ) (tokenizer : Tokenizer) (ops : List Operation)
      → AllPatterns ops
      → get_or tokenizer.buffer i 0 ≡ 0
      → i < tokenizer.size
      → tokenizer.position ≤ i
      → tokenizer.size - tokenizer.position < fuel
      → IsRefused (scan strtod strtoll fuel tokenizer ops)
  unfolding scan set_error_state
  scan_short zero i tokenizer ops p z l k h = absurd (omega arith)
  scan_short (suc fuel) i tokenizer ops p z l k h =
      if_rule IsRefused (ltb tokenizer.position tokenizer.size)
        (λ t.
          let s = drop tokenizer.position tokenizer.buffer in
          let leads = round-Leads tokenizer ops s p in
          elim (Option-cases (round strtod strtoll tokenizer ops s)) [
            | inl e ↦ rw e (record { out = _; result = refl; failed = refl })
            | inr (next, e) ↦
                let n : IsNext tokenizer s next = rw e at leads in
                rw e (
                  scan_short fuel i next ops p (ap (λ b. get_or b i 0) n.buffer ∙ z)
                    (omega (arith, n.size, l)) (not_over tokenizer next i n z k)
                    (ground (arith, t, h, n.position, n.size, n.taken-lt)))
          ])
        (λ f. absurd (ground (arith, f, l, k)))

-- With patterns that each take at least one character and no terminator, the scan comes to an
-- end: the fuel that it is given is enough.
pub tokenizer_process_ends :
    (strtod strtoll : List ℕ → ℕ) (tokenizer : Tokenizer) (ops : List Operation)
    → AllPatterns ops
    → (r : Tokenizer × Bool) × (tokenizer_process strtod strtoll tokenizer ops ≡ some r)
unfolding tokenizer_process
tokenizer_process_ends strtod strtoll tokenizer ops p =
    scan_ends strtod strtoll _ (record tokenizer { current = scanning }) ops p (omega arith)

length-write_all :
    (buffer : List ℕ) (i : ℕ) (bs : List ℕ) → length (write_all buffer i bs) ≡ length buffer
length-write_all buffer i [] = refl
length-write_all buffer i (b ∷ bs) =
    length-write_all (set buffer i b) (i + 1) bs ∙ length-set buffer i b

-- The tokenizer with a text in its buffer.
abbrev filled : Tokenizer → List ℕ → Tokenizer
filled tokenizer input = record tokenizer {
  buffer = set (write_all tokenizer.buffer 0 input) (length input) 0;
  current = ready;
  line = 1;
  column = 1;
  position = 0;
  error_message = none;
}

set_input_lem :
    (tokenizer : Tokenizer) (input : List ℕ)
    → 0 < length input
    → length input ≤ tokenizer.size
    → set_input tokenizer (some input) ≡ (filled tokenizer input, true)
unfolding set_input reset_state
set_input_lem tokenizer input n l = ground (arith, n, l)

-- With such patterns, and a buffer of the size that was asked for, every text that is not
-- empty and does not fill the buffer is accepted as the input and then refused by the scan: it
-- reaches the terminator behind the text, or something before it, that no pattern takes, and
-- ends in the error state.
pub tokenizer_process_short :
    (strtod strtoll : List ℕ → ℕ) (tokenizer : Tokenizer) (ops : List Operation) (input : List ℕ)
    → AllPatterns ops
    → length tokenizer.buffer ≡ tokenizer.size
    → 0 < length input
    → length input < tokenizer.size
    → let given = set_input tokenizer (some input) in
      (given.1 ≡ true) × IsRefused (tokenizer_process strtod strtoll given.0 ops)
unfolding tokenizer_process
tokenizer_process_short strtod strtoll tokenizer ops input p b n l =
    rw (set_input_lem tokenizer input n (omega (arith, l))) (
      refl,
      scan_short strtod strtoll _ (length input)
          (record (filled tokenizer input) { current = scanning }) ops p
          (get_or-set_self (write_all tokenizer.buffer 0 input) (length input) 0 0
            (omega (arith, length-write_all tokenizer.buffer 0 input, b, l)))
          l (omega arith) (omega arith),
    )
