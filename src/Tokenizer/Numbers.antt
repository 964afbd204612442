-- ===== src/Tokenizer/Numbers.antt =====
-- The number matcher takes at least one character and no terminator, as the others do.
use libpolycall_v.Prelude.{
  some, true, [], inl, inr, ◌∷◌, List, ℕ, ◌≤◌, ◌<◌, arith, get_or, ◌≢◌, ◌⊎◌, drop, ◌≡◌, ◌+◌, ◌-◌,
  ap, ◌∙◌, none, if◌then◌else◌, Bool-cases, Option-cases, ◌==◌, ◌||◌, ◌&&◌, ltb, Option, is_digit,
}
use libpolycall_v.Tokenizer.Match.{
  count_while, match_digits, match_fraction, match_exponent, match_number, is_sign,
  match_identifier, match_string, match_operator,
}
use libpolycall_v.Tokenizer.Short.{get_or-drop, IsPattern}
use libpolycall_v.Tokenizer.Prefixes.{
  count_while-passes, match_identifier-IsPattern, match_string-IsPattern, match_operator-IsPattern,
}

-- A match that goes from `pos` to `n`.
record IsReached (s : List ℕ) (pos n : ℕ) : Type 0 where
  forward : pos ≤ n
  inside : (j : ℕ) → pos ≤ j → j < n → get_or s j 0 ≢ 0

cases_below : (j b : ℕ) → (j < b) ⊎ (b ≤ j)
cases_below j b = ground arith

joined-IsReached : (s : List ℕ) (a b c : ℕ) → IsReached s a b → IsReached s b c → IsReached s a c
joined-IsReached s a b c x y = record {
  forward = omega (arith, x.forward, y.forward);
  inside = λ j h k. elim (cases_below j b) [ inl l ↦ x.inside j h l | inr l ↦ y.inside j l k ];
}

one-IsReached : (s : List ℕ) (pos : ℕ) → get_or s pos 0 ≢ 0 → IsReached s pos (pos + 1)
one-IsReached s pos h = record {
  forward = omega arith;
  inside = λ j a b z. h (ap (λ k. get_or s k 0) (omega (arith, a, b)) ∙ z);
}

none-IsReached : (s : List ℕ) (pos : ℕ) → IsReached s pos pos
none-IsReached s pos = record {
  forward = omega arith;
  inside = λ j a b. absurd (omega (arith, a, b));
}

at_offset : (s : List ℕ) (pos j : ℕ) → pos ≤ j → get_or (drop pos s) (j - pos) 0 ≡ get_or s j 0
at_offset s pos j a = get_or-drop s pos (j - pos) ∙ ap (λ k. get_or s k 0) (omega (arith, a))

counted : (s : List ℕ) → is_digit (get_or s 0 0) ≡ true → 0 < count_while is_digit s
unfolding count_while
counted [] h = ground (arith, h)
counted (c ∷ s) h = ground (arith, h)

digits-IsReached :
    (s : List ℕ) (pos n : ℕ) → match_digits s pos ≡ some n → IsReached s pos n × (pos < n)
digits-IsReached s pos n e =
    let digit : is_digit (get_or s pos 0) ≡ true = ground (arith, e) in
    let count : n ≡ pos + count_while is_digit (drop pos s) = ground (arith, e) in
    (
      record {
        forward = omega (arith, count);
        inside = λ j a b z. absurd (
            ground (
              arith,
              z,
              count_while-passes is_digit (drop pos s) (j - pos) (omega (arith, a, b, count)),
              at_offset s pos j a,
            ));
      },
      ground (arith, count, digit, counted (drop pos s), at_offset s pos pos),
    )

still-IsReached : (s : List ℕ) (pos n : ℕ) → pos ≡ n → IsReached s pos n
still-IsReached s pos n e = rw e (none-IsReached s n)

two-IsReached : (s : List ℕ) (pos : ℕ) → get_or s (pos + 1) 0 ≢ 0 → IsReached s (pos + 1) (pos + 2)
two-IsReached s pos h = record {
  forward = omega arith;
  inside = λ j a b z. h (ap (λ k. get_or s k 0) (omega (arith, a, b)) ∙ z);
}

no_answer : {n : ℕ} → ◌≡◌ {A = Option ℕ} none (some n) → ⊥
no_answer e = ground (arith, e)

fraction-IsReached : (s : List ℕ) (pos n : ℕ) → match_fraction s pos ≡ some n → IsReached s pos n
fraction-IsReached s pos n e = elim (Bool-cases (get_or s pos 0 == b'.')) [
  | inl k ↦
      joined-IsReached s pos (pos + 1) n (one-IsReached s pos (λ z. absurd (ground (arith, k, z))))
        (digits-IsReached s (pos + 1) n (ground (arith, e, k))).0
  | inr k ↦ still-IsReached s pos n (ground (arith, e, k))
]

exponent-IsReached : (s : List ℕ) (pos n : ℕ) → match_exponent s pos ≡ some n → IsReached s pos n
exponent-IsReached s pos n e =
    elim (Bool-cases ((get_or s pos 0 == b'e' || get_or s pos 0 == b'E') && ltb 0 pos)) [
      | inr k ↦ still-IsReached s pos n (ground (arith, e, k))
      | inl k ↦
          let mark = one-IsReached s pos (λ z. absurd (ground (arith, k, z))) in
          elim (Bool-cases (is_sign (get_or s (pos + 1) 0))) [
            | inl t ↦ joined-IsReached s pos (pos + 1) n mark (
                joined-IsReached s (pos + 1) (pos + 2) n
                  (two-IsReached s pos (λ z. absurd (ground (arith, t, z))))
                  (digits-IsReached s (pos + 2) n (ground (arith, e, k, t))).0)
            | inr t ↦
                joined-IsReached s pos (pos + 1) n mark
                  (digits-IsReached s (pos + 1) n (ground (arith, e, k, t))).0
          ]
    ]

-- The digits after the sign, if there is one.
leading-IsReached :
    (s : List ℕ) (n : ℕ)
    → match_digits s (if is_sign (get_or s 0 0) then 1 else 0) ≡ some n
    → IsReached s 0 n × (0 < n)
leading-IsReached s n e = elim (Bool-cases (is_sign (get_or s 0 0))) [
  | inl t ↦
      let d = digits-IsReached s 1 n (ground (arith, e, t)) in
      (
        joined-IsReached s 0 1 n (one-IsReached s 0 (λ z. absurd (ground (arith, t, z)))) d.0,
        omega (arith, d.1),
      )
  | inr t ↦ digits-IsReached s 0 n (ground (arith, e, t))
]

number-IsReached : (s : List ℕ) (n : ℕ) → match_number s ≡ some n → IsReached s 0 n × (0 < n)
unfolding match_number
number-IsReached s n e =
    elim (Option-cases (match_digits s (if is_sign (get_or s 0 0) then 1 else 0))) [
      | inl k ↦ absurd (no_answer (rw (match_number, k) at e))
      | inr (a, k) ↦
          let lead = leading-IsReached s a k in
          elim (Option-cases (match_fraction s a)) [
            | inl f ↦ absurd (no_answer (rw (match_number, k, f) at e))
            | inr (b, f) ↦
                let part = fraction-IsReached s a b f in
                let last = exponent-IsReached s b n (rw (match_number, k, f) at e) in
                (
                  joined-IsReached s 0 a n lead.0 (joined-IsReached s a b n part last),
                  omega (arith, lead.1, part.forward, last.forward),
                )
          ]
    ]

match_number-IsPattern : IsPattern match_number
match_number-IsPattern = record {
  productive = λ s n e. (number-IsReached s n e).1;
  inside = λ s n j e h. (number-IsReached s n e).0.inside j (omega arith) h;
}

-- Each of the four matchers, where it matches, takes at least one character and no terminator,
-- so it never goes past the end of a text.
pub matchers-ArePatterns :
    IsPattern match_identifier
    × IsPattern match_number
    × IsPattern match_string
    × IsPattern match_operator
matchers-ArePatterns = (
  match_identifier-IsPattern, match_number-IsPattern, match_string-IsPattern,
  match_operator-IsPattern,
)
