-- ===== src/Tokenizer/Prefixes.antt =====
-- Each matcher takes at least one character and no terminator.
use libpolycall_v.Prelude.{
  some, true, false, zero, suc, [], inl, inr, ◌∷◌, List, ℕ, Bool, IsText, ◌<◌, get_or, ◌≡◌, length,
  arith, ◌≢◌, Bool-cases, Option-cases, not, ◌&&◌, ◌==◌,
}
use libpolycall_v.Tokenizer.Match.{
  count_while, match_identifier, starts_with, first_operator, is_identifier_part, operators,
  match_operator, scan_string, match_string,
}
use libpolycall_v.Tokenizer.Short.{IsPattern}

-- The characters that a loop counts all pass its test.
pub count_while-passes :
    (p : ℕ → Bool) (s : List ℕ) (j : ℕ) → j < count_while p s → p (get_or s j 0) ≡ true
unfolding count_while
count_while-passes p [] j h = absurd (omega (arith, h))
count_while-passes p (c ∷ s) zero h = ground (arith, h)
count_while-passes p (c ∷ s) (suc j) h = ground (arith, h, count_while-passes p s j)

identifier_inside : (s : List ℕ) (n j : ℕ) → match_identifier s ≡ some n → j < n → get_or s j 0 ≢ 0
unfolding match_identifier
identifier_inside [] n j e h z = absurd (ground (arith, e))
identifier_inside (c ∷ s) n zero e h z = absurd (ground (arith, e, z))
identifier_inside (c ∷ s) n (suc j) e h z =
    absurd (ground (arith, e, h, z, count_while-passes is_identifier_part s j))

identifier_productive : (s : List ℕ) (n : ℕ) → match_identifier s ≡ some n → 0 < n
unfolding match_identifier
identifier_productive [] n e = absurd (ground (arith, e))
identifier_productive (c ∷ s) n e = ground (arith, e)

pub match_identifier-IsPattern : IsPattern match_identifier
match_identifier-IsPattern = record {
  productive = identifier_productive;
  inside = identifier_inside;
}

starts_inside :
    (s op : List ℕ) (j : ℕ) → IsText op → starts_with s op ≡ true → j < length op → get_or s j 0 ≢ 0
unfolding starts_with
starts_inside s [] j t e h z = absurd (omega (arith, h))
starts_inside [] (o ∷ op) j t e h z = absurd (ground (arith, e))
starts_inside (c ∷ s) (o ∷ op) zero t e h z = absurd (ground (arith, e, t.0, z))
starts_inside (c ∷ s) (o ∷ op) (suc j) t e h z =
    starts_inside s op j t.1 (ground (arith, e)) (omega (arith, h)) z

-- Each operator of the table is a text that is not empty.
abbrev AreTexts : List (List ℕ) → Type 0
AreTexts [] = Unit {0}
AreTexts (op ∷ ops) = IsText op × (0 < length op) × AreTexts ops

-- What the search in the table finds.
record IsFound (s : List ℕ) (n : ℕ) : Type 0 where
  productive : 0 < n
  inside : (j : ℕ) → j < n → get_or s j 0 ≢ 0

operator-IsFound :
    (s op : List ℕ) (n : ℕ)
    → IsText op
    → 0 < length op
    → starts_with s op ≡ true
    → length op ≡ n
    → IsFound s n
operator-IsFound s op n t p k e = record {
  productive = omega (arith, p, e);
  inside = λ j h. starts_inside s op j t k (omega (arith, h, e));
}

first_operator-IsFound :
    (ops : List (List ℕ)) (s : List ℕ) (n : ℕ)
    → AreTexts ops
    → first_operator ops s ≡ some n
    → IsFound s n
unfolding first_operator
first_operator-IsFound [] s n t e = absurd (ground (arith, e))
first_operator-IsFound (op ∷ ops) s n t e = elim (Bool-cases (starts_with s op)) [
  | inl k ↦ operator-IsFound s op n t.0 t.1 k (ground (arith, e, k))
  | inr k ↦ first_operator-IsFound ops s n t.2 (ground (arith, e, k))
]

operators-AreTexts : AreTexts operators
operators-AreTexts = ground arith

pub match_operator-IsPattern : IsPattern match_operator
unfolding match_operator
match_operator-IsPattern = record {
  productive = λ s n e. (first_operator-IsFound operators s n operators-AreTexts e).productive;
  inside = λ s n j e h. (first_operator-IsFound operators s n operators-AreTexts e).inside j h;
}

scan_string_inside :
    (escaped : Bool) (s : List ℕ) (n j : ℕ)
    → scan_string escaped s ≡ some n
    → j < n
    → get_or s j 0 ≢ 0
unfolding scan_string
scan_string_inside escaped [] n j e h z = absurd (ground (arith, e))
scan_string_inside escaped (c ∷ s) n zero e h z = absurd (ground (arith, e, z))
scan_string_inside escaped (c ∷ s) n (suc j) e h z =
    elim (Option-cases (scan_string (not escaped && c == b'\\') s)) [
      | inl k ↦ absurd (ground (arith, e, h, z, k))
      | inr (m, k) ↦
          absurd
            (ground (arith, e, h, z, k, scan_string_inside (not escaped && c == b'\\') s m j k))
    ]

string_inside : (s : List ℕ) (n j : ℕ) → match_string s ≡ some n → j < n → get_or s j 0 ≢ 0
unfolding match_string
string_inside [] n j e h z = absurd (ground (arith, e))
string_inside (c ∷ s) n zero e h z = absurd (ground (arith, e, z))
string_inside (c ∷ s) n (suc j) e h z = elim (Option-cases (scan_string false s)) [
  | inl k ↦ absurd (ground (arith, e, k))
  | inr (m, k) ↦ absurd (ground (arith, e, h, z, k, scan_string_inside false s m j k))
]

string_productive : (s : List ℕ) (n : ℕ) → match_string s ≡ some n → 0 < n
unfolding match_string
string_productive [] n e = absurd (ground (arith, e))
string_productive (c ∷ s) n e = elim (Option-cases (scan_string false s)) [
  | inl k ↦ absurd (ground (arith, e, k))
  | inr (m, k) ↦ ground (arith, e, k)
]

pub match_string-IsPattern : IsPattern match_string
match_string-IsPattern = record { productive = string_productive; inside = string_inside }
