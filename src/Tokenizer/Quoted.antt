-- ===== src/Tokenizer/Quoted.antt =====
-- Strings as they are written, and the longest match of an identifier.
use libpolycall_v.Prelude.{
  refl, some, true, false, suc, [], ◌∷◌, List, ℕ, Bool, if◌then◌else◌, ◌==◌, ◌≡◌, ◌||◌, IsText,
  get_or, ◌++◌, length, arith, ◌+◌, AllPass,
}
use libpolycall_v.Tokenizer.Match.{
  scan_string, match_string, count_while, match_identifier, is_identifier_start, is_identifier_part,
}

-- A text with a backslash before each quote and each backslash.
unfoldable pub escape : List ℕ → List ℕ
escape [] = []
escape (c ∷ s) = if c == b'"' || c == b'\\' then b'\\' ∷ c ∷ escape s else c ∷ escape s

scan_string-escape :
    (s rest : List ℕ)
    → IsText s
    → scan_string false (escape s ++ b'"' ∷ rest) ≡ some (suc (length (escape s)))
unfolding scan_string escape
scan_string-escape [] rest t = refl
scan_string-escape (c ∷ s) rest t = ground (arith, t.0, scan_string-escape s rest t.1)

-- A text that is written between quotes with its quotes and backslashes escaped is matched up
-- to its closing quote, whatever follows.
pub match_string-escape :
    (s rest : List ℕ)
    → IsText s
    → match_string (b'"' ∷ escape s ++ b'"' ∷ rest) ≡ some (length (escape s) + 2)
unfolding match_string
match_string-escape s rest t = ground (arith, scan_string-escape s rest t)

count_while-append :
    (p : ℕ → Bool) (s rest : List ℕ)
    → AllPass p s
    → p (get_or rest 0 0) ≡ false
    → count_while p (s ++ rest) ≡ length s
unfolding count_while
count_while-append p [] [] a h = refl
count_while-append p [] (c ∷ rest) a h = ground (arith, h)
count_while-append p (c ∷ s) rest a h = ground (arith, a.0, count_while-append p s rest a.1 h)

-- An identifier is matched to its end: a first character that may start one, then all the
-- characters that may be part of one, up to the first that may not.
pub match_identifier-append :
    (c : ℕ) (s rest : List ℕ)
    → is_identifier_start c ≡ true
    → AllPass is_identifier_part s
    → is_identifier_part (get_or rest 0 0) ≡ false
    → match_identifier (c ∷ s ++ rest) ≡ some (suc (length s))
unfolding match_identifier
match_identifier-append c s rest h a e =
    ground (arith, h, count_while-append is_identifier_part s rest a e)
