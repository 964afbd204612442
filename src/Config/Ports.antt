-- ===== src/Config/Ports.antt =====
-- Numbers and port mappings are read back as they are printed.
use libpolycall_v.Prelude.{
  refl, none, some, true, zero, suc, [], ◌∷◌, List, ℕ, Bool, take_while, drop_while, ◌*◌,
  digits_onto, decimal, ◌≡◌, AllPass, ◌<◌, arith, length, ◌≤◌, not, ◌+◌, ◌/◌, ◌==◌, AllPass-decimal,
  ◌++◌, is_digit, ◌%◌, number_from-decimal, length-append, number_from, Option,
}
use libpolycall_v.Config.Text.{
  parse_positive_integer, cut, parse_port_mapping, strtoul, unsigned_digits, accepted, both_ports,
  mapping_parts,
}

pub take_while_all : (p : ℕ → Bool) (s : List ℕ) → AllPass p s → take_while p s ≡ s
unfolding take_while
take_while_all p [] a = refl
take_while_all p (c ∷ s) a = ground (arith, a.0, take_while_all p s a.1)

pub drop_while_all : (p : ℕ → Bool) (s : List ℕ) → AllPass p s → drop_while p s ≡ []
unfolding drop_while
drop_while_all p [] a = refl
drop_while_all p (c ∷ s) a = ground (arith, a.0, drop_while_all p s a.1)

-- Digits that spell a number of 64 bits other than zero are read as that number.
pub parse_positive_integer-digits :
    (s : List ℕ) (n : ℕ)
    → AllPass is_digit s
    → 0 < length s
    → number_from 0 s ≡ n
    → 0 < n
    → n < 18446744073709551616
    → parse_positive_integer s ≡ some n
unfolding parse_positive_integer strtoul unsigned_digits drop_while
parse_positive_integer-digits [] n a l e p h = absurd (omega arith)
parse_positive_integer-digits (c ∷ s) n a l e p h =
    ground
      (arith, a.0, take_while_all is_digit (c ∷ s) a, drop_while_all is_digit (c ∷ s) a, e, p, h)

-- Ten to the power, with one more factor.
bound : ℕ → ℕ
bound zero = 10
bound (suc k) = 10 * bound k

length-digits_onto :
    (fuel k n : ℕ) (out : List ℕ)
    → n < bound k
    → length (digits_onto fuel n out) ≤ suc k + length out
unfolding digits_onto bound
length-digits_onto zero k n out h = omega arith
length-digits_onto (suc fuel) zero n out h = ground (arith, h)
length-digits_onto (suc fuel) (suc k) n out h =
    ground (arith, h, length-digits_onto fuel k (n / 10) ((48 + n % 10) ∷ out))

digits_onto-nonempty :
    (fuel n : ℕ) (out : List ℕ) → length out < length (digits_onto (suc fuel) n out)
unfolding digits_onto
digits_onto-nonempty zero n out = ground arith
digits_onto-nonempty (suc fuel) n out =
    ground (arith, digits_onto-nonempty fuel (n / 10) ((48 + n % 10) ∷ out))

pub length-decimal-lt : (n : ℕ) → n ≤ 65535 → length (decimal n) ≤ 5
unfolding decimal bound
length-decimal-lt n h = omega (arith, h, length-digits_onto (suc n) 4 n [] (omega (arith, h)))

pub decimal-nonempty : (n : ℕ) → 0 < length (decimal n)
unfolding decimal
decimal-nonempty n = digits_onto-nonempty n n []

pub cut-append :
    (c : ℕ) (s t : List ℕ) → AllPass (λ d. not (d == c)) s → cut c (s ++ c ∷ t) ≡ (s, some t)
unfolding cut
cut-append c [] t a = ground arith
cut-append c (d ∷ s) t a = ground (arith, a.0, cut-append c s t a.1)

pub cut-none : (c : ℕ) (s : List ℕ) → AllPass (λ d. not (d == c)) s → cut c s ≡ (s, none)
unfolding cut
cut-none c [] a = refl
cut-none c (d ∷ s) a = ground (arith, a.0, cut-none c s a.1)

pub AllPass-weaken :
    (p q : ℕ → Bool) (s : List ℕ) → ((c : ℕ) → p c ≡ true → q c ≡ true) → AllPass p s → AllPass q s
AllPass-weaken p q [] w a = tt
AllPass-weaken p q (c ∷ s) w a = (w c a.0, AllPass-weaken p q s w a.1)

no_colon : (n : ℕ) → AllPass (λ d. not (d == b':')) (decimal n)
no_colon n =
    AllPass-weaken is_digit (λ d. not (d == b':')) (decimal n) (λ c h. ground (arith, h))
      (AllPass-decimal n)

pub parse_positive_integer-decimal :
    (n : ℕ) → 0 < n → n ≤ 65535 → parse_positive_integer (decimal n) ≡ some n
parse_positive_integer-decimal n p h =
    parse_positive_integer-digits (decimal n) n (AllPass-decimal n) (decimal-nonempty n)
      (number_from-decimal n) p (omega (arith, h))

-- Two ports from 1 to 65535, printed in decimal with a colon between them, are read back.
pub parse_port_mapping-decimal :
    (host target : ℕ)
    → 0 < host
    → host ≤ 65535
    → 0 < target
    → target ≤ 65535
    → parse_port_mapping (decimal host ++ b':' ∷ decimal target) ≡ some (host, target)
unfolding parse_port_mapping
parse_port_mapping-decimal host target p h q k = ground (
  arith,
  h,
  k,
  length-append (decimal host) (b':' ∷ decimal target),
  length-decimal-lt host h,
  length-decimal-lt target k,
  cut-append b':' (decimal host) (decimal target) (no_colon host),
  cut-none b':' (decimal target) (no_colon target),
  parse_positive_integer-decimal host p h,
  parse_positive_integer-decimal target q k,
)

accepted_positive : (o : Option (ℕ × List ℕ × Bool)) (n : ℕ) → accepted o ≡ some n → 0 < n
accepted_positive none n e = absurd (ground (arith, e))
accepted_positive (some (parsed, rest, overflow)) n e = ground (arith, e)

pub parse_positive_integer-positive :
    (s : List ℕ) (n : ℕ) → parse_positive_integer s ≡ some n → 0 < n
unfolding parse_positive_integer
parse_positive_integer-positive [] n e = absurd (ground (arith, e))
parse_positive_integer-positive (c ∷ s) n e =
    ground (arith, e, accepted_positive (strtoul (c ∷ s)) n)

pub record ArePorts (host target : ℕ) : Type 0 where
  pub host_positive : 0 < host
  pub host_le : host ≤ 65535
  pub target_positive : 0 < target
  pub target_le : target ≤ 65535

both_ports-ArePorts :
    (a b : Option ℕ) (host target : ℕ)
    → (a ≡ some host → 0 < host)
    → (b ≡ some target → 0 < target)
    → both_ports a b ≡ some (host, target)
    → ArePorts host target
both_ports-ArePorts none b host target f g e = absurd (ground (arith, e))
both_ports-ArePorts (some x) none host target f g e = absurd (ground (arith, e))
both_ports-ArePorts (some x) (some y) host target f g e = record {
  host_positive = ground (arith, e, f);
  host_le = ground (arith, e);
  target_positive = ground (arith, e, g);
  target_le = ground (arith, e);
}

mapping_parts-ArePorts :
    (s : List ℕ) (o : Option (List ℕ)) (host target : ℕ)
    → mapping_parts s o ≡ some (host, target)
    → ArePorts host target
mapping_parts-ArePorts s none host target e = absurd (ground (arith, e))
mapping_parts-ArePorts s (some t) host target e =
    both_ports-ArePorts (parse_positive_integer s) (parse_positive_integer t) host target
      (parse_positive_integer-positive s host) (parse_positive_integer-positive t target)
      (ground (arith, e))

-- Whatever is read as a port mapping is two ports.
pub parse_port_mapping-ArePorts :
    (value : List ℕ) (host target : ℕ)
    → parse_port_mapping value ≡ some (host, target)
    → ArePorts host target
unfolding parse_port_mapping
parse_port_mapping-ArePorts value host target e =
    mapping_parts-ArePorts (cut b':' value).0 (cut b':' value).1 host target (ground (arith, e))
