-- ===== src/Config/Lookup.antt =====
-- The table of values as a map.
use libpolycall_v.Config.{PolycallConfig, ConfigValue, value_size, key_size}
use libpolycall_v.Prelude.{
  refl, none, some, true, false, zero, suc, [], inl, inr, ◌∷◌, List, ℕ, if◌then◌else◌, length, ◌≡◌,
  ◌≤◌, ◌++◌, arith, take, Option-cases, ap, ◌-◌, is_some, ◌<◌, Bool-cases, or_else,
}
use libpolycall_v.Config.Text.{same_text}
use libpolycall_v.Config.Store.{get_value, replace_value, config_set, stored_value}

pub same_text_eq : (s t : List ℕ) → same_text s t ≡ true → s ≡ t
unfolding same_text
same_text_eq [] [] h = refl
same_text_eq [] (b ∷ t) h = ground (arith, h)
same_text_eq (a ∷ s) [] h = ground (arith, h)
same_text_eq (a ∷ s) (b ∷ t) h = ground (arith, h, same_text_eq s t)

pub same_text_refl : (s : List ℕ) → same_text s s ≡ true
unfolding same_text
same_text_refl [] = refl
same_text_refl (a ∷ s) = ground (arith, same_text_refl s)

pub same_text_sym : (s t : List ℕ) → same_text s t ≡ same_text t s
unfolding same_text
same_text_sym [] [] = refl
same_text_sym [] (b ∷ t) = refl
same_text_sym (a ∷ s) [] = refl
same_text_sym (a ∷ s) (b ∷ t) = ground (arith, same_text_sym s t)

pub take_all : (n : ℕ) (s : List ℕ) → length s ≤ n → take n s ≡ s
take_all zero [] h = refl
take_all zero (c ∷ s) h = absurd (omega arith)
take_all (suc n) [] h = refl
take_all (suc n) (c ∷ s) h = ap (c ∷◌) (take_all n s (omega arith))

pub get_value-append :
    (values : List ConfigValue) (v : ConfigValue) (key : List ℕ)
    → get_value (values ++ v ∷ []) key
      ≡ or_else (get_value values key) (if same_text v.key key then some v.value else none)
unfolding get_value
get_value-append [] v key = ground arith
get_value-append (w ∷ values) v key = ground (arith, get_value-append values v key)

-- The table with the value of a key replaced.
unfoldable pub replaced : List ConfigValue → List ℕ → List ℕ → List ConfigValue
replaced [] key value = []
replaced (v ∷ values) key value =
    if same_text v.key key
    then record v { value = take (value_size - 1) value } ∷ values
    else v ∷ replaced values key value

pub replace_value-replaced :
    (values : List ConfigValue) (key value : List ℕ)
    → replace_value values key value
      ≡ (if is_some (get_value values key) then some (replaced values key value) else none)
unfolding replace_value get_value replaced
replace_value-replaced [] key value = refl
replace_value-replaced (v ∷ values) key value =
    ground (arith, replace_value-replaced values key value)

pub get_value-replaced :
    (values : List ConfigValue) (key value k : List ℕ)
    → is_some (get_value values key) ≡ true
    → get_value (replaced values key value) k
      ≡ (if same_text key k then some (take (value_size - 1) value) else get_value values k)
unfolding get_value replaced
get_value-replaced [] key value k h = ground (arith, h)
get_value-replaced (v ∷ values) key value k h = elim (Bool-cases (same_text v.key key)) [
  | inl e ↦ let same = same_text_eq v.key key e in ground (arith, e, same)
  | inr e ↦ elim (Bool-cases (same_text v.key k)) [
    | inl f ↦ ground (arith, e, f, h, same_text_eq v.key k f, same_text_sym key v.key)
    | inr f ↦ ground (arith, e, f, h, get_value-replaced values key value k)
  ]
]

-- The table after an assignment.
abbrev pub assigned : List ConfigValue → List ℕ → List ℕ → List ConfigValue
assigned values key value =
    if is_some (get_value values key)
    then replaced values key value
    else values ++ stored_value key value ∷ []

absent :
    (values : List ConfigValue) (key k : List ℕ)
    → is_some (get_value values key) ≡ false
    → same_text key k ≡ true
    → get_value values k ≡ none
absent values key k h e = rw (← same_text_eq key k e) (elim (Option-cases (get_value values key)) [
  | inl n ↦ n
  | inr (v, n) ↦ absurd (ground (arith, h, n))
])

pub get_value-assigned :
    (values : List ConfigValue) (key value k : List ℕ)
    → length key < key_size
    → length value < value_size
    → get_value (assigned values key value) k
      ≡ (if same_text key k then some value else get_value values k)
get_value-assigned values key value k n m = elim (Bool-cases (is_some (get_value values key))) [
  | inl e ↦
      ground
        (arith, e, get_value-replaced values key value k e, take_all 255 value (omega (arith, m)))
  | inr e ↦ ground (
    arith,
    e,
    get_value-append values (stored_value key value) k,
    take_all 255 value (omega (arith, m)),
    take_all 63 key (omega (arith, n)),
    absent values key k e,
  )
]

-- Setting a key whose text and whose value fit gives exactly the table in which that key has that
-- value and every other key keeps its own, if there is room for it.
pub config_set-assigned :
    (config next : PolycallConfig) (key value : List ℕ)
    → config_set config key value ≡ some next
    → next ≡ record config { values = assigned config.values key value }
unfolding config_set
config_set-assigned config next key value h =
    ground (arith, h, replace_value-replaced config.values key value)
