-- ===== src/Config/Added.antt =====
-- What each step of the loading gives.
use libpolycall_v.Config.{runtime, language, PolycallConfig, ConfigLayer}
use libpolycall_v.Config.Lines.{parsed, stopped, Parsed, parse_config_file, raw_lines}
use libpolycall_v.Prelude.{
  refl, none, some, false, inl, inr, List, ℕ, if◌then◌else◌, Option, ◌≡◌, Option-cases, or_else,
  arith, ◌∙◌, ap, sym, Bool-cases,
}
use libpolycall_v.Config.Valid.{IsValid}
use libpolycall_v.Config.Load.{
  Files, Loaded, load_file, parse_path, file_exists, parsed_or_none, language_path, legacy_path,
  load_runtime, load_language, runtime_path,
}
use libpolycall_v.Config.Layers.{last_value, parse_config_file_lem}
use libpolycall_v.Config.Store.{config_get}
use libpolycall_v.Config.Preserved.{parse_config_file-IsValid}

-- What a file assigns to a key, if it is there and assigns it.
unfoldable pub file_value : Files → List ℕ → List ℕ → Option (List ℕ)
file_value files path k = elim (files path) [
  | none ↦ none
  | some file ↦ last_value (raw_lines file) k
]

-- The file of the language, or the legacy file in its place.
unfoldable pub language_value : Files → Option (List ℕ) → List ℕ → Option (List ℕ)
language_value files none k = none
language_value files (some name) k =
    if file_exists files (language_path name)
    then file_value files (language_path name) k
    else file_value files legacy_path k

-- A step of the loading that gives something.
pub record Adds (before : PolycallConfig) (value : List ℕ → Option (List ℕ))
    (after : PolycallConfig) : Type 0 where
  pub valid : IsValid before → IsValid after
  pub gets : (k : List ℕ) → config_get after k ≡ or_else (value k) (config_get before k)

parsed_or_none-Adds :
    (config next : PolycallConfig) (file : List ℕ) (layer : ConfigLayer) (o : Parsed)
    → parse_config_file config file layer ≡ o
    → parsed_or_none o ≡ some next
    → Adds config (last_value (raw_lines file)) next
parsed_or_none-Adds config next file layer (stopped c n) e h = absurd (ground (arith, h))
parsed_or_none-Adds config next file layer (parsed out) e h =
    let same : out ≡ next = ground (arith, h) in
    let f : parse_config_file config file layer ≡ parsed next = e ∙ ap parsed same in
    record {
      valid = parse_config_file-IsValid config next file layer f;
      gets = λ k. parse_config_file_lem config next file layer k f;
    }

file_value-found :
    (files : Files) (path file k : List ℕ)
    → files path ≡ some file
    → file_value files path k ≡ last_value (raw_lines file) k
unfolding file_value
file_value-found files path file k f = rw (file_value, f) refl

file_value-missing :
    (files : Files) (path k : List ℕ) → files path ≡ none → file_value files path k ≡ none
unfolding file_value
file_value-missing files path k f = rw (file_value, f) refl

parse_path-found :
    (files : Files) (config : PolycallConfig) (path file : List ℕ) (layer : ConfigLayer)
    → files path ≡ some file
    → parse_path files config path layer ≡ parsed_or_none (parse_config_file config file layer)
unfolding parse_path
parse_path-found files config path file layer f = rw (parse_path, f) refl

parse_path-missing :
    (files : Files) (config : PolycallConfig) (path : List ℕ) (layer : ConfigLayer)
    → files path ≡ none
    → parse_path files config path layer ≡ none
unfolding parse_path
parse_path-missing files config path layer f = rw (parse_path, f) refl

parse_path-Adds :
    (files : Files) (config next : PolycallConfig) (path : List ℕ) (layer : ConfigLayer)
    → parse_path files config path layer ≡ some next
    → Adds config (file_value files path) next
parse_path-Adds files config next path layer e = elim (Option-cases (files path)) [
  | inl f ↦ absurd (ground (arith, e, parse_path-missing files config path layer f))
  | inr (file, f) ↦
      let a =
        parsed_or_none-Adds config next file layer (parse_config_file config file layer) refl
          (sym (parse_path-found files config path file layer f) ∙ e) in
      record {
        valid = a.valid;
        gets = λ k.
            a.gets k
            ∙ ap (λ o. or_else o (config_get config k))
                (sym (file_value-found files path file k f));
      }
]

load_file-parsed :
    (files : Files) (loaded next : Loaded) (path : List ℕ) (layer : ConfigLayer)
    → load_file files loaded path layer ≡ some next
    → parse_path files loaded.config path layer ≡ some next.config
unfolding load_file
load_file-parsed files loaded next path layer e =
    elim (Option-cases (parse_path files loaded.config path layer)) [
      | inl f ↦ absurd (ground (arith, e, f))
      | inr (config, f) ↦ f ∙ ap some (ground (arith, e, f))
    ]

pub load_file-Adds :
    (files : Files) (loaded next : Loaded) (path : List ℕ) (layer : ConfigLayer)
    → load_file files loaded path layer ≡ some next
    → Adds loaded.config (file_value files path) next.config
load_file-Adds files loaded next path layer e =
    parse_path-Adds files loaded.config next.config path layer
      (load_file-parsed files loaded next path layer e)

-- Nothing loaded, nothing changed.
same-Adds :
    (config next : PolycallConfig) (value : List ℕ → Option (List ℕ))
    → config ≡ next
    → ((k : List ℕ) → value k ≡ none)
    → Adds config value next
same-Adds config next value e n = record { valid = λ v. rw (← e) v; gets = λ k. rw (n k, e) refl }

pub load_runtime-Adds :
    (files : Files) (loaded next : Loaded)
    → load_runtime files loaded ≡ some next
    → Adds loaded.config (file_value files runtime_path) next.config
load_runtime-Adds files loaded next e = elim (Option-cases (files runtime_path)) [
  | inl f ↦
      same-Adds loaded.config next.config (file_value files runtime_path) (ground (arith, e, f))
        (λ k. file_value-missing files runtime_path k f)
  | inr (file, f) ↦ load_file-Adds files loaded next runtime_path runtime (ground (arith, e, f))
]

legacy_loaded :
    (files : Files) (loaded next : Loaded) (name : List ℕ)
    → load_language files loaded (some name) ≡ some next
    → file_exists files (language_path name) ≡ false
    → (mid : Loaded) × (load_file files loaded legacy_path language ≡ some mid)
      × (next.config ≡ mid.config)
unfolding load_language
legacy_loaded files loaded next name e f =
    elim (Option-cases (load_file files loaded legacy_path language)) [
      | inl h ↦ absurd (ground (arith, e, f, h))
      | inr (mid, h) ↦ (mid, h, ground (arith, e, f, h))
    ]

pub load_language-Adds :
    (files : Files) (loaded next : Loaded) (name : Option (List ℕ))
    → load_language files loaded name ≡ some next
    → Adds loaded.config (language_value files name) next.config
unfolding load_language language_value
load_language-Adds files loaded next none e =
    same-Adds loaded.config next.config (language_value files none) (ground (arith, e)) (λ k. refl)
load_language-Adds files loaded next (some name) e =
    elim (Bool-cases (file_exists files (language_path name))) [
      | inl f ↦
          let a =
            load_file-Adds files loaded next (language_path name) language (ground (arith, e, f)) in
          record { valid = a.valid; gets = λ k. rw f (a.gets k) }
      | inr f ↦
          let (mid, m, c) = legacy_loaded files loaded next name e f in
          let a = load_file-Adds files loaded mid legacy_path language m in
          record { valid = λ v. rw c (a.valid v); gets = λ k. rw (f, c) (a.gets k) }
    ]
