-- ===== src/Runtime/Table.antt =====
-- The table of port mappings stays in bounds, and no port in it is given twice.
use libpolycall_v.Prelude.{
  none, some, [], ◌∷◌, true, List, ℕ, ◌≡◌, length, arith, Option, if_rule, ◌+◌, Bool, not,
  length-append, leb, ◌||◌, text_of, ltb,
}
use libpolycall_v.Runtime.{
  went, Attempt, PpiRuntime, max_ports, with_handlers, max_programs, followed_by, started,
}
use libpolycall_v.Runtime.Ports.{
  is_port_available, validate_port_mapping, new_mapping, add_port_mapping, MappingAnswers, mapped,
  program_on,
}
use libpolycall_v.Runtime.Services.{
  config_file_line, config_file_lines, ServiceEntry, discover_entry, discover_from,
  init_with_directory, process_config_file, discovered, discover_and_init_services, configured_by,
  init_under, BasePath, is_comment, file_lines, is_passed_over, init_directory_control,
  scan_service, service_line, add_service, entry_ports, count_if,
}
use libpolycall_v.Network.{NetworkProgram}
use libpolycall_v.Runtime.Apart.{IsPorts, AllGoes, HasPorts, followed_by-AllGoes, append-AllApart}

mapped-HasPorts :
    (runtime : PpiRuntime) (host container : ℕ) (o : Option NetworkProgram)
    → IsPorts runtime
    → validate_port_mapping (new_mapping host container) ≡ true
    → is_port_available runtime.port_mappings host ≡ true
    → is_port_available runtime.port_mappings container ≡ true
    → AllGoes HasPorts (mapped runtime (new_mapping host container) o)
unfolding started
mapped-HasPorts runtime host container none w v h c = w
mapped-HasPorts runtime host container (some program) w v h c =
    let m = length-append runtime.port_mappings (new_mapping host container ∷ []) in
    let n = length-append runtime.programs (with_handlers program ∷ []) in
    let apart = append-AllApart runtime.port_mappings host container w.apart v h c in
    if_rule (λ (o : Attempt PpiRuntime). AllGoes HasPorts (followed_by o (λ r. went (r, true))))
      (leb max_programs (length runtime.programs))
      (λ t. record {
        programs_eq = ground (arith, t, w.programs_le);
        mappings_eq = ground (arith, t, m, w.programs_le, w.programs_eq);
        apart = apart;
      })
      (λ f. record {
        programs_le = ground (arith, f, n);
        apart = apart;
        programs_eq = omega (arith, m, n, w.programs_eq);
      })

add_port_mapping-HasPorts :
    (os : MappingAnswers) (runtime : PpiRuntime) (name : Option (List ℕ)) (host container : ℕ)
    → IsPorts runtime
    → AllGoes HasPorts (add_port_mapping os runtime name host container)
unfolding add_port_mapping
add_port_mapping-HasPorts os runtime none host container w = w
add_port_mapping-HasPorts os runtime (some name) host container w =
    let P : Attempt (PpiRuntime × Bool) → Type 0 = AllGoes HasPorts in
    if_rule P (not (validate_port_mapping (new_mapping host container))) (λ t. w)
      (λ f.
        if_rule P (leb max_ports (length runtime.port_mappings)) (λ t. w)
          (λ g.
            if_rule P
              (not (is_port_available runtime.port_mappings host)
                || not (is_port_available runtime.port_mappings container))
              (λ t. w)
              (λ a.
                if_rule P (not os.directory) (λ t. w)
                  (λ d.
                    mapped-HasPorts runtime host container (program_on os.program container) w
                      (ground (arith, f)) (ground (arith, a)) (ground (arith, a))))))

service_line-IsPorts :
    (os : MappingAnswers) (runtime : PpiRuntime) (o : Option (List ℕ × ℕ × ℕ))
    → IsPorts runtime
    → AllGoes IsPorts (service_line os runtime o)
service_line-IsPorts os runtime none w = w
service_line-IsPorts os runtime (some (service, host, container)) w =
    followed_by-AllGoes HasPorts IsPorts (add_port_mapping os runtime (some service) host container)
      (λ r. went r.0) (add_port_mapping-HasPorts os runtime (some service) host container w)
      (λ r p. p)

config_file_line-IsPorts :
    (os : MappingAnswers) (runtime : PpiRuntime) (line : List ℕ)
    → IsPorts runtime
    → AllGoes IsPorts (config_file_line os runtime line)
unfolding config_file_line
config_file_line-IsPorts os runtime line w =
    if_rule (AllGoes IsPorts) (is_comment line) (λ t. w)
      (λ f. service_line-IsPorts os runtime (scan_service (text_of line)) w)

config_file_lines-IsPorts :
    (os : ℕ → MappingAnswers) (n : ℕ) (runtime : PpiRuntime) (lines : List (List ℕ))
    → IsPorts runtime
    → AllGoes IsPorts (config_file_lines os n runtime lines)
unfolding config_file_lines
config_file_lines-IsPorts os n runtime [] w = w
config_file_lines-IsPorts os n runtime (line ∷ lines) w =
    followed_by-AllGoes IsPorts IsPorts (config_file_line (os n) runtime line)
      (λ next. config_file_lines os (n + 1) next lines)
      (config_file_line-IsPorts (os n) runtime line w)
      (λ next p. config_file_lines-IsPorts os (n + 1) next lines p)

process_config_file-HasPorts :
    (os : ℕ → MappingAnswers) (file : Option (List ℕ)) (runtime : PpiRuntime)
    → IsPorts runtime
    → AllGoes HasPorts (process_config_file os file runtime)
process_config_file-HasPorts os none runtime w = w
process_config_file-HasPorts os (some file) runtime w =
    followed_by-AllGoes IsPorts HasPorts (config_file_lines os 0 runtime (file_lines file))
      (λ next. went (next, true)) (config_file_lines-IsPorts os 0 runtime (file_lines file) w)
      (λ next p. p)

discovered-HasPorts :
    (runtime : PpiRuntime) (found : ℕ) (entry : ServiceEntry) (o : Option (List ℕ))
    → IsPorts runtime
    → AllGoes HasPorts (discovered runtime found entry o)
discovered-HasPorts runtime found entry none w = w
discovered-HasPorts runtime found entry (some file) w =
    followed_by-AllGoes HasPorts HasPorts (add_service entry (entry_ports found file) runtime)
      (λ r. went (r.0, count_if r.1 found))
      (add_port_mapping-HasPorts entry.answers runtime (some entry.name) _ _ w) (λ r p. p)

discover_entry-HasPorts :
    (base_path : List ℕ) (runtime : PpiRuntime) (found : ℕ) (entry : ServiceEntry)
    → IsPorts runtime
    → AllGoes HasPorts (discover_entry base_path (runtime, found) entry)
unfolding discover_entry
discover_entry-HasPorts base_path runtime found entry w =
    if_rule (λ (o : Attempt (PpiRuntime × ℕ)). AllGoes HasPorts o) (is_passed_over base_path entry)
      (λ t. w) (λ f. discovered-HasPorts runtime found entry entry.config w)

discover_from-HasPorts :
    (base_path : List ℕ) (runtime : PpiRuntime) (found : ℕ) (entries : List ServiceEntry)
    → IsPorts runtime
    → AllGoes HasPorts (discover_from base_path (runtime, found) entries)
unfolding discover_from
discover_from-HasPorts base_path runtime found [] w = w
discover_from-HasPorts base_path runtime found (entry ∷ entries) w =
    followed_by-AllGoes HasPorts HasPorts (discover_entry base_path (runtime, found) entry)
      (λ next. discover_from base_path next entries)
      (discover_entry-HasPorts base_path runtime found entry w)
      (λ next p. discover_from-HasPorts base_path next.0 next.1 entries p)

discover_and_init_services-HasPorts :
    (base_path : List ℕ) (entries : Option (List ServiceEntry)) (runtime : PpiRuntime)
    → IsPorts runtime
    → AllGoes HasPorts (discover_and_init_services base_path entries runtime)
discover_and_init_services-HasPorts base_path none runtime w = w
discover_and_init_services-HasPorts base_path (some entries) runtime w =
    followed_by-AllGoes HasPorts HasPorts (discover_from base_path (runtime, 0) entries)
      (λ r. went (r.0, ltb 0 r.1)) (discover_from-HasPorts base_path runtime 0 entries w) (λ r p. p)

configured_by-IsPorts :
    (os : ℕ → MappingAnswers) (config_file : Option (Option (List ℕ))) (runtime : PpiRuntime)
    → IsPorts runtime
    → AllGoes IsPorts (configured_by os config_file runtime)
configured_by-IsPorts os none runtime w = w
configured_by-IsPorts os (some file) runtime w =
    followed_by-AllGoes HasPorts IsPorts (process_config_file os file runtime) (λ r. went r.0)
      (process_config_file-HasPorts os file runtime w) (λ r p. p)

init_under-HasPorts :
    (os : ℕ → MappingAnswers) (config_file : Option (Option (List ℕ)))
    (entries : Option (List ServiceEntry)) (runtime : PpiRuntime) (path : Option (List ℕ))
    → IsPorts runtime
    → AllGoes HasPorts (init_under os config_file entries runtime path)
init_under-HasPorts os config_file entries runtime none w = w
init_under-HasPorts os config_file entries runtime (some path) w =
    followed_by-AllGoes IsPorts HasPorts (configured_by os config_file runtime) _
      (configured_by-IsPorts os config_file runtime w)
      (λ configured p.
        followed_by-AllGoes HasPorts HasPorts (discover_and_init_services path entries configured)
          (λ r. went (r.0, true)) (discover_and_init_services-HasPorts path entries configured p)
          (λ r q. q))

-- From a table of at most 8 active mappings with ports that are not 0 and shared by no two of
-- them, and one program for each, a configuration file and the directories of a base path lead
-- to such a table and such programs, or to a write past the array of programs, before which
-- all its 8 places are taken and the table has a ninth mapping, which shares no port either.
pub init_with_directory-IsPorts :
    (os : ℕ → MappingAnswers) (base : BasePath) (config_file : Option (Option (List ℕ)))
    (entries : Option (List ServiceEntry)) (runtime : PpiRuntime)
    → IsPorts runtime
    → AllGoes HasPorts (init_with_directory os base config_file entries runtime)
unfolding init_with_directory
init_with_directory-IsPorts os base config_file entries runtime w =
    init_under-HasPorts os config_file entries runtime (init_directory_control base) w
