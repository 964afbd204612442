-- ===== src/Runtime/Tests.antt =====
-- Runs of the program's runtime, and the theorems at them.
use mathlib.Core.Option
use libpolycall_v.Prelude.{
  text_of, drop_while, take_while, number_from, none, some, true, false, refl, [], ◌∷◌, List, ℕ,
  codes, ◌++◌, ◌≡◌, arith, map, length, Bool,
}
use libpolycall_v.Runtime.Ports.{MappingAnswers, add_port_mapping, is_port_available}
use libpolycall_v.Runtime.Services.{
  config_file_lines, config_file_line, init_with_directory, scan_service, scan_ports,
  process_config_file,
}
use libpolycall_v.Runtime.Commands.{
  CommandAnswers, console_line, strtok, console_command, process_command, handle, cmd_init,
  cmd_add_state,
}
use libpolycall_v.Machine.Default.{Callbacks}
use libpolycall_v.Runtime.{
  PpiRuntime, zero_runtime, configure_network_port, history_size, Attempt, went, overran, started,
  followed_by,
}
use libpolycall_v.Runtime.Apart.{AllApart, AllGoes, HasPorts}
use libpolycall_v.Runtime.Table.{init_with_directory-IsPorts}
use libpolycall_v.Runtime.History.{add_all, last, cut_to_place, add_to_history}
use libpolycall_v.Network.Endpoint.{bare_program}
use libpolycall_v.Config.Text.{cut, same_text, strtoul, unsigned_digits}
use libpolycall_v.Network.{zero_endpoint}
use libpolycall_v.Config.Lines.{chunks, scan_word}
use libpolycall_v.Config.Commands.{behind}
use libpolycall_v.Runtime.Remembered.{add_all_lem}

abbrev up : MappingAnswers
up = record {
  directory = true;
  program = some (record bare_program { endpoints = zero_endpoint ∷ [] });
}

abbrev nine_servers : List ℕ
nine_servers =
    codes "server a 1:11"
    ++ 10
      ∷ (codes "server b 2:12"
          ++ 10
            ∷ (codes "server c 3:13"
                ++ 10
                  ∷ (codes "server d 4:14"
                      ++ 10
                        ∷ (codes "server e 5:15"
                            ++ 10
                              ∷ (codes "server f 6:16"
                                  ++ 10
                                    ∷ (codes "server g 7:17"
                                        ++ 10
                                          ∷ (codes "server h 8:18"
                                              ++ 10 ∷ (codes "server i 9:19" ++ 10 ∷ []))))))))

abbrev summary_of : Bool → PpiRuntime → Bool × ℕ × ℕ
summary_of through runtime = (through, length runtime.programs, length runtime.port_mappings)

-- Whether a run came through, and the sizes of the two tables.
abbrev summary {ℓ} : {A : Type ℓ} → Attempt (PpiRuntime × A) → Bool × ℕ × ℕ
summary (went (runtime, a)) = summary_of true runtime
summary (overran runtime) = summary_of false runtime

-- Nine programs where there is place for eight.
nine_programs :
    summary (process_config_file (λ n. up) (some nine_servers) zero_runtime) ≡ (false, 8, 9)
unfolding config_file_lines config_file_line chunks scan_service behind scan_word scan_ports strtoul
    unsigned_digits add_port_mapping is_port_available configure_network_port started text_of
    drop_while take_while number_from
nine_programs = refl

two_servers :
    summary (
      process_config_file
        (λ n. up)
        (some (codes "server a 80:8080" ++ 10 ∷ codes "server b 81:8081"))
        zero_runtime)
    ≡ (true, 2, 2)
unfolding config_file_lines config_file_line chunks scan_service behind scan_word scan_ports strtoul
    unsigned_digits add_port_mapping is_port_available configure_network_port started text_of
    drop_while take_while number_from
two_servers = refl

-- A second service with a port of the first is refused.
conflict :
    summary (
      followed_by
        (add_port_mapping up zero_runtime (some (codes "a")) 80 8080)
        (λ r. add_port_mapping up r.0 (some (codes "b")) 81 8080))
    ≡ (true, 1, 1)
unfolding add_port_mapping is_port_available configure_network_port started
conflict = refl

abbrev at_once : CommandAnswers
at_once = record { program = none; allocated = true; now = λ n. 0 }

abbrev no_callbacks : Callbacks
no_callbacks = record { on_init = 0; on_ready = 0; on_running = 0; on_paused = 0; on_error = 0 }

abbrev up_runtime : PpiRuntime
up_runtime = record zero_runtime { pc_ctx = 1; running = true }

-- A line of blanks alone has no command to compare.
blanks : console_line at_once no_callbacks up_runtime (codes "  " ++ 10 ∷ []) ≡ none
unfolding console_line cut text_of drop_while take_while strtok
blanks = refl

-- The history has the command without its argument.
only_command :
    Option.map
      (λ r. r.command_history)
      (console_line at_once no_callbacks up_runtime (codes "help me" ++ 10 ∷ []))
    ≡ some (codes "help" ∷ [])
unfolding console_line cut text_of drop_while take_while strtok console_command process_command
    handle same_text add_to_history cmd_init cmd_add_state
only_command = refl

init_with_directory-IsPorts_example : AllGoes HasPorts (
    init_with_directory
      (λ n. up)
      (record { path = some (codes "/srv"); is_directory = true; opens = true })
      (some (some nine_servers))
      (some [])
      zero_runtime)
unfolding AllApart
init_with_directory-IsPorts_example =
    init_with_directory-IsPorts (λ n. up)
      (record { path = some (codes "/srv"); is_directory = true; opens = true })
      (some (some nine_servers)) (some []) zero_runtime
      (record { programs_le = omega arith; apart = tt; programs_eq = refl })

add_all_lem_example :
    add_all [] (codes "help" ∷ codes "init" ∷ [])
    ≡ last history_size (map cut_to_place (codes "help" ∷ codes "init" ∷ []))
add_all_lem_example = add_all_lem (codes "help" ∷ codes "init" ∷ [])
