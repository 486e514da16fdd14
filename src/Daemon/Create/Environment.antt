-- ===== src/Daemon/Create/Environment.antt =====
-- What a VM finds in its environment: the order in which `buildVMEnvMetadata` overrides.
use stockyard.Base.{
  ◌≡◌, ◌&&◌, refl, true, Option, some, [], ◌∷◌, Text, codes, length, ltb, TextMap, find_text,
  or_else, find_text-put_all, text_eq, split_on, trim_space, trim_front, if◌then◌else◌, arith,
}
use stockyard.Daemon.Create.DotEnv.{parse_dot_env, add_lines, add_line}
use stockyard.Daemon.Create.Config.{build_vm_env, dot_env_entries}

abbrev pub hostname_key : Text
hostname_key = codes "STOCKYARD_HOSTNAME"

abbrev pub auth_key_key : Text
auth_key_key = codes "TAILSCALE_AUTH_KEY"

-- What `build_vm_env` gives a container under a key, said key by key.
abbrev pub expected_value : TextMap → TextMap → Text → Text → Text → Option Text
expected_value parsed env auth_key hostname key =
    if text_eq hostname_key key
    then some hostname
    else if text_eq auth_key_key key && ltb 0 (length auth_key)
    then some auth_key
    else or_else (find_text key env) (find_text key parsed)

-- No file, no entries.
find_text-dot_env_entries :
    (key dot_env : Text)
    → find_text key (dot_env_entries dot_env) ≡ find_text key (parse_dot_env dot_env)
unfolding find_text dot_env_entries parse_dot_env split_on add_lines add_line trim_space trim_front
    text_eq
find_text-dot_env_entries key [] = refl
find_text-dot_env_entries key (a ∷ s) =
    ground (arith, find_text-put_all key (parse_dot_env (a ∷ s)) [])

-- A container's environment, key by key: the host name always; then the Tailscale key, where there is
-- one; then the task's own environment; and the entries of the .env file only where nothing else says.
pub container_env_precedence :
    (env : TextMap) (auth_key hostname static_ip_args dot_env key : Text)
    → find_text key (build_vm_env true env auth_key hostname static_ip_args dot_env)
      ≡ expected_value (parse_dot_env dot_env) env auth_key hostname key
unfolding build_vm_env find_text
container_env_precedence env auth_key hostname static_ip_args dot_env key = ground (
  arith,
  find_text-put_all key env (dot_env_entries dot_env),
  find_text-dot_env_entries key dot_env,
)
