-- ===== src/Policy/Names.antt =====
-- crates/serctl_policy/src/lib.rs: the rules on program names, identities and environment keys.
use serctl.Common.{
  Bytes, Result, lit, one_of, starts_with, ascii_lower, none, some, false, ok, err, [], ℕ, Option,
  Bool, ◌>>◌, List, if◌then◌else◌, ltb, ◌∷◌, bytes_eq, is_ascii_alphanumeric, ◌==◌, ◌||◌, length,
  ◌*◌, contains_byte, ensure, ◌+◌, not, has_control, ◌-◌, is_empty, is_ascii_digit, ◌&&◌, ◌^◌, all,
  is_ascii_uppercase, strip_suffix,
}
use serctl.Policy.Defs.{
  ReasonCode, RunAs, uid, max_program_bytes, max_env_name_bytes, invariant_command_interpreter,
  invariant_root_run_as, invariant_dangerous_program, user, policy_limit_exceeded,
  max_identity_bytes, invariant_control_character, schema_invalid, invariant_environment_injection,
}

unfoldable pub validate_plain_text : Bytes → ℕ → Result ReasonCode (Unit {0})
validate_plain_text value max_bytes =
    if ltb max_bytes (length value)
    then err policy_limit_exceeded
    else if has_control value
    then err invariant_control_character
    else ok tt

-- `str::parse::<u32>` of the digits that are left
unfoldable pub parse_digits : ℕ → Bytes → Option ℕ
parse_digits acc [] = some acc
parse_digits acc (b ∷ s) =
    let rest = parse_digits (acc * 10 + (b - 48)) s in
    if is_ascii_digit b && ltb (acc * 10 + (b - 48)) (2 ^ 32) then rest else none

-- `str::parse::<u32>`: an optional plus sign and at least one digit.
unfoldable pub parse_u32 : Bytes → Option ℕ
unfolding parse_digits
parse_u32 [] = none
parse_u32 (b ∷ []) = parse_digits 0 (b ∷ [])
parse_u32 (b ∷ c ∷ s) = if b == 43 then parse_digits 0 (c ∷ s) else parse_digits 0 (b ∷ c ∷ s)

unfoldable pub is_root_alias : Bytes → Bool
unfolding parse_u32
is_root_alias name =
    bytes_eq (ascii_lower name) (lit "root")
    || elim (parse_u32 name) [ none ↦ false | some value ↦ value == 0 ]

abbrev pub is_account_byte : ℕ → Bool
is_account_byte b = is_ascii_alphanumeric b || contains_byte b (lit "_.-")

unfoldable pub validate_run_as : RunAs → Result ReasonCode RunAs
unfolding validate_plain_text is_root_alias
validate_run_as (uid value) = if value == 0 then err invariant_root_run_as else ok (uid value)
validate_run_as (user name) = do
  validate_plain_text name max_identity_bytes
  ensure (not (is_root_alias name)) invariant_root_run_as
  ensure (not (is_empty name) && all is_account_byte name) schema_invalid
  ok (user name)

unfoldable pub normalize_program_identifier : Bytes → Result ReasonCode Bytes
unfolding validate_plain_text strip_suffix
normalize_program_identifier program = do
  validate_plain_text program max_program_bytes
  ensure
      (not (is_empty program)
        && all (λ b. is_ascii_alphanumeric b || contains_byte b (lit "._-")) program)
      schema_invalid
  elim (strip_suffix (lit ".exe") (ascii_lower program)) [
    | none ↦ ok (ascii_lower program)
    | some without_suffix ↦ ok without_suffix
  ]

unfoldable pub is_dangerous_env_key : Bytes → Bool
is_dangerous_env_key key =
    bytes_eq key (lit "PATH")
    || bytes_eq key (lit "IFS")
    || bytes_eq key (lit "ENV")
    || bytes_eq key (lit "BASH_ENV")
    || bytes_eq key (lit "SHELLOPTS")
    || bytes_eq key (lit "PYTHONPATH")
    || starts_with (lit "LD_") key
    || starts_with (lit "DYLD_") key

unfoldable pub normalize_env_key : Bytes → Result ReasonCode Bytes
unfolding validate_plain_text is_dangerous_env_key
normalize_env_key key = do
  validate_plain_text key max_env_name_bytes
  ensure (not (is_empty key) && all (λ b. is_ascii_uppercase b || is_ascii_digit b || b == 95) key)
      schema_invalid
  ensure (not (is_dangerous_env_key key)) invariant_environment_injection
  ok key

abbrev pub command_interpreters : List Bytes
command_interpreters =
    lit "sh"
    ∷ lit "bash"
    ∷ lit "dash"
    ∷ lit "zsh"
    ∷ lit "ksh"
    ∷ lit "fish"
    ∷ lit "csh"
    ∷ lit "tcsh"
    ∷ lit "cmd"
    ∷ lit "powershell"
    ∷ lit "pwsh"
    ∷ lit "wscript"
    ∷ lit "cscript"
    ∷ lit "mshta"
    ∷ lit "python"
    ∷ lit "python3"
    ∷ lit "perl"
    ∷ lit "ruby"
    ∷ lit "node"
    ∷ lit "osascript"
    ∷ []

unfoldable pub is_command_interpreter : Bytes → Bool
unfolding one_of
is_command_interpreter program = one_of program command_interpreters

abbrev pub dangerous_programs : List Bytes
dangerous_programs =
    lit "rm"
    ∷ lit "rmdir"
    ∷ lit "dd"
    ∷ lit "mkfs"
    ∷ lit "fdisk"
    ∷ lit "sfdisk"
    ∷ lit "cfdisk"
    ∷ lit "parted"
    ∷ lit "wipefs"
    ∷ lit "shred"
    ∷ lit "chmod"
    ∷ lit "chown"
    ∷ lit "chgrp"
    ∷ lit "setfacl"
    ∷ lit "mount"
    ∷ lit "umount"
    ∷ lit "reboot"
    ∷ lit "shutdown"
    ∷ lit "poweroff"
    ∷ lit "halt"
    ∷ lit "init"
    ∷ lit "systemctl"
    ∷ lit "sudo"
    ∷ lit "su"
    ∷ lit "doas"
    ∷ lit "pkexec"
    ∷ lit "reg"
    ∷ lit "regedit"
    ∷ lit "sc"
    ∷ lit "net"
    ∷ lit "netsh"
    ∷ lit "diskpart"
    ∷ lit "format"
    ∷ lit "bcdedit"
    ∷ lit "cipher"
    ∷ lit "takeown"
    ∷ lit "icacls"
    ∷ []

unfoldable pub is_dangerous_program : Bytes → Bool
unfolding one_of
is_dangerous_program program =
    starts_with (lit "mkfs.") program || one_of program dangerous_programs

unfoldable pub validate_program_invariant : Bytes → Result ReasonCode (Unit {0})
unfolding is_command_interpreter is_dangerous_program
validate_program_invariant program =
    if is_command_interpreter program
    then err invariant_command_interpreter
    else if is_dangerous_program program
    then err invariant_dangerous_program
    else ok tt

unfoldable pub is_shell_command_flag : Bytes → Bool
unfolding one_of
is_shell_command_flag argument =
    one_of (ascii_lower argument)
      (lit "-c" ∷ lit "/c" ∷ lit "--command" ∷ lit "-command" ∷ lit "-encodedcommand" ∷ [])
