-- ===== src/Options/Config.antt =====
-- aritfact/options/options.go, `WithImageConfigArgs`: the spec's process from the image's
-- configuration and the arguments of the user. oci.WithUser and oci.WithAdditionalGIDs are
-- parameters.
pub mod Arguments
use containerd_attributes_cl.Base.{
  Text, ℕ, lit, List, [], ◌∷◌, ◌++◌, Option, none, some, Bool, true, false, not, ◌&&◌, ◌||◌,
  if◌then◌else◌, is_empty, Error, message, Result, ok, err, Done, Run, returns, panics, spins,
}
use containerd_attributes_cl.Options.Env.{replace_or_append_env_values}

-- ocispec.ImageConfig, as far as it is used
pub record ImageConfig : Type 0 where
  pub user : Text
  pub env : List Text
  pub entrypoint : List Text
  pub cmd : List Text
  pub working_dir : Text
  pub stop_signal : Text
  pub args_escaped : Bool

pub record User : Type 0 where
  pub uid : ℕ
  pub username : Text

pub record Process : Type 0 where
  pub user : User
  pub args : List Text
  pub command_line : Text
  pub env : List Text
  pub cwd : Text

-- specs.Spec: whether it has a Linux and a Windows section, and its process.
pub record Spec : Type 0 where
  pub linux : Bool
  pub windows : Bool
  pub process : Option Process

abbrev pub no_process : Process
no_process = record {
  user = record { uid = 0; username = [] };
  args = [];
  command_line = [];
  env = [];
  cwd = [];
}

abbrev pub no_items : List Text → Bool
no_items [] = true
no_items (x ∷ xs) = false

pub default_unix_env : List Text
unfolding lit
default_unix_env = lit "PATH=/usr/local/sbin:/usr/local/bin:/usr/sbin:/usr/bin:/sbin:/bin" ∷ []

-- `setProcess`, and the process that is there after it
abbrev pub process_or_empty : Option Process → Process
process_or_empty none = no_process
process_or_empty (some p) = p

-- `escapeAndCombineArgs`
pub escape_and_combine_args : {A : Type 0} → List Text → Run A
escape_and_combine_args args = panics

-- oci.WithUser and oci.WithAdditionalGIDs, which change the spec and may fail; strconv for an id.
pub record UserOpts : Type 0 where
  pub with_user : Text → Spec → Done × Spec
  pub with_additional_gids : Text → Spec → Done × Spec
  pub decimal : ℕ → Text

-- The process on Linux, before the user is set.
pub linux_process : ImageConfig → List Text → Process → Process
linux_process config args p =
    let defaults = if no_items config.env then default_unix_env else config.env in
    let cmd = if no_items args then config.cmd else args in
    record p {
      env = replace_or_append_env_values defaults p.env;
      args = config.entrypoint ++ cmd;
      cwd = if is_empty config.working_dir then lit "/" else config.working_dir;
    }

abbrev uid_of : Spec → ℕ
uid_of s = (process_or_empty s.process).user.uid

abbrev ran : Done × Spec → Run (Unit {0}) × Spec
ran (r, s) = (returns r, s)

module _ (U : UserOpts) where
  abbrev with_uid_gids : Done × Spec → Run (Unit {0}) × Spec
  with_uid_gids (err e, s) = (returns (err e), s)
  with_uid_gids (ok _, s) = ran (U.with_additional_gids (U.decimal (uid_of s)) s)

  pub linux_config : ImageConfig → List Text → Spec → Run (Unit {0}) × Spec
  unfolding linux_process default_unix_env
  linux_config config args s =
      let t = record s {
        process = some (linux_process config args (process_or_empty s.process));
      } in
      if is_empty config.user
      then ran (U.with_additional_gids (lit "root") t)
      else with_uid_gids (U.with_user config.user t)

-- The arguments on Windows: the whole command, or the escaped command line.
pub windows_args : ImageConfig → List Text → Process → Run Process
unfolding escape_and_combine_args
windows_args config args p =
    let cmd = config.entrypoint ++ (if no_items args then config.cmd else args) in
    elim cmd [
      | [] ↦ returns (err (message (lit "no arguments specified")))
      | c ∷ rest ↦
          if config.args_escaped && (not (no_items config.entrypoint) || no_items args)
          then (if no_items rest
              then returns (ok (record p { args = []; command_line = c }))
              else escape_and_combine_args rest)
          else returns (ok (record p { args = c ∷ rest; command_line = [] }))
    ]

abbrev windows_done : ImageConfig → Spec → Process → Run Process → Run (Unit {0}) × Spec
windows_done config s q (returns (ok p)) = (
  returns (ok tt),
  record s {
    process =
        some (record p {
          cwd = config.working_dir;
          user = record { uid = 0; username = config.user };
        });
  },
)
windows_done config s q (returns (err e)) = (returns (err e), record s { process = some q })
windows_done config s q panics = (panics, record s { process = some q })
windows_done config s q spins = (spins, record s { process = some q })

pub windows_config : ImageConfig → List Text → Spec → Run (Unit {0}) × Spec
unfolding windows_args
windows_config config args s =
    let p = process_or_empty s.process in
    let q = record p { env = replace_or_append_env_values config.env p.env } in
    windows_done config s q (windows_args config args q)

-- `WithImageConfigArgs`, at the configuration that the image gives or the error.
unfoldable pub with_image_config_args :
    UserOpts → Result ImageConfig → List Text → Spec → Run (Unit {0}) × Spec
unfolding linux_config windows_config
with_image_config_args U (err e) args s = (returns (err e), s)
with_image_config_args U (ok config) args s =
    if s.linux
    then linux_config U config args s
    else if s.windows
    then windows_config config args s
    else (
      returns (err (message (lit "spec does not contain Linux or Windows section"))),
      record s { process = some (process_or_empty s.process) },
    )

-- `WithImageConfig`
unfoldable pub with_image_config : UserOpts → Result ImageConfig → Spec → Run (Unit {0}) × Spec
unfolding with_image_config_args
with_image_config U config s = with_image_config_args U config [] s
