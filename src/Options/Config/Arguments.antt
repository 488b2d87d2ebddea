-- ===== src/Options/Config/Arguments.antt =====
-- The command that a container is given, on Linux and on Windows.
use containerd_attributes_cl.Base.{
  Text, ◌<◌, lit, List, ◌++◌, some, true, false, not, ◌||◌, if◌then◌else◌, is_empty, Result, ok,
  err, panics, ◌≡◌, ◌≢◌, ◌↔◌, arith, length,
}
use containerd_attributes_cl.Options.Env.{replace_or_append_env_values}
use containerd_attributes_cl.Options.Config.{
  ImageConfig, Spec, UserOpts, no_items, default_unix_env, process_or_empty, linux_process,
  linux_config, windows_args, windows_config, with_image_config_args, uid_of,
}

-- Setting the user leaves the rest of the process, and the sections, as they were.
abbrev pub SameCommand : Spec → Spec → Type 0
SameCommand s t =
    ((process_or_empty t.process).args ≡ (process_or_empty s.process).args)
    × ((process_or_empty t.process).env ≡ (process_or_empty s.process).env)
    × ((process_or_empty t.process).cwd ≡ (process_or_empty s.process).cwd)

pub record SetsUserOnly (U : UserOpts) : Type 0 where
  pub with_user-SameCommand : (u : Text) (s : Spec) → SameCommand s (U.with_user u s).1
  pub with_gids-SameCommand : (g : Text) (s : Spec) → SameCommand s (U.with_additional_gids g s).1

-- On Linux a process gets, whatever comes of setting its user: the image's entry point followed by
-- the arguments of the user, or by the image's command if there are none; the image's environment,
-- or the default one, under the variables that the spec has already; and the image's working
-- directory, or the root.
pub with_image_config_args_linux :
    (U : UserOpts) (c : ImageConfig) (args : List Text) (s : Spec)
    → SetsUserOnly U
    → s.linux ≡ true
    → let p = process_or_empty (with_image_config_args U (ok c) args s).1.process in
      (p.args ≡ c.entrypoint ++ (if no_items args then c.cmd else args))
      × (p.env
          ≡ replace_or_append_env_values
              (if no_items c.env then default_unix_env else c.env)
              (process_or_empty s.process).env)
      × (p.cwd ≡ (if is_empty c.working_dir then lit "/" else c.working_dir))
unfolding with_image_config_args linux_config linux_process
with_image_config_args_linux U c args s only l =
    let t = record s { process = some (linux_process c args (process_or_empty s.process)) } in
    let user = U.with_user c.user t in
    ground (
      arith,
      l,
      only.with_gids-SameCommand (lit "root") t,
      only.with_user-SameCommand c.user t,
      only.with_gids-SameCommand (U.decimal (uid_of user.1)) user.1,
    )

-- On Linux `WithImageConfigArgs` does not panic.
pub with_image_config_args-ne-panics :
    (U : UserOpts) (c : Result ImageConfig) (args : List Text) (s : Spec)
    → s.linux ≡ true
    → (with_image_config_args U c args s).0 ≢ panics
unfolding with_image_config_args linux_config
with_image_config_args-ne-panics U (err e) args s l = λ p. cc
with_image_config_args-ne-panics U (ok c) args s l = ground arith

-- On Windows it panics just where the image's command is escaped already, comes from the image or
-- follows an entry point, and has more than one word.
pub with_image_config_args_windows :
    (U : UserOpts) (c : ImageConfig) (args : List Text) (s : Spec)
    → s.linux ≡ false
    → s.windows ≡ true
    → ((with_image_config_args U (ok c) args s).0 ≡ panics) ↔ (
        (c.args_escaped ≡ true)
        × (not (no_items c.entrypoint) || no_items args ≡ true)
        × (1 < length (c.entrypoint ++ (if no_items args then c.cmd else args))))
unfolding with_image_config_args windows_config windows_args
with_image_config_args_windows U c args s l w = (λ p. ground arith, λ p. ground arith)
