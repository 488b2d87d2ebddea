-- ===== src/Commands/Run/Container/Command.antt =====
-- The command of a container that `NewContainer` makes.
use containerd_attributes_cl.Base.{
  Text, List, [], ◌∷◌, ◌++◌, Bool, true, false, not, if◌then◌else◌, is_empty, ok, returns, ◌≡◌,
  refl, ◌∙◌, arith, Result-cases, inl, inr,
}
use containerd_attributes_cl.Base.Proc.{◌>>◌, pure, bind_cases}
use containerd_attributes_cl.Artifact.Services.{Backend}
use containerd_attributes_cl.Image.{config_from_attributes}
use containerd_attributes_cl.Options.Config.{ImageConfig, Spec, no_items, process_or_empty}
use containerd_attributes_cl.Options.Config.Arguments.{SetsUserOnly, with_image_config_args_linux}
use containerd_attributes_cl.Commands.Mount.{MountSpec}
use containerd_attributes_cl.Commands.Run.{RunOptions}
use containerd_attributes_cl.Commands.Run.Container.{
  SpecOpt, Oci, Daemon, parse_mounts, with_mounts, when, with_image_config, spec_opts,
}

-- Options that are applied one after the other, up to the first that fails.
unfoldable pub in_order : List SpecOpt → SpecOpt
in_order [] = pure tt
in_order (o ∷ opts) = o >> in_order opts

-- Where `P` holds before, `Q` holds after, if there is no error.
abbrev Leads : (Spec → Type 0) → SpecOpt → (Spec → Type 0) → Type 0
Leads P m Q = (s : Spec) → P s → (m s).0 ≡ returns (ok tt) → Q (m s).1

abbrev pub args_of : Spec → List Text
args_of s = (process_or_empty s.process).args

abbrev Any : Spec → Type 0
Any s = Unit {0}

abbrev OnLinux : Spec → Type 0
OnLinux s = s.linux ≡ true

abbrev HasArgs : List Text → Spec → Type 0
HasArgs args s = args_of s ≡ args

-- What package oci says of its options: the default spec is one for Linux; devices, variables and
-- mounts leave the platform; the arguments are set by their option, and left by the terminal and the
-- cgroup.
pub record IsLawfulOci (O : Oci) : Type 0 where
  pub users-SetsUserOnly : SetsUserOnly O.users
  pub with_default_spec-linux : Leads Any O.with_default_spec OnLinux
  pub with_default_unix_devices-linux : Leads OnLinux O.with_default_unix_devices OnLinux
  pub with_env-linux : (env : List Text) → Leads OnLinux (O.with_env env) OnLinux
  pub with_mounts-linux : (mounts : List MountSpec) → Leads OnLinux (O.with_mounts mounts) OnLinux
  pub with_process_args-args :
      (args : List Text) → Leads Any (O.with_process_args args) (HasArgs args)
  pub with_tty-args : (args : List Text) → Leads (HasArgs args) O.with_tty (HasArgs args)
  pub with_cgroup-args :
      (path : Text) (args : List Text) → Leads (HasArgs args) (O.with_cgroup path) (HasArgs args)

in_order-cons :
    (P Q R : Spec → Type 0) (m : SpecOpt) (opts : List SpecOpt)
    → Leads P m Q
    → Leads Q (in_order opts) R
    → Leads P (in_order (m ∷ opts)) R
unfolding in_order
in_order-cons P Q R m opts first rest s p =
    bind_cases (λ r t. r ≡ returns (ok tt) → R t) m (λ _. in_order opts) s
      (λ _ e. rest (m s).1 (first s p e)) (λ e _ f. absurd (cc)) (λ _ f. absurd (cc))
      (λ _ f. absurd (cc))

-- An option that is given under a condition.
in_order-when :
    (P Q R : Spec → Type 0) (b : Bool) (m : SpecOpt) (opts : List SpecOpt)
    → (b ≡ true → Leads P m Q)
    → (b ≡ false → (s : Spec) → P s → Q s)
    → Leads Q (in_order opts) R
    → Leads P (in_order (when b (m ∷ []) ++ opts)) R
in_order-when P Q R true m opts given skipped rest = in_order-cons P Q R m opts (given refl) rest
in_order-when P Q R false m opts given skipped rest = λ s p. rest s (skipped refl s p)

in_order-nil : (P : Spec → Type 0) → Leads P (in_order []) P
unfolding in_order
in_order-nil P s p e = p

in_order-last :
    (P : Spec → Type 0) (b : Bool) (m : SpecOpt)
    → Leads P m P
    → Leads P (in_order (when b (m ∷ []))) P
in_order-last P true m given = in_order-cons P P P m [] given (in_order-nil P)
in_order-last P false m given = in_order-nil P

with_mounts-linux :
    (O : Oci) (o : RunOptions) → IsLawfulOci O → Leads OnLinux (with_mounts O o) OnLinux
unfolding with_mounts
with_mounts-linux O o lawful s p e = elim (Result-cases (parse_mounts o.mounts [])) [
  | inl (mounts, q) ↦ ground (arith, q, e, p, lawful.with_mounts-linux mounts s p)
  | inr (f, q) ↦ absurd (ground (arith, q, e))
]

given_args :
    (own args : List Text)
    → not (no_items args) ≡ true
    → args ≡ (if no_items args then own else args)
given_args own args some_ = ground (arith, some_)

own_args :
    (own args : List Text)
    → not (no_items args) ≡ false
    → own ≡ (if no_items args then own else args)
own_args own args none_ = ground (arith, none_)

module _ (B : Backend) (D : Daemon B) (O : Oci) (lawful : IsLawfulOci O) where
  -- If the options of `NewContainer` are applied in their order, to whatever spec, and none fails,
  -- then the process of the container gets the arguments of the command line, if there are any, and
  -- else the entry point of the image's configuration followed by its command.
  pub args-spec_opts :
      (o : RunOptions) (image : D.Image) (c : ImageConfig) (s : Spec)
      → config_from_attributes B (D.services image) ≡ ok c
      → (in_order (spec_opts B D O o image) s).0 ≡ returns (ok tt)
      → args_of (in_order (spec_opts B D O o image) s).1
        ≡ (if no_items o.container_args then c.entrypoint ++ c.cmd else o.container_args)
  unfolding spec_opts
  args-spec_opts o image c s config done =
      let own = c.entrypoint ++ c.cmd in
      let final = if no_items o.container_args then own else o.container_args in
      let configured : Leads OnLinux (with_image_config B D O image) (HasArgs own) = λ t l e.
        rw config ((with_image_config_args_linux O.users c [] t lawful.users-SetsUserOnly l).0) in
      let cgroup =
        in_order-last (HasArgs final) (not (is_empty o.cgroup)) (O.with_cgroup o.cgroup)
          (lawful.with_cgroup-args o.cgroup final) in
      let terminal =
        in_order-when (HasArgs final) (HasArgs final) (HasArgs final) o.tty O.with_tty _
          (λ _. lawful.with_tty-args final) (λ _ t p. p) cgroup in
      let arguments =
        in_order-when (HasArgs own) (HasArgs final) (HasArgs final)
          (not (no_items o.container_args)) (O.with_process_args o.container_args) _
          (λ some_ t p e.
            lawful.with_process_args-args o.container_args t tt e
            ∙ given_args own o.container_args some_)
          (λ none_ t p. p ∙ own_args own o.container_args none_) terminal in
      in_order-cons Any OnLinux (HasArgs final) O.with_default_spec _ lawful.with_default_spec-linux
        (in_order-cons OnLinux OnLinux (HasArgs final) O.with_default_unix_devices _
          lawful.with_default_unix_devices-linux
          (in_order-cons OnLinux OnLinux (HasArgs final) (O.with_env []) _
            (lawful.with_env-linux [])
            (in_order-cons OnLinux OnLinux (HasArgs final) (with_mounts O o) _
              (with_mounts-linux O o lawful)
              (in_order-cons OnLinux (HasArgs own) (HasArgs final) (with_image_config B D O image) _
                configured arguments))))
        s tt done
