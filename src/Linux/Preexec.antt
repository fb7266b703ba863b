-- ===== src/Linux/Preexec.antt =====
-- What the child does before the command runs: the calls that must succeed, and all calls in order.
use vpn_passthrough.Prelude.{
  ℕ, ◌≡◌, refl, ap₂, Bool-cases, inl, inr, ◌∙◌, Bool, true, false, ◌&&◌, some, List, [], ◌∷◌, ◌++◌,
  map, or_else,
}
use vpn_passthrough.Linux.{
  newns, newnet, newuts, newipc, newcgroup, Call, setns, close, join, keep_caps, initgroups, setuid,
  capset, raise_ambient, chdir, ChildFds, Options, cap_mask, container_caps, caps_to_use, perform,
  preexec,
}
use vpn_passthrough.Linux.Straight.{
  when, all_succeed, Straight, Straight-perform, Straight-bind, Straight-enter, Straight-join,
  Straight-raise, Straight-chdir, Straight-caps,
}

-- The capabilities that the caller asks for, or the 14 that containers have by default.
abbrev pub wanted_caps : Options → List ℕ
wanted_caps o =
    or_else o.ambient_capabilities
      (0 ∷ 1 ∷ 3 ∷ 4 ∷ 5 ∷ 6 ∷ 7 ∷ 8 ∷ 10 ∷ 13 ∷ 18 ∷ 27 ∷ 29 ∷ 31 ∷ [])

-- From where all capabilities are kept: the supplementary groups and the user are changed, the same
-- words are put into all three sets, and each capability is raised. No call changes the group.
abbrev pub drop_calls : Options → ℕ × ℕ → List Call
drop_calls o mask =
    keep_caps
      ∷ initgroups o.username o.gid
      ∷ setuid o.uid
      ∷ capset (record { effective = mask.0; permitted = mask.0; inheritable = mask.0 })
          (record { effective = mask.1; permitted = mask.1; inheritable = mask.1 })
      ∷ map raise_ambient (wanted_caps o)
    ++ when o.cwd (λ cwd. chdir cwd ∷ [])

-- The calls without which the command does not run.
abbrev pub required_calls : Options → ChildFds → ℕ × ℕ → List Call
required_calls o fds mask =
    setns fds.mnt newns
      ∷ close fds.mnt
      ∷ setns fds.net newnet
      ∷ close fds.net
      ∷ when fds.cgroup_ns (λ fd. close fd ∷ [])
    ++ (when fds.uts (λ fd. close fd ∷ [])
        ++ (when fds.ipc (λ fd. close fd ∷ [])
            ++ (when fds.cgroup_procs (λ fd. close fd ∷ []) ++ drop_calls o mask)))

-- All calls, in the order in which they are made.
abbrev pub planned_calls : Options → ChildFds → ℕ × ℕ → List Call
planned_calls o fds mask =
    setns fds.mnt newns
      ∷ close fds.mnt
      ∷ setns fds.net newnet
      ∷ close fds.net
      ∷ when fds.cgroup_ns (λ fd. setns fd newcgroup ∷ close fd ∷ [])
    ++ (when fds.uts (λ fd. setns fd newuts ∷ close fd ∷ [])
        ++ (when fds.ipc (λ fd. setns fd newipc ∷ close fd ∷ [])
            ++ (when fds.cgroup_procs (λ fd. join fd ∷ close fd ∷ []) ++ drop_calls o mask)))

module _ (succeeds : Call → Bool) (o : Options) (fds : ChildFds) (mask : ℕ × ℕ)
    (built : cap_mask (wanted_caps o) (0, 0) ≡ some mask) where
  preexec-Straight :
      Straight succeeds
        (preexec succeeds o fds)
        (required_calls o fds mask)
        (planned_calls o fds mask)
  unfolding preexec caps_to_use container_caps
  preexec-Straight = rw built (
      Straight-bind succeeds (Straight-perform succeeds (setns fds.mnt newns)) (
        Straight-bind succeeds (Straight-perform succeeds (close fds.mnt)) (
          Straight-bind succeeds (Straight-perform succeeds (setns fds.net newnet)) (
            Straight-bind succeeds (Straight-perform succeeds (close fds.net)) (
              Straight-bind succeeds (Straight-enter succeeds newcgroup fds.cgroup_ns) (
                Straight-bind succeeds (Straight-enter succeeds newuts fds.uts) (
                  Straight-bind succeeds (Straight-enter succeeds newipc fds.ipc) (
                    Straight-bind succeeds (Straight-join succeeds fds.cgroup_procs) (
                      Straight-bind succeeds (Straight-perform succeeds keep_caps) (
                        Straight-bind succeeds
                          (Straight-perform succeeds (initgroups o.username o.gid))
                          (Straight-bind succeeds (Straight-perform succeeds (setuid o.uid)) (
                            Straight-bind succeeds (Straight-caps succeeds mask) (
                              Straight-bind succeeds (Straight-raise succeeds (wanted_caps o))
                                (Straight-chdir succeeds o.cwd))))))))))))))

  -- Where the mask can be built and the required calls succeed, the child makes all calls in their
  -- order and goes on to run the command: the tunnel's namespaces are entered first, then, as root
  -- still, the client's, whether that succeeds or not; then the supplementary groups and the user are
  -- changed, but not the group, the capabilities taken up, and the directory is changed.
  pub preexec_completes :
      all_succeed succeeds (required_calls o fds mask) ≡ true
      → preexec succeeds o fds [] ≡ (true, planned_calls o fds mask)
  preexec_completes h =
      let s = preexec-Straight in
      let returned = s.returns [] ∙ h in ap₂ (λ b log. (b, log)) returned (s.full [] returned)

  -- Where the mask can be built and one of the required calls fails, the command is not run, and
  -- the calls made are a first part of the planned ones: none is made out of its order.
  pub preexec_refuses :
      all_succeed succeeds (required_calls o fds mask) ≡ false
      → ((preexec succeeds o fds []).0 ≡ false)
        × (left : List Call) × (planned_calls o fds mask ≡ (preexec succeeds o fds []).1 ++ left)
  preexec_refuses h =
      let s = preexec-Straight in let (left, made) = s.begins [] in (s.returns [] ∙ h, left, made)

-- Unless both namespaces of the tunnel have been entered, the command is not run, and no call is
-- made but these: not to the client's namespaces, nor to drop or take up privileges.
pub preexec_isolates :
    (succeeds : Call → Bool) (o : Options) (fds : ChildFds)
    → (succeeds (setns fds.mnt newns) && succeeds (setns fds.net newnet)) ≡ false
    → ((preexec succeeds o fds []).0 ≡ false)
      × (left : List Call) × (setns fds.mnt newns ∷ close fds.mnt ∷ setns fds.net newnet ∷ []
          ≡ (preexec succeeds o fds []).1 ++ left)
unfolding preexec perform
preexec_isolates succeeds o fds h = elim (Bool-cases (succeeds (setns fds.mnt newns))) [
  | inr a ↦ rw a (refl, close fds.mnt ∷ setns fds.net newnet ∷ [], refl)
  | inl a ↦ elim (Bool-cases (succeeds (close fds.mnt))) [
    | inr b ↦ rw (a, b) (refl, setns fds.net newnet ∷ [], refl)
    | inl b ↦
        let c : succeeds (setns fds.net newnet) ≡ false = rw a at h in rw (a, b, c) (refl, [], refl)
  ]
]
