-- ===== src/Linux/Opening.antt =====
-- What `make_preexec_fn` opens before the fork, and `close_parent_fds`. The descriptors that were
-- opened are kept in order; `none` is an exception.
use vpn_passthrough.Prelude.{ℕ, zero, suc, String, Option, none, some, List, [], ◌∷◌, ◌++◌, length}
use vpn_passthrough.Linux.{ChildFds}
use vpn_passthrough.Linux.Cgroup.{parse_cgroupv2_path}

-- The files that are opened.
pub data FilePath : Type 0 where
  proc_ns : ℕ → String → FilePath
  cgroup_procs : List ℕ → FilePath

-- What stands outside: the descriptor that opening a file gives, the lines of /proc/<pid>/cgroup,
-- and the identifiers of a user.
pub record System : Type 0 where
  pub opens : FilePath → Option ℕ
  pub cgroup_lines : ℕ → Option (List (List ℕ))
  pub user : String → Option (ℕ × ℕ)

abbrev pub Opening : Type 0 → Type 0
Opening A = List ℕ → Option A × List ℕ

abbrev pub continue : {A B : Type 0} → Option A → (A → Opening B) → Opening B
continue none k opened = (none, opened)
continue (some a) k opened = k a opened

infixl 5 ◌>>=◌
abbrev pub ◌>>=◌ : {A B : Type 0} → Opening A → (A → Opening B) → Opening B
m >>= k = λ opened. let (r, opened') = m opened in continue r k opened'

abbrev pub pure : {A : Type 0} → A → Opening A
pure a opened = (some a, opened)

abbrev pub keep : Option ℕ → Opening ℕ
keep none opened = (none, opened)
keep (some fd) opened = (some fd, opened ++ fd ∷ [])

abbrev pub try_keep : Option ℕ → Opening (Option ℕ)
try_keep none opened = (some none, opened)
try_keep (some fd) opened = (some (some fd), opened ++ fd ∷ [])

module _ (system : System) where
  -- `os.open(…)`
  unfoldable pub open_file : FilePath → Opening ℕ
  open_file path = keep (system.opens path)

  -- `os.open(…)` with the `except OSError` around it.
  unfoldable pub try_open : FilePath → Opening (Option ℕ)
  try_open path = try_keep (system.opens path)

  -- The client's cgroup.procs, where its path is known.
  unfoldable pub open_procs : Option (List ℕ) → Opening (Option ℕ)
  unfolding try_open
  open_procs none = pure none
  open_procs (some path) = try_open (cgroup_procs path)

  unfoldable pub open_client : ℕ → ℕ → Option ℕ → Opening ChildFds
  unfolding open_file open_procs parse_cgroupv2_path
  open_client mnt net none = pure (record {
    mnt = mnt;
    net = net;
    cgroup_ns = none;
    uts = none;
    ipc = none;
    cgroup_procs = none;
  })
  open_client mnt net (some pid) = do
    cgroup_ns ← open_file (proc_ns pid "cgroup")
    uts ← open_file (proc_ns pid "uts")
    ipc ← open_file (proc_ns pid "ipc")
    procs ← open_procs (parse_cgroupv2_path (system.cgroup_lines pid))
    pure (record {
      mnt = mnt;
      net = net;
      cgroup_ns = some cgroup_ns;
      uts = some uts;
      ipc = some ipc;
      cgroup_procs = procs;
    })

  -- The user is looked up first; without one there is an exception.
  unfoldable pub open_for : Option (ℕ × ℕ) → ℕ → Option ℕ → Opening ChildFds
  unfolding open_file open_client
  open_for none ns_pid client_pid opened = (none, opened)
  open_for (some ids) ns_pid client_pid opened =
      (do
        mnt ← open_file (proc_ns ns_pid "mnt")
        net ← open_file (proc_ns ns_pid "net")
        open_client mnt net client_pid)
        opened

  -- `make_preexec_fn`, up to the functions that it returns.
  unfoldable pub make_preexec_fn : String → ℕ → Option ℕ → Opening ChildFds
  unfolding open_for
  make_preexec_fn username = open_for (system.user username)

-- `[fd for fd in […] if fd is not None]`
abbrev pub present : List (Option ℕ) → List ℕ
present [] = []
present (none ∷ fds) = present fds
present (some fd ∷ fds) = fd ∷ present fds

unfoldable pub parent_fds : ChildFds → List ℕ
parent_fds fds =
    present
      (some fds.mnt ∷ some fds.net ∷ fds.cgroup_ns ∷ fds.uts ∷ fds.ipc ∷ fds.cgroup_procs ∷ [])

-- `fds.pop()`: the last, and those before it.
abbrev pub pop : ℕ → List ℕ → ℕ × List ℕ
pop fd [] = (fd, [])
pop fd (next ∷ fds) = let (last, init) = pop next fds in (last, fd ∷ init)

-- The loop of `close_parent_fds`, with fuel: what is left of the list, and the descriptors closed.
unfoldable pub close_loop : ℕ → List ℕ → List ℕ → List ℕ × List ℕ
close_loop zero fds closed = (fds, closed)
close_loop (suc fuel) [] closed = ([], closed)
close_loop (suc fuel) (fd ∷ fds) closed =
    let (last, init) = pop fd fds in close_loop fuel init (closed ++ last ∷ [])

unfoldable pub close_parent_fds : List ℕ → List ℕ × List ℕ
unfolding close_loop
close_parent_fds fds = close_loop (length fds) fds []
