-- ===== src/Linux/Closing.antt =====
-- What `close_parent_fds` closes.
use mathlib.Core.List.{reverse, reverse-append}
use vpn_passthrough.Prelude.{
  ℕ, zero, suc, String, ◌≡◌, refl, sym, ap, ap₂, ◌∙◌, Option, none, some, List, [], ◌∷◌, ◌++◌,
  append_assoc, append-nil, length, arith,
}
use vpn_passthrough.Linux.{ChildFds}
use vpn_passthrough.Linux.Opening.{
  proc_ns, cgroup_procs, System, ◌>>=◌, pure, keep, try_keep, open_file, try_open, open_procs,
  open_client, open_for, make_preexec_fn, present, parent_fds, pop, close_loop, close_parent_fds,
}

pop-append : (fd : ℕ) (fds : List ℕ) → (pop fd fds).1 ++ (pop fd fds).0 ∷ [] ≡ fd ∷ fds
pop-append fd [] = refl
pop-append fd (next ∷ fds) = ap (λ l. fd ∷ l) (pop-append next fds)

length-pop : (fd : ℕ) (fds : List ℕ) → length (pop fd fds).1 ≡ length fds
length-pop fd [] = refl
length-pop fd (next ∷ fds) = ap suc (length-pop next fds)

reverse-pop : (fd : ℕ) (fds : List ℕ) → reverse (fd ∷ fds) ≡ (pop fd fds).0 ∷ reverse (pop fd fds).1
reverse-pop fd fds =
    ap reverse (sym (pop-append fd fds)) ∙ reverse-append (pop fd fds).1 ((pop fd fds).0 ∷ [])

close_loop-all :
    (fuel : ℕ) (fds closed : List ℕ)
    → length fds ≡ fuel
    → close_loop fuel fds closed ≡ ([], closed ++ reverse fds)
unfolding close_loop
close_loop-all zero [] closed h = rw (append-nil closed) refl
close_loop-all zero (fd ∷ fds) closed h = absurd (omega arith)
close_loop-all (suc fuel) [] closed h = rw (append-nil closed) refl
close_loop-all (suc fuel) (fd ∷ fds) closed h =
    let (last, init) = pop fd fds in
    close_loop-all fuel init (closed ++ last ∷ []) (length-pop fd fds ∙ omega arith)
    ∙ ap (λ l. ([], l))
        (append_assoc closed (last ∷ []) (reverse init)
          ∙ ap (λ l. closed ++ l) (sym (reverse-pop fd fds)))

module _ (system : System) where
  try_opened :
      (r : Option ℕ) (opened : List ℕ)
      → (o : Option ℕ) × (try_keep r opened ≡ (some o, opened ++ present (o ∷ [])))
  try_opened none opened = (none, rw (append-nil opened) refl)
  try_opened (some fd) opened = (some fd, refl)

  procs_opened :
      (path : Option (List ℕ)) (opened : List ℕ)
      → (o : Option ℕ) × (open_procs system path opened ≡ (some o, opened ++ present (o ∷ [])))
  unfolding open_procs try_open
  procs_opened none opened = (none, rw (append-nil opened) refl)
  procs_opened (some path) opened = try_opened (system.opens (cgroup_procs path)) opened

  -- What was opened for the client, in order.
  abbrev client_fds : ChildFds → List ℕ
  client_fds fds = present (fds.cgroup_ns ∷ fds.uts ∷ fds.ipc ∷ fds.cgroup_procs ∷ [])

  abbrev Kept : ℕ → ℕ → List ℕ → Option ChildFds × List ℕ → Type 0
  Kept mnt net opened (none, opened') = Unit
  Kept mnt net opened (some fds, opened') =
      (opened' ≡ opened ++ client_fds fds) × (fds.mnt ≡ mnt) × (fds.net ≡ net)

  files-Kept :
      (mnt net : ℕ) (c u i : Option ℕ) (path : Option (List ℕ)) (opened : List ℕ)
      → Kept mnt net opened (
          (do
            cgroup_ns ← keep c
            uts ← keep u
            ipc ← keep i
            procs ← open_procs system path
            pure (record {
              mnt = mnt;
              net = net;
              cgroup_ns = some cgroup_ns;
              uts = some uts;
              ipc = some ipc;
              cgroup_procs = procs;
            }))
            opened)
  files-Kept mnt net none u i path opened = tt
  files-Kept mnt net (some c) none i path opened = tt
  files-Kept mnt net (some c) (some u) none path opened = tt
  files-Kept mnt net (some c) (some u) (some i) path opened =
      let (o, e) = procs_opened path (opened ++ c ∷ [] ++ u ∷ [] ++ i ∷ []) in
      rw e (simp append_assoc refl, refl, refl)

  client-Kept :
      (mnt net : ℕ) (client_pid : Option ℕ) (opened : List ℕ)
      → Kept mnt net opened (open_client system mnt net client_pid opened)
  unfolding open_client open_file
  client-Kept mnt net none opened = (sym (append-nil opened), refl, refl)
  client-Kept mnt net (some pid) opened =
      files-Kept mnt net (system.opens (proc_ns pid "cgroup")) (system.opens (proc_ns pid "uts"))
        (system.opens (proc_ns pid "ipc")) _ opened

  abbrev Opened : Option ChildFds × List ℕ → Type 0
  Opened (none, opened) = Unit
  Opened (some fds, opened) = opened ≡ parent_fds fds

  Kept-Opened :
      (mnt net : ℕ) (p : Option ChildFds × List ℕ) → Kept mnt net (mnt ∷ net ∷ []) p → Opened p
  unfolding parent_fds
  Kept-Opened mnt net (none, opened) k = tt
  Kept-Opened mnt net (some fds, opened) k =
      k.0 ∙ ap₂ (λ m n. m ∷ n ∷ client_fds fds) (sym k.1) (sym k.2)

  both-Opened :
      (m n : Option ℕ) (client_pid : Option ℕ)
      → Opened ((do mnt ← keep m; net ← keep n; open_client system mnt net client_pid) [])
  both-Opened none n client_pid = tt
  both-Opened (some m) none client_pid = tt
  both-Opened (some m) (some n) client_pid =
      Kept-Opened m n _ (client-Kept m n client_pid (m ∷ n ∷ []))

  make-Opened :
      (ids : Option (ℕ × ℕ)) (ns_pid : ℕ) (client_pid : Option ℕ)
      → Opened (open_for system ids ns_pid client_pid [])
  unfolding open_for open_file
  make-Opened none ns_pid client_pid = tt
  make-Opened (some ids) ns_pid client_pid =
      both-Opened (system.opens (proc_ns ns_pid "mnt")) (system.opens (proc_ns ns_pid "net"))
        client_pid

Opened-some :
    (system : System) (p : Option ChildFds × List ℕ) (fds : ChildFds)
    → Opened system p
    → p.0 ≡ some fds
    → p.1 ≡ parent_fds fds
Opened-some system (none, opened) fds o e = cc
Opened-some system (some fds', opened) fds o e = cc

-- Where `make_preexec_fn` returns, its function for the parent closes exactly the descriptors that
-- it has opened, each once and the last opened first, and then has none left to close: the optional
-- ones included, whether the client's cgroup could be opened or not.
pub close_parent_fds_all :
    (system : System) (username : String) (ns_pid : ℕ) (client_pid : Option ℕ) (fds : ChildFds)
    → (make_preexec_fn system username ns_pid client_pid []).0 ≡ some fds
    → close_parent_fds (parent_fds fds)
      ≡ ([], reverse (make_preexec_fn system username ns_pid client_pid []).1)
unfolding make_preexec_fn close_parent_fds
close_parent_fds_all system username ns_pid client_pid fds e =
    let o = make-Opened system (system.user username) ns_pid client_pid in
    close_loop-all (length (parent_fds fds)) (parent_fds fds) [] refl
    ∙ ap (λ l. ([], reverse l)) (sym (Opened-some system _ fds o e))
