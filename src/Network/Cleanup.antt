-- ===== src/Network/Cleanup.antt =====
-- What entering leaves behind when a call fails.
use vpn_passthrough.Prelude.{
  ap, ap₂, sym, ◌∙◌, ℕ, ◌≤◌, length, ltb, is_some, Option-cases, ◌≡◌, ◌⊎◌, refl, Bool, true, false,
  Option, none, some, List, [], ◌∷◌, ◌++◌, String, map, Bool-cases, inl, inr, arith,
}
use vpn_passthrough.Network.{
  Interface, veth, vpeer, link_add, link_delete, ip_forward, load, list_chains, internet_table,
  accept_tunnels, masquerade, on_host, Call, Step, checked, unchecked, Manager, System, run_steps,
  inside_try, enter_after, enter,
}
use vpn_passthrough.Network.Managers.{
  slot_of, IPv4Network, Addresses, two_hosts, hosts_of, addresses, add_with, add, share,
}

-- The octet that the addresses of a tunnel are made with is a host's: 1 to 254.
pub slot_of-bounds : (digest : ℕ) → (1 ≤ slot_of digest) × (slot_of digest ≤ 254)
unfolding slot_of
slot_of-bounds digest = (omega arith, omega arith)

abbrev pub call_of : Step → Call
call_of (checked c) = c
call_of (unchecked c) = c

-- A list begins with another.
abbrev pub Begins : List Call → List Call → Type 0
Begins xs ys = (rest : List Call) × (ys ≡ xs ++ rest)

-- Whether a network has two hosts, and whether the CIDR of a request, if there is one, is such a network.
abbrev pub is_usable : Option IPv4Network → Bool
is_usable none = false
is_usable (some n) = ltb 1 (length n.hosts)

abbrev pub cidr_usable : (String → Option IPv4Network) → Option String → Bool
cidr_usable parse none = true
cidr_usable parse (some text) = is_usable (parse text)

module _ (sys : System) where
  run_steps-all :
      (steps : List Step)
      → (run_steps sys steps).1 ≡ true
      → (run_steps sys steps).0 ≡ map call_of steps
  unfolding run_steps
  run_steps-all [] h = refl
  run_steps-all (unchecked c ∷ steps) h = ap (λ calls. c ∷ calls) (run_steps-all steps h)
  run_steps-all (checked c ∷ steps) h = elim (Bool-cases (sys.succeeds c)) [
    | inl e ↦ rw e (ap (λ calls. c ∷ calls) (run_steps-all steps (rw e at h)))
    | inr e ↦ absurd (ground (arith, e, h))
  ]

  inside_try-raised :
      (leave made calls : List Call) (r : List Call × Bool)
      → inside_try sys leave made r ≡ (calls, none)
      → calls ≡ made ++ r.0 ++ leave
  unfolding inside_try
  inside_try-raised leave made calls (later, true) h = cc
  inside_try-raised leave made calls (later, false) h = sym (ap (λ p. p.0) h)

  inside_try-entered :
      (leave made calls undo : List Call) (r : List Call × Bool)
      → inside_try sys leave made r ≡ (calls, some undo)
      → (r.1 ≡ true) × (calls ≡ made ++ r.0) × (undo ≡ leave)
  unfolding inside_try
  inside_try-entered leave made calls undo (later, true) h = (refl, sym (ap (λ p. p.0) h), cc)
  inside_try-entered leave made calls undo (later, false) h = cc

  enter_after-entered :
      (inside : List Step) (leave calls undo : List Call) (r : List Call × Bool)
      → enter_after sys inside leave r ≡ (calls, some undo)
      → (r.1 ≡ true)
        × ((run_steps sys inside).1 ≡ true)
        × (calls ≡ r.0 ++ (run_steps sys inside).0)
        × (undo ≡ leave)
  unfolding enter_after
  enter_after-entered inside leave calls undo (made, true) h =
      let e = inside_try-entered leave made calls undo (run_steps sys inside) h in
      (refl, e.0, e.1, e.2)
  enter_after-entered inside leave calls undo (made, false) h = cc

  -- A context manager that is entered has made all its calls, in order, and leaving it will make
  -- those of its `finally`.
  pub enter_entered :
      (m : Manager) (calls undo : List Call)
      → enter sys m ≡ (calls, some undo)
      → (calls ≡ map call_of m.before ++ map call_of m.inside) × (undo ≡ m.leave)
  unfolding enter
  enter_entered m calls undo h =
      let e = enter_after-entered m.inside m.leave calls undo (run_steps sys m.before) h in
      (e.2 ∙ ap₂ (λ a b. a ++ b) (run_steps-all m.before e.0) (run_steps-all m.inside e.1), e.3)

  -- A context manager that is entered, where there is one.
  abbrev pub enter_if : Option Manager → List Call × Option (List Call)
  enter_if none = ([], none)
  enter_if (some m) = enter sys m

  add_with-cleans_up :
      (slot pid : ℕ) (a : Addresses) (routes : Option (List String)) (calls : List Call)
      → enter sys (add_with slot pid a routes) ≡ (calls, none)
      → ((sys.succeeds (on_host, link_add (veth slot) (vpeer slot)) ≡ false)
          × (calls ≡ (on_host, link_add (veth slot) (vpeer slot)) ∷ []))
        ⊎ ((made : List Call) × (calls
              ≡ (on_host, link_add (veth slot) (vpeer slot)) ∷ made
                ++ (on_host, link_delete (veth slot)) ∷ []))
  unfolding enter add_with run_steps enter_after
  add_with-cleans_up slot pid a routes calls h =
      elim (Bool-cases (sys.succeeds (on_host, link_add (veth slot) (vpeer slot)))) [
        | inl e ↦
            let m = add_with slot pid a routes in
            inr (
              (run_steps sys m.inside).0,
              inside_try-raised m.leave ((on_host, link_add (veth slot) (vpeer slot)) ∷ []) calls
                  (run_steps sys m.inside) (rw e at h),
            )
        | inr e ↦ inl (e, sym (ap (λ p. p.0) (rw e at h)))
      ]

  two_hosts-enough :
      (hosts : List String) (n : ℕ) → is_some (two_hosts hosts n) ≡ ltb 1 (length hosts)
  two_hosts-enough [] n = ground arith
  two_hosts-enough (x ∷ []) n = ground arith
  two_hosts-enough (x ∷ y ∷ hosts) n = ground arith

  hosts_of-usable : (network : Option IPv4Network) → is_some (hosts_of network) ≡ is_usable network
  hosts_of-usable none = refl
  hosts_of-usable (some n) = two_hosts-enough n.hosts n.prefix_len

  -- When entering the network interfaces of a tunnel raises, then, where the CIDR of the request is no
  -- network or has fewer than two hosts, nothing was called; and elsewhere either the creation of the
  -- pair failed, and nothing else was called, or the last call deletes the pair that was created.
  pub add_cleans_up :
      (parse : String → Option IPv4Network) (slot pid : ℕ) (cidr : Option String)
      (routes : Option (List String)) (calls : List Call)
      → enter_if (add parse slot pid cidr routes) ≡ (calls, none)
      → ((cidr_usable parse cidr ≡ false) × (calls ≡ []))
        ⊎ ((cidr_usable parse cidr ≡ true)
            × (((sys.succeeds (on_host, link_add (veth slot) (vpeer slot)) ≡ false)
                  × (calls ≡ (on_host, link_add (veth slot) (vpeer slot)) ∷ []))
                ⊎ ((made : List Call) × (calls
                      ≡ (on_host, link_add (veth slot) (vpeer slot)) ∷ made
                        ++ (on_host, link_delete (veth slot)) ∷ []))))
  unfolding add addresses
  add_cleans_up parse slot pid none routes calls h =
      inr (refl, add_with-cleans_up slot pid _ routes calls h)
  add_cleans_up parse slot pid (some text) routes calls h =
      let usable = hosts_of-usable (parse text) in
      elim (Option-cases (hosts_of (parse text))) [
        | inl e ↦ inl (sym usable ∙ ap is_some e, sym (ap (λ p. p.0) (rw e at h)))
        | inr p ↦ inr (
          sym usable ∙ ap is_some p.1,
          add_with-cleans_up slot pid p.0 routes calls (rw p.1 at h),
        )
      ]

  -- When `Internet.share` cannot list the chains of the host, it raises with the table of the
  -- tunnel loaded, and makes no call that deletes it.
  pub share_leaves_table :
      (name : String) (i : Interface)
      → sys.succeeds (on_host, ip_forward) ≡ true
      → sys.succeeds (on_host, load (internet_table name) (accept_tunnels ∷ masquerade ∷ [])) ≡ true
      → sys.succeeds (on_host, list_chains) ≡ false
      → enter sys (share sys name i) ≡ (
        (on_host, ip_forward)
            ∷ (on_host, load (internet_table name) (accept_tunnels ∷ masquerade ∷ []))
            ∷ (on_host, list_chains)
            ∷ [],
        none,
      )
  unfolding enter share run_steps enter_after
  share_leaves_table name i forwards loads lists = rw (forwards, loads, lists) refl
