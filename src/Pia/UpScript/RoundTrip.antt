-- ===== src/Pia/UpScript/RoundTrip.antt =====
-- What is read from the pipe is what the script has written.
use vpn_passthrough.Prelude.{
  ℕ, zero, suc, ◌≤◌, ◌<◌, nat_eq, ◌==◌, eq_of_beq, ◌≡◌, ◌≢◌, refl, sym, ap, ap₂, ◌∙◌, Bool, true,
  false, Option, none, some, or_else, map, Option-cases, if◌then◌else◌, List, [], ◌∷◌, ◌++◌,
  append_assoc, append-nil, length, length-append, All, Bool-cases, inl, inr, arith,
}
use vpn_passthrough.Pia.UpScript.{
  Text, Environ, dns_prefix, without_prefix, add_if, dns_values, print_line, print_lines, up_script,
  read_line, Connected, connected, exited_before, strip_left, keep_right, strip_right, strip,
  next_dns, read_dns, default_dns, info, read_rest, read_connection_info,
}

read_line_le : (c : ℕ) (cs : Text) → length (read_line (c ∷ cs)).1 ≤ length cs
unfolding read_line
read_line_le c [] = ground arith
read_line_le c (d ∷ ds) = ground (arith, read_line_le d ds)

-- What a VPN pushes to its client, as OpenVPN hands it to the script: a DNS server, or another
-- option.
pub data Pushed : Type 0 where
  dns_server other : Text → Pushed

-- "dhcp-option DNS " and the server, or the other option's text.
abbrev pub render : Pushed → Text
render (dns_server ip) =
    100 ∷ 104 ∷ 99 ∷ 112 ∷ 45 ∷ 111 ∷ 112 ∷ 116 ∷ 105 ∷ 111 ∷ 110 ∷ 32 ∷ 68 ∷ 78 ∷ 83 ∷ 32 ∷ ip
render (other text) = text

-- An option that is no DNS server is not empty, and does not read as one.
abbrev pub IsProper : Pushed → Type 0
IsProper (dns_server ip) = Unit
IsProper (other text) = (text ≢ []) × ((ip : Text) → text ≢ render (dns_server ip))

-- The DNS servers among the options.
abbrev pub servers : List Pushed → List Text
servers [] = []
servers (dns_server ip ∷ options) = ip ∷ servers options
servers (other text ∷ options) = servers options

abbrev pub environ : Text → Text → List Pushed → Environ
environ gateway tun options = record {
  route_vpn_gateway = gateway;
  ifconfig_local = tun;
  foreign_options = map render options;
}

abbrev pub is_empty : List Text → Bool
is_empty [] = true
is_empty (x ∷ xs) = false

not_both : (rest : Text) → none ≢ some rest
not_both rest h = cc

without_prefix-some :
    (prefix text rest : Text) → without_prefix prefix text ≡ some rest → text ≡ prefix ++ rest
unfolding without_prefix
without_prefix-some [] text rest h = ap (λ o. or_else o []) h
without_prefix-some (p ∷ ps) [] rest h = cc
without_prefix-some (p ∷ ps) (c ∷ cs) rest h = elim (Bool-cases (p == c)) [
  | inl e ↦
      ap₂ (λ x xs. x ∷ xs) (sym (eq_of_beq p c e)) (without_prefix-some ps cs rest (rw e at h))
  | inr e ↦ absurd (not_both rest (rw e at h))
]

add_other :
    (text : Text) (values : List Text)
    → ((ip : Text) → text ≢ render (dns_server ip))
    → add_if (without_prefix dns_prefix text) values ≡ values
add_other text values h = elim (Option-cases (without_prefix dns_prefix text)) [
  | inl e ↦ rw e refl
  | inr p ↦ absurd (h p.0 (without_prefix-some dns_prefix text p.0 p.1))
]

-- The script finds the DNS servers, and nothing else.
dns_values-render :
    (options : List Pushed)
    → All IsProper options
    → dns_values (map render options) ≡ servers options
unfolding dns_values without_prefix
dns_values-render [] h = refl
dns_values-render (dns_server ip ∷ options) (now, later) =
    ap (λ xs. ip ∷ xs) (dns_values-render options later)
dns_values-render (other [] ∷ options) (now, later) = absurd (now.0 refl)
dns_values-render (other (c ∷ cs) ∷ options) (now, later) =
    add_other (c ∷ cs) (dns_values (map render options)) now.1 ∙ dns_values-render options later

module _ (is_space : ℕ → Bool) where
  default_gateway :
      (gateway tun : Text) (dns : List Text)
      → some (
          connected (record {
            gateway_ip = gateway;
            tun_ip = tun;
            dns_servers = default_dns is_space gateway dns;
          }))
        ≡ some (
            connected (record {
              gateway_ip = gateway;
              tun_ip = tun;
              dns_servers = if is_empty dns then gateway ∷ [] else dns;
            }))
  unfolding default_dns
  default_gateway gateway tun [] = refl
  default_gateway gateway tun (d ∷ ds) = refl

  next_dns-some :
      (line : Text) (o : Option (List Text))
      → ((dns : List Text) × (o ≡ some dns))
      → (dns : List Text) × (next_dns is_space line o ≡ some dns)
  next_dns-some [] o (dns, h) = ([], refl)
  next_dns-some (c ∷ cs) o (dns, h) = ((c ∷ cs) ∷ dns, rw h refl)

  -- Fuel beyond the length of the stream is enough.
  read_dns_enough :
      (fuel : ℕ) (stream : Text)
      → length stream < fuel
      → (dns : List Text) × (read_dns is_space fuel stream ≡ some dns)
  unfolding read_dns strip strip_left strip_right read_line
  read_dns_enough zero stream h = absurd (omega arith)
  read_dns_enough (suc fuel) [] h = ([], refl)
  read_dns_enough (suc fuel) (c ∷ cs) h =
      let rest = (read_line (c ∷ cs)).1 in
      next_dns-some (strip is_space (read_line (c ∷ cs)).0) (read_dns is_space fuel rest)
        (read_dns_enough fuel rest (omega (arith, read_line_le c cs)))

  info_some :
      (gateway tun : Text) (o : Option (List Text)) (dns : List Text)
      → o ≡ some dns
      → (c : Connected) × (info is_space gateway tun o ≡ some c)
  info_some gateway tun o dns h = (
    connected (record {
      gateway_ip = gateway;
      tun_ip = tun;
      dns_servers = default_dns is_space gateway dns;
    }),
    rw h refl,
  )

  read_rest_ends : (first rest : Text) → (c : Connected) × (read_rest is_space first rest ≡ some c)
  unfolding read_rest
  read_rest_ends [] rest = (exited_before, refl)
  read_rest_ends (c ∷ cs) rest =
      let (second, rest') = read_line rest in
      let (dns, h) = read_dns_enough (suc (length rest')) rest' (omega arith) in
      info_some (strip is_space (c ∷ cs)) (strip is_space second) _ dns h

  -- Whatever the stream gives until its end, the reading ends: the fuel is never used up.
  pub read_connection_info_ends :
      (stream : Text) → (c : Connected) × (read_connection_info is_space stream ≡ some c)
  unfolding read_connection_info
  read_connection_info_ends stream = read_rest_ends (read_line stream).0 (read_line stream).1

  -- Without white space, and not empty.
  abbrev pub Plain : Text → Type 0
  Plain [] = ⊥
  Plain (c ∷ cs) = All (λ d. is_space d ≡ false) (c ∷ cs)

  module _ (newline : is_space 10 ≡ true) where
    not_newline : (c : ℕ) → is_space c ≡ false → (c == 10) ≡ false
    not_newline c h = elim (Bool-cases (c == 10)) [
      | inl e ↦ absurd (ground (arith, ap is_space (eq_of_beq c 10 e)))
      | inr e ↦ e
    ]

    read_line-line :
        (xs rest : Text)
        → All (λ d. is_space d ≡ false) xs
        → read_line (print_line xs ++ rest) ≡ (print_line xs, rest)
    unfolding read_line
    read_line-line [] rest h = refl
    read_line-line (c ∷ cs) rest (now, later) =
        rw (not_newline c now, read_line-line cs rest later) refl

    keep_right-plain : (c : ℕ) (cs : Text) → is_space c ≡ false → keep_right is_space c cs ≡ c ∷ cs
    keep_right-plain c [] h = rw h refl
    keep_right-plain c (d ∷ ds) h = refl

    strip_right-line :
        (xs : Text) → All (λ d. is_space d ≡ false) xs → strip_right is_space (print_line xs) ≡ xs
    unfolding strip_right
    strip_right-line [] h = rw newline refl
    strip_right-line (c ∷ cs) (now, later) =
        ap (keep_right is_space c) (strip_right-line cs later) ∙ keep_right-plain c cs now

    strip-empty : strip is_space (10 ∷ []) ≡ []
    unfolding strip strip_left strip_right
    strip-empty = rw newline refl

    strip-line : (xs : Text) → Plain xs → strip is_space (print_line xs) ≡ xs
    unfolding strip strip_left
    strip-line [] h = absurd h
    strip-line (c ∷ cs) (now, later) = rw now (strip_right-line (c ∷ cs) (now, later))

    read_dns-lines :
        (fuel : ℕ) (lines : List Text)
        → All Plain lines
        → length (print_lines lines ++ 10 ∷ []) < fuel
        → read_dns is_space fuel (print_lines lines ++ 10 ∷ []) ≡ some lines
    unfolding read_dns
    read_dns-lines zero lines plain h = absurd (omega arith)
    read_dns-lines (suc fuel) [] plain h =
        ap₂ (next_dns is_space)
          (ap (λ p. strip is_space p.0) (read_line-line [] [] tt) ∙ strip-empty) refl
    read_dns-lines (suc fuel) ([] ∷ lines) (now, later) h = absurd now
    read_dns-lines (suc fuel) ((c ∷ cs) ∷ lines) (now, later) h =
        let rest = print_lines lines ++ 10 ∷ [] in
        let split : print_lines ((c ∷ cs) ∷ lines) ++ 10 ∷ [] ≡ print_line (c ∷ cs) ++ rest =
          append_assoc (print_line (c ∷ cs)) (print_lines lines) (10 ∷ []) in
        let shorter : length rest < fuel =
          omega (arith, ap length split, length-append (print_line (c ∷ cs)) rest) in
        let line = read_line-line (c ∷ cs) rest now in
        ap (read_dns is_space (suc fuel)) split
        ∙ ap (λ p. next_dns is_space (strip is_space p.0) (read_dns is_space fuel p.1)) line
        ∙ ap₂ (next_dns is_space) (strip-line (c ∷ cs) now)
            (read_dns-lines fuel lines later shorter)

    All-Plain : (xs : Text) → Plain xs → All (λ d. is_space d ≡ false) xs
    All-Plain [] h = absurd h
    All-Plain (c ∷ cs) h = h

    read_rest-line :
        (xs rest : Text)
        → Plain xs
        → read_rest is_space (print_line xs) rest
          ≡ info is_space
              (strip is_space (print_line xs))
              (strip is_space (read_line rest).0)
              (read_dns is_space (suc (length (read_line rest).1)) (read_line rest).1)
    unfolding read_rest
    read_rest-line [] rest h = absurd h
    read_rest-line (c ∷ cs) rest h = refl

    -- The private lemma, with what the script finds in the options.
    read_script :
        (env : Environ)
        → Plain env.route_vpn_gateway
        → Plain env.ifconfig_local
        → All Plain (dns_values env.foreign_options)
        → read_connection_info is_space (up_script env)
          ≡ some (
              connected (record {
                gateway_ip = env.route_vpn_gateway;
                tun_ip = env.ifconfig_local;
                dns_servers =
                    default_dns is_space env.route_vpn_gateway (dns_values env.foreign_options);
              }))
    unfolding read_connection_info up_script
    read_script env gateway tun dns =
        let values = dns_values env.foreign_options in
        let options = print_lines values ++ 10 ∷ [] in
        let second = print_line env.ifconfig_local ++ options in
        ap (λ p. read_rest is_space p.0 p.1)
          (read_line-line env.route_vpn_gateway second (All-Plain env.route_vpn_gateway gateway))
        ∙ read_rest-line env.route_vpn_gateway second gateway
        ∙ ap
            (λ p.
              info is_space (strip is_space (print_line env.route_vpn_gateway)) (strip is_space p.0)
                (read_dns is_space (suc (length p.1)) p.1))
            (read_line-line env.ifconfig_local options (All-Plain env.ifconfig_local tun))
        ∙ rw
            (
              strip-line env.route_vpn_gateway gateway,
              strip-line env.ifconfig_local tun,
              read_dns-lines (suc (length options)) values dns (omega arith),
            )
            refl

    -- Where the gateway, the tunnel's address and the servers that the VPN pushes are not empty and
    -- have no white space, a line end being white space, what is read from the pipe is what OpenVPN
    -- has set for the script: both addresses, and the pushed DNS servers, all of them and in their
    -- order whatever other options stand among them, or the gateway as the only one where none is
    -- pushed.
    pub read_connection_info-up_script :
        (gateway tun : Text) (options : List Pushed)
        → Plain gateway
        → Plain tun
        → All IsProper options
        → All Plain (servers options)
        → read_connection_info is_space (up_script (environ gateway tun options))
          ≡ some (
              connected (record {
                gateway_ip = gateway;
                tun_ip = tun;
                dns_servers = if is_empty (servers options) then gateway ∷ [] else servers options;
              }))
    read_connection_info-up_script gateway tun options g t proper plain =
        let e = dns_values-render options proper in
        read_script (environ gateway tun options) g t (rw e plain)
        ∙ rw e (default_gateway gateway tun (servers options))

    -- A stream that ends behind the gateway's line, as it does where OpenVPN exits while the script
    -- writes, is not told from a connection: it is accepted with an empty address of the tunnel and
    -- the gateway as the DNS server.
    pub gateway_alone_connects :
        (gateway : Text)
        → Plain gateway
        → read_connection_info is_space (print_line gateway)
          ≡ some
              (connected (record { gateway_ip = gateway; tun_ip = []; dns_servers = gateway ∷ [] }))
    unfolding read_connection_info read_line strip strip_left strip_right read_dns default_dns
    gateway_alone_connects gateway plain =
        ap (λ p. read_rest is_space p.0 p.1)
          (ap read_line (sym (append-nil (print_line gateway)))
            ∙ read_line-line gateway [] (All-Plain gateway plain))
        ∙ read_rest-line gateway [] plain
        ∙ rw (strip-line gateway plain) refl
