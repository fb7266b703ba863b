-- ===== src/Pia/UpScript.antt =====
-- The pipe of app/packages/pia/src/radium226/vpn_passthrough/pia/_openvpn.py: what the `--up` script
-- writes, and what `_read_connection_info` reads. Text is a list of code points.
pub mod RoundTrip
use vpn_passthrough.Prelude.{
  ℕ, zero, suc, nat_eq, ◌==◌, ◌&&◌, Bool, true, false, Option, none, some, List, [], ◌∷◌, ◌++◌,
  length, if◌then◌else◌,
}

abbrev pub Text : Type 0
Text = List ℕ

-- The variables that OpenVPN sets for the script; the options are those numbered 1, 2, and so on.
pub record Environ : Type 0 where
  pub route_vpn_gateway : Text
  pub ifconfig_local : Text
  pub foreign_options : List Text

pub record ConnectionInfo : Type 0 where
  pub gateway_ip : Text
  pub tun_ip : Text
  pub dns_servers : List Text

-- "dhcp-option DNS "
abbrev pub dns_prefix : Text
dns_prefix =
    100 ∷ 104 ∷ 99 ∷ 112 ∷ 45 ∷ 111 ∷ 112 ∷ 116 ∷ 105 ∷ 111 ∷ 110 ∷ 32 ∷ 68 ∷ 78 ∷ 83 ∷ 32 ∷ []

-- `${val#…}`, where the value has the prefix.
unfoldable pub without_prefix : Text → Text → Option Text
without_prefix [] val = some val
without_prefix (p ∷ ps) [] = none
without_prefix (p ∷ ps) (c ∷ cs) = if p == c then without_prefix ps cs else none

abbrev pub add_if : Option Text → List Text → List Text
add_if none values = values
add_if (some value) values = value ∷ values

-- The loop over the options, which ends at the first that is empty.
unfoldable pub dns_values : List Text → List Text
unfolding without_prefix
dns_values [] = []
dns_values ([] ∷ options) = []
dns_values ((c ∷ cs) ∷ options) = add_if (without_prefix dns_prefix (c ∷ cs)) (dns_values options)

-- `printf "%s\n"`
abbrev pub print_line : Text → Text
print_line text = text ++ 10 ∷ []

abbrev pub print_lines : List Text → Text
print_lines [] = []
print_lines (line ∷ lines) = print_line line ++ print_lines lines

-- All that the script writes.
unfoldable pub up_script : Environ → Text
unfolding dns_values
up_script env =
    print_line env.route_vpn_gateway
    ++ (print_line env.ifconfig_local ++ (print_lines (dns_values env.foreign_options) ++ 10 ∷ []))

-- `reader.readline()`: the line with its end, and the rest; nothing at the end of the stream.
unfoldable pub read_line : Text → Text × Text
read_line [] = ([], [])
read_line (c ∷ cs) =
    let (line, rest) = read_line cs in if c == 10 then (c ∷ [], cs) else (c ∷ line, rest)

-- What ends the reading.
pub data Connected : Type 0 where
  connected : ConnectionInfo → Connected
  exited_before : Connected

-- What counts as white space for `strip` stands outside.
module _ (is_space : ℕ → Bool) where
  unfoldable pub strip_left : Text → Text
  strip_left [] = []
  strip_left (c ∷ cs) = let rest = strip_left cs in if is_space c then rest else c ∷ cs

  abbrev pub keep_right : ℕ → Text → Text
  keep_right c [] = if is_space c then [] else c ∷ []
  keep_right c (d ∷ ds) = c ∷ d ∷ ds

  unfoldable pub strip_right : Text → Text
  strip_right [] = []
  strip_right (c ∷ cs) = keep_right c (strip_right cs)

  unfoldable pub strip : Text → Text
  unfolding strip_left strip_right
  strip text = strip_right (strip_left text)

  -- An empty line ends the loop.
  abbrev pub next_dns : Text → Option (List Text) → Option (List Text)
  next_dns [] later = some []
  next_dns (c ∷ cs) none = none
  next_dns (c ∷ cs) (some lines) = some ((c ∷ cs) ∷ lines)

  -- The loop that reads the DNS servers, on fuel.
  unfoldable pub read_dns : ℕ → Text → Option (List Text)
  unfolding read_line strip
  read_dns zero stream = none
  read_dns (suc fuel) stream =
      let (line, rest) = read_line stream in next_dns (strip line) (read_dns fuel rest)

  -- The gateway where there is no DNS server.
  unfoldable pub default_dns : Text → List Text → List Text
  default_dns gateway [] = gateway ∷ []
  default_dns gateway (d ∷ ds) = d ∷ ds

  abbrev pub info : Text → Text → Option (List Text) → Option Connected
  info gateway tun none = none
  info gateway tun (some dns) = some (
      connected
        (record { gateway_ip = gateway; tun_ip = tun; dns_servers = default_dns gateway dns }))

  -- With the first line.
  unfoldable pub read_rest : Text → Text → Option Connected
  unfolding read_dns default_dns
  read_rest [] rest = some exited_before
  read_rest (c ∷ cs) rest =
      let (second, rest') = read_line rest in
      info (strip (c ∷ cs)) (strip second) (read_dns (suc (length rest')) rest')

  -- `_read_connection_info` on all that the stream gives, with the default below it.
  unfoldable pub read_connection_info : Text → Option Connected
  unfolding read_rest read_line
  read_connection_info stream = let (first, rest) = read_line stream in read_rest first rest
