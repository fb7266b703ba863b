-- ===== src/Commands/Entry.antt =====
-- `entry.partition("=")`, for the entries of `--dns-override`.
use Prim.Native.Char.{code}
use Prim.Native.String.{String, [], ◌∷◌}
use vpn_passthrough.Prelude.{nat_eq, ◌==◌, if◌then◌else◌}

-- What stands before the first "=" and what stands behind it.
unfoldable pub partition : String → String × String
partition [] = ([], [])
partition (c ∷ text) =
    let (domain, ip) = partition text in if code c == 61 then ([], text) else (c ∷ domain, ip)
