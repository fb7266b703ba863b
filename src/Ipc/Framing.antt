-- ===== src/Ipc/Framing.antt =====
-- `Frame`, the `Framing` protocol and `NullCharFraming` of
-- app/packages/ipc/src/radium226/vpn_passthrough/ipc/transport.py. A byte is a number, and a
-- `Framing` is a record of its two methods, with the laws that a connection relies on apart.
pub mod Laws
use vpn_passthrough.Prelude.{
  ℕ, suc, ◌+◌, ◌≡◌, Option, none, some, List, [], ◌∷◌, ◌++◌, elem, ◌==◌, nat_eq, take, drop,
  if◌then◌else◌,
}

abbrev pub Bytes : Type 0
Bytes = List ℕ

-- `content` is the field `data`.
pub record Frame : Type 0 where
  pub content : Bytes
  pub fds : List ℕ

pub record Framing : Type 0 where
  pub delimit : Bytes → Bytes
  pub extract : Bytes → Option Bytes × Bytes

-- `buffer.index(b"\x00")`, called only where the buffer holds that byte.
unfoldable pub index : ℕ → Bytes → ℕ
index b [] = 0
index b (c ∷ cs) = if c == b then 0 else suc (index b cs)

unfoldable pub delimit : Bytes → Bytes
delimit content = content ++ 0 ∷ []

unfoldable pub extract : Bytes → Option Bytes × Bytes
unfolding index
extract buffer =
    if elem 0 buffer
    then (let idx = index 0 buffer in (some (take idx buffer), drop (idx + 1) buffer))
    else (none, buffer)

abbrev pub null_char : Framing
null_char = record { delimit = delimit; extract = extract }

-- What a connection needs of its framing: `Plain` tells the contents that the framing can carry.
pub record IsLawful (F : Framing) (Plain : Bytes → Type 0) : Type 0 where
  pub extract-delimit :
      (d rest : Bytes) → Plain d → F.extract (F.delimit d ++ rest) ≡ (some d, rest)
  pub extract-append :
      (b more d r : Bytes) → F.extract b ≡ (some d, r) → F.extract (b ++ more) ≡ (some d, r ++ more)
  pub extract-none : (b r : Bytes) → F.extract b ≡ (none, r) → r ≡ b
  pub extract-empty : F.extract [] ≡ (none, [])
