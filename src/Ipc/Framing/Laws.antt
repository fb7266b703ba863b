-- ===== src/Ipc/Framing/Laws.antt =====
-- `NullCharFraming` keeps the laws of a framing, on contents without a zero byte.
use vpn_passthrough.Prelude.{
  ℕ, ◌≡◌, ◌≢◌, refl, Option, none, some, [], ◌∷◌, ◌++◌, Bool-cases, inl, inr, ◌==◌, nat_eq, All,
  arith, if◌then◌else◌,
}
use vpn_passthrough.Ipc.Framing.{Bytes, delimit, extract, null_char, IsLawful}

-- No byte of the content is the delimiter.
abbrev pub IsPlain : Bytes → Type 0
IsPlain = All (λ (b : ℕ). b ≢ 0)

abbrev put_back : ℕ → Option Bytes × Bytes → Option Bytes × Bytes
put_back c (none, r) = (none, c ∷ r)
put_back c (some d, r) = (some (c ∷ d), r)

-- `extract` by recursion on the buffer.
extract-cons :
    (c : ℕ) (cs : Bytes)
    → extract (c ∷ cs) ≡ (if c == 0 then (some [], cs) else put_back c (extract cs))
unfolding extract
extract-cons c cs = ground arith

-- A delimited content is extracted whole, and what follows it is left.
extract-delimit : (d rest : Bytes) → IsPlain d → extract (delimit d ++ rest) ≡ (some d, rest)
unfolding delimit
extract-delimit [] rest h = rw extract-cons
extract-delimit (b ∷ d) rest h = rw extract-cons (ground (arith, extract-delimit d rest h.1))

-- What the shorter buffer gives, with the byte in front of it put back.
append_put_back :
    (c : ℕ) (b more : Bytes) (p : Option Bytes × Bytes) (d r : Bytes)
    → extract b ≡ p
    → ((d' r' : Bytes) → extract b ≡ (some d', r') → extract (b ++ more) ≡ (some d', r' ++ more))
    → put_back c p ≡ (some d, r)
    → put_back c (extract (b ++ more)) ≡ (some d, r ++ more)
append_put_back c b more (none, r') d r e ih h = cc
append_put_back c b more (some d', r') d r e ih h = rw (ih d' r' e) (ground arith)

extract-append :
    (b more d r : Bytes) → extract b ≡ (some d, r) → extract (b ++ more) ≡ (some d, r ++ more)
extract-append [] more d r h = unfold extract in cc
extract-append (c ∷ b) more d r h = elim (Bool-cases (c == 0)) [
  | inl e ↦
      let q : ◌≡◌ {A = Option Bytes × Bytes} (some [], b) (some d, r) = rw (extract-cons, e) at h in
      rw (extract-cons, e) (cc)
  | inr e ↦
      let q : put_back c (extract b) ≡ (some d, r) = rw (extract-cons, e) at h in
      rw (extract-cons, e) (append_put_back c b more (extract b) d r refl (extract-append b more) q)
]

extract-none : (b r : Bytes) → extract b ≡ (none, r) → r ≡ b
unfolding extract
extract-none b r h = ground arith

-- `NullCharFraming` cuts a delimited content without a null byte out of the front of any buffer
-- that begins with it, gives the same content whatever bytes are still to come behind it, changes
-- no buffer that it cuts nothing out of, and finds nothing in the empty buffer.
pub null_char-IsLawful : IsLawful null_char IsPlain
null_char-IsLawful = record {
  extract-delimit = extract-delimit;
  extract-append = extract-append;
  extract-none = extract-none;
  extract-empty = unfold extract in refl;
}
