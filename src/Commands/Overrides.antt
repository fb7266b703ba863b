-- ===== src/Commands/Overrides.antt =====
-- The DNS overrides of the options: for each domain its addresses, in the order of the options.
use vpn_passthrough.Prelude.{
  String, string_eq, ◌==◌, ◌≡◌, refl, ap, ◌∙◌, Bool, true, false, List, [], ◌∷◌, ◌++◌, append_assoc,
  append-nil, or_else, if◌then◌else◌, Bool-cases, eq_of_beq, inl, inr,
}
use vpn_passthrough.Prelude.Dict.{Dict, lookup, lookup-insert}
use vpn_passthrough.Commands.{add_override, collect}
use vpn_passthrough.Commands.Entry.{partition}

-- The addresses that the entries name for a domain.
unfoldable pub addresses_for : String → List String → List String
unfolding partition
addresses_for domain [] = []
addresses_for domain (entry ∷ entries) =
    let rest = addresses_for domain entries in
    if (partition entry).0 == domain then (partition entry).1 ∷ rest else rest

lookup-add_override :
    (domain : String) (p : String × String) (overrides : Dict String (List String))
    → or_else (lookup domain (add_override p overrides)) []
      ≡ or_else (lookup domain overrides) [] ++ (if p.0 == domain then p.1 ∷ [] else [])
unfolding add_override
lookup-add_override domain (d, ip) overrides = elim (Bool-cases (d == domain)) [
  | inl e ↦ rw (lookup-insert, e, eq_of_beq d domain e) refl
  | inr e ↦ rw (lookup-insert, e, append-nil) refl
]

one_more :
    (b : Bool) (xs rest : List String) (x : String)
    → (xs ++ (if b then x ∷ [] else [])) ++ rest ≡ xs ++ (if b then x ∷ rest else rest)
one_more true xs rest x = append_assoc xs (x ∷ []) rest
one_more false xs rest x = append_assoc xs [] rest

collect-lookup :
    (domain : String) (entries : List String) (overrides : Dict String (List String))
    → or_else (lookup domain (collect entries overrides)) []
      ≡ or_else (lookup domain overrides) [] ++ addresses_for domain entries
unfolding collect addresses_for
collect-lookup domain [] overrides = rw append-nil refl
collect-lookup domain (entry ∷ entries) overrides =
    collect-lookup domain entries (add_override (partition entry) overrides)
    ∙ ap (λ l. l ++ addresses_for domain entries)
        (lookup-add_override domain (partition entry) overrides)
    ∙ one_more ((partition entry).0 == domain) (or_else (lookup domain overrides) [])
        (addresses_for domain entries) (partition entry).1

-- Whatever `--dns-override` options are given, the client is asked to resolve a domain by exactly
-- the addresses that the options name for it, in the order of the options: none is lost where the
-- domains alternate.
pub lookup-collect :
    (domain : String) (entries : List String)
    → or_else (lookup domain (collect entries [])) [] ≡ addresses_for domain entries
unfolding lookup
lookup-collect domain entries = collect-lookup domain entries []
