-- ===== src/Ipc/Client/Routing.antt =====
-- The routing table is left by a request as the request found it.
use vpn_passthrough.Prelude.{
  String, string_eq, Eq, ◌==◌, ◌≡◌, ◌≢◌, refl, ap, false, Option, none, some, List, [], ◌∷◌, ◌++◌,
  elem, or_else, if◌then◌else◌, arith, ◌∙◌, beq_refl,
}
use vpn_passthrough.Prelude.Dict.{Dict, lookup, insert, lookup-insert, lookup-erase}
use vpn_passthrough.Ipc.Protocol.{Protocol}
use vpn_passthrough.Ipc.Client.{
  without, keep_nonempty, register_classes, unregister_class, unregister_classes, event_classes,
  register_event_routing, unregister_event_routing,
}

-- A list of the table once a request is taken out of it.
abbrev nonempty : List String → Option (List String)
nonempty [] = none
nonempty (i ∷ ids) = some (i ∷ ids)

clean : String → Option (List String) → Option (List String)
clean id none = none
clean id (some ids) = nonempty (without id ids)

without-append_self :
    (id : String) (ids : List String) → without id (ids ++ id ∷ []) ≡ without id ids
unfolding without
without-append_self id [] = rw (beq_refl id)
without-append_self id (i ∷ ids) = rw (without-append_self id ids)

without_idem : (id : String) (ids : List String) → without id (without id ids) ≡ without id ids
unfolding without
without_idem id [] = refl
without_idem id (i ∷ ids) = ground (arith, without_idem id ids)

without_absent : (id : String) (ids : List String) → elem id ids ≡ false → without id ids ≡ ids
unfolding without
without_absent id [] h = refl
without_absent id (i ∷ ids) h = ground (arith, without_absent id ids)

clean-nonempty :
    (id : String) (ids : List String) → clean id (nonempty ids) ≡ nonempty (without id ids)
unfolding clean without
clean-nonempty id [] = refl
clean-nonempty id (i ∷ ids) = refl

clean_idem : (id : String) (o : Option (List String)) → clean id (clean id o) ≡ clean id o
unfolding clean
clean_idem id none = refl
clean_idem id (some ids) = clean-nonempty id (without id ids) ∙ ap nonempty (without_idem id ids)

-- Adding a request and taking it out again.
clean-add :
    (id : String) (o : Option (List String))
    → clean id (some (or_else o [] ++ id ∷ [])) ≡ clean id o
unfolding clean without
clean-add id none = rw (beq_refl id)
clean-add id (some ids) = ap nonempty (without-append_self id ids)

-- What a class is routed to: a list that is not empty and does not hold the request.
abbrev pub IsFresh : String → Option (List String) → Type 0
IsFresh id none = Unit
IsFresh id (some ids) = (elem id ids ≡ false) × (ids ≢ [])

clean_fresh : (id : String) (o : Option (List String)) → IsFresh id o → clean id o ≡ o
unfolding clean
clean_fresh id none h = refl
clean_fresh id (some []) h = absurd (h.1 refl)
clean_fresh id (some (i ∷ ids)) h = ap nonempty (without_absent id (i ∷ ids) h.0)

module _ {ℓ} {C : Type ℓ} ⦃e : Eq C⦄ where
  lookup-keep_nonempty :
      (c d : C) (ids : List String) (routing : Dict C (List String))
      → lookup d (keep_nonempty c ids routing) ≡ (if c == d then nonempty ids else lookup d routing)
  unfolding keep_nonempty
  lookup-keep_nonempty c d [] routing = lookup-erase c d routing
  lookup-keep_nonempty c d (i ∷ ids) routing = lookup-insert c d (i ∷ ids) routing

  lookup-unregister_class :
      (id : String) (c d : C) (routing : Dict C (List String)) (o : Option (List String))
      → lookup c routing ≡ o
      → lookup d (unregister_class id c o routing)
        ≡ (if c == d then clean id (lookup d routing) else lookup d routing)
  unfolding unregister_class clean
  lookup-unregister_class id c d routing none p = ground (arith, e.beq_iff c d)
  lookup-unregister_class id c d routing (some ids) p =
      lookup-keep_nonempty c d (without id ids) routing ∙ ground (arith, e.beq_iff c d)

  lookup-unregister_classes :
      (id : String) (cs : List C) (d : C) (routing : Dict C (List String))
      → lookup d (unregister_classes id cs routing)
        ≡ (if elem d cs then clean id (lookup d routing) else lookup d routing)
  unfolding unregister_classes
  lookup-unregister_classes id [] d routing = refl
  lookup-unregister_classes id (c ∷ cs) d routing =
      let routing' = unregister_class id c (lookup c routing) routing in
      lookup-unregister_classes id cs d routing'
      ∙ ground (
        arith,
        lookup-unregister_class id c d routing (lookup c routing) refl,
        clean_idem id (lookup d routing),
      )

  clean-register_classes :
      (id : String) (cs : List C) (d : C) (routing : Dict C (List String))
      → clean id (lookup d (register_classes id cs routing)) ≡ clean id (lookup d routing)
  unfolding register_classes
  clean-register_classes id [] d routing = refl
  clean-register_classes id (c ∷ cs) d routing =
      let added = or_else (lookup c routing) [] ++ id ∷ [] in
      clean-register_classes id cs d (insert c added routing)
      ∙ ground
          (arith, lookup-insert c d added routing, e.beq_iff c d, clean-add id (lookup c routing))

  pub lookup-register_absent :
      (id : String) (cs : List C) (d : C) (routing : Dict C (List String))
      → elem d cs ≡ false
      → lookup d (register_classes id cs routing) ≡ lookup d routing
  unfolding register_classes
  lookup-register_absent id [] d routing h = refl
  lookup-register_absent id (c ∷ cs) d routing h =
      let added = or_else (lookup c routing) [] ++ id ∷ [] in
      lookup-register_absent id cs d (insert c added routing) (ground arith)
      ∙ ground (arith, lookup-insert c d added routing)

  restore :
      (id : String) (cs : List C) (d : C) (routing : Dict C (List String))
      → IsFresh id (lookup d routing)
      → lookup d (unregister_classes id cs (register_classes id cs routing)) ≡ lookup d routing
  restore id cs d routing fresh =
      lookup-unregister_classes id cs d (register_classes id cs routing)
      ∙ ground (
        arith,
        clean-register_classes id cs d routing,
        clean_fresh id (lookup d routing) fresh,
        lookup-register_absent id cs d routing,
      )

  -- For a request identifier that no class is routed to yet, in a table without empty lists, the
  -- registration of a request and its removal leave every class routed as before.
  pub unregister-register :
      (P : Protocol C) (id : String) (c d : C) (routing : Dict C (List String))
      → IsFresh id (lookup d routing)
      → lookup d (unregister_event_routing P id c (register_event_routing P id c routing))
        ≡ lookup d routing
  unfolding unregister_event_routing register_event_routing
  unregister-register P id c d routing fresh =
      restore id (event_classes (P.event_type c)) d routing fresh
