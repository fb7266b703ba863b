-- ===== src/Network/Undo.antt =====
-- What leaving `Internet.share` deletes.
use vpn_passthrough.Prelude.{
  ap, ℕ, ◌≡◌, refl, Option, none, some, List, [], ◌∷◌, ◌++◌, String, append_assoc, sym, ◌∙◌, All,
}
use vpn_passthrough.Network.{
  Interface, internet_table, delete_rule, delete_table, on_host, Chain, Call, System, enter,
}
use vpn_passthrough.Network.Managers.{insertions, deletion, deletions, share}
use vpn_passthrough.Network.Cleanup.{enter_entered}

-- A call stands in a list.
abbrev pub Occurs : Call → List Call → Type 0
Occurs c calls = (xs : List Call) × (ys : List Call) × (calls ≡ xs ++ c ∷ ys)

Occurs-prepend : (c : Call) (calls more : List Call) → Occurs c calls → Occurs c (more ++ calls)
Occurs-prepend c calls more (xs, ys, e) =
    (more ++ xs, ys, ap (λ l. more ++ l) e ∙ sym (append_assoc more xs (c ∷ ys)))

Occurs-append : (c : Call) (calls more : List Call) → Occurs c calls → Occurs c (calls ++ more)
Occurs-append c calls more (xs, ys, e) =
    (xs, ys ++ more, ap (λ l. l ++ more) e ∙ append_assoc xs (c ∷ ys) more)

module _ (sys : System) where
  -- The rule that an insertion made, if nft gave its handle, is deleted by one of the calls.
  abbrev pub IsUndone : List Call → Chain × Call → Type 0
  IsUndone calls (chain, c) =
      (handle : ℕ) → sys.handle c ≡ some handle → Occurs (on_host, delete_rule chain handle) calls

  IsUndone-prepend :
      (more calls : List Call) (inserted : List (Chain × Call))
      → All (IsUndone calls) inserted
      → All (IsUndone (more ++ calls)) inserted
  IsUndone-prepend more calls [] h = tt
  IsUndone-prepend more calls (i ∷ inserted) (now, later) = (
    λ handle e. Occurs-prepend _ calls more (now handle e),
    IsUndone-prepend more calls inserted later,
  )

  IsUndone-append :
      (more calls : List Call) (inserted : List (Chain × Call))
      → All (IsUndone calls) inserted
      → All (IsUndone (calls ++ more)) inserted
  IsUndone-append more calls [] h = tt
  IsUndone-append more calls (i ∷ inserted) (now, later) = (
    λ handle e. Occurs-append _ calls more (now handle e),
    IsUndone-append more calls inserted later,
  )

  deletion_undoes :
      (chain : Chain) (o : Option ℕ) (handle : ℕ)
      → o ≡ some handle
      → Occurs (on_host, delete_rule chain handle) (deletion chain o)
  unfolding deletion
  deletion_undoes chain none handle e = cc
  deletion_undoes chain (some n) handle e = ([], [], cc)

  deletions_undo :
      (inserted : List (Chain × Call)) → All (IsUndone (deletions sys inserted)) inserted
  unfolding deletions
  deletions_undo [] = tt
  deletions_undo ((chain, c) ∷ more) = (
    λ handle e.
        Occurs-append _ (deletion chain (sys.handle c)) (deletions sys more)
          (deletion_undoes chain (sys.handle c) handle e),
    IsUndone-prepend (deletion chain (sys.handle c)) (deletions sys more) more
        (deletions_undo more),
  )

  -- Once `Internet.share` is entered, leaving it deletes every rule that it inserted into a chain
  -- of the host and was given the handle of, and deletes the table of the tunnel at the end.
  pub share_undoes :
      (name : String) (i : Interface) (calls undo : List Call)
      → enter sys (share sys name i) ≡ (calls, some undo)
      → All (IsUndone undo) (insertions i sys.chains)
        × ((deleted : List Call) × (undo
              ≡ deleted ++ (on_host, delete_table (internet_table name)) ∷ []))
  unfolding share
  share_undoes name i calls undo h =
      let inserted = insertions i sys.chains in
      let e = (enter_entered sys (share sys name i) calls undo h).1 in
      rw e (
        IsUndone-append ((on_host, delete_table (internet_table name)) ∷ [])
            (deletions sys inserted) inserted (deletions_undo inserted),
        (deletions sys inserted, refl),
      )
