-- ===== src/Linux/Straight.antt =====
-- Steps of the child one after the other: which of their calls must succeed, and which are made.
use vpn_passthrough.Prelude.{
  ℕ, String, ◌≡◌, refl, sym, ap, ◌∙◌, Bool, true, false, ◌&&◌, Option, none, some, List, [], ◌∷◌,
  ◌++◌, map, append_assoc, append-nil, arith,
}
use vpn_passthrough.Linux.{
  NsType, Call, setns, close, join, capset, raise_ambient, chdir, all_sets, Child, continue, ◌>>◌,
  skip, perform, attempt, enter_client, join_cgroup, raise_all, change_directory, set_caps,
}

-- The calls for an optional descriptor or path.
abbrev pub when {ℓ} : {A : Type ℓ} → Option A → (A → List Call) → List Call
when none calls = []
when (some a) calls = calls a

module _ (succeeds : Call → Bool) where
  abbrev pub all_succeed : List Call → Bool
  all_succeed [] = true
  all_succeed (c ∷ cs) = succeeds c && all_succeed cs

  all_succeed-append :
      (cs ds : List Call) → all_succeed (cs ++ ds) ≡ (all_succeed cs && all_succeed ds)
  all_succeed-append [] ds = refl
  all_succeed-append (c ∷ cs) ds = ground (arith, all_succeed-append cs ds)

  -- It returns where the required calls succeed, has then made all its calls, and makes a first
  -- part of them in any case.
  pub record Straight (m : Child) (required calls : List Call) : Type 0 where
    pub returns : (log : List Call) → (m log).0 ≡ all_succeed required
    pub begins : (log : List Call) → (left : List Call) × (log ++ calls ≡ (m log).1 ++ left)
    pub full : (log : List Call) → (m log).0 ≡ true → (m log).1 ≡ log ++ calls

  pub Straight-skip : Straight skip [] []
  Straight-skip = record {
    returns = λ log. refl;
    begins = λ log. ([], refl);
    full = λ log e. sym (append-nil log);
  }

  pub Straight-perform : (c : Call) → Straight (perform succeeds c) (c ∷ []) (c ∷ [])
  unfolding perform
  Straight-perform c = record {
    returns = λ log. ground arith;
    begins = λ log. ([], sym (append-nil (log ++ c ∷ [])));
    full = λ log e. refl;
  }

  pub Straight-attempt : (c : Call) → Straight (attempt succeeds c) [] (c ∷ [])
  unfolding attempt
  Straight-attempt c = record {
    returns = λ log. refl;
    begins = λ log. ([], sym (append-nil (log ++ c ∷ [])));
    full = λ log e. refl;
  }

  module _ {m k : Child} {r r' cs ds : List Call} (sm : Straight m r cs) (sk : Straight k r' ds)
      (log : List Call) where
    continue-begins :
        (p : Bool × List Call)
        → m log ≡ p
        → (left : List Call) × (log ++ (cs ++ ds) ≡ (continue p k).1 ++ left)
    continue-begins (true, log') e =
        let (left, q) = sk.begins log' in
        let made : log' ≡ log ++ cs = ap (λ p. p.1) (sym e) ∙ sm.full log (ap (λ p. p.0) e) in
        (left, sym (append_assoc log cs ds) ∙ ap (λ l. l ++ ds) (sym made) ∙ q)
    continue-begins (false, log') e =
        let (left, q) = sm.begins log in
        (
          left ++ ds,
          sym (append_assoc log cs ds)
              ∙ ap (λ l. l ++ ds) (q ∙ ap (λ p. p.1 ++ left) e)
              ∙ append_assoc log' left ds,
        )

    continue-full :
        (p : Bool × List Call)
        → m log ≡ p
        → (continue p k).0 ≡ true
        → (continue p k).1 ≡ log ++ (cs ++ ds)
    continue-full (true, log') e h =
        let made : log' ≡ log ++ cs = ap (λ p. p.1) (sym e) ∙ sm.full log (ap (λ p. p.0) e) in
        sk.full log' h ∙ ap (λ l. l ++ ds) made ∙ append_assoc log cs ds
    continue-full (false, log') e h = cc

    continue-returns : (p : Bool × List Call) → m log ≡ p → (continue p k).0 ≡ all_succeed (r ++ r')
    continue-returns (true, log') e =
        rw (all_succeed-append r r', sym (sm.returns log), e) (sk.returns log')
    continue-returns (false, log') e = rw (all_succeed-append r r', sym (sm.returns log), e) refl

  pub Straight-bind :
      {m k : Child} {r r' cs ds : List Call}
      → Straight m r cs
      → Straight k r' ds
      → Straight (m >> k) (r ++ r') (cs ++ ds)
  Straight-bind {m} sm sk = record {
    returns = λ log. continue-returns sm sk log (m log) refl;
    begins = λ log. continue-begins sm sk log (m log) refl;
    full = λ log e. continue-full sm sk log (m log) refl e;
  }

  pub Straight-enter :
      (type : NsType) (o : Option ℕ)
      → Straight
          (enter_client succeeds type o)
          (when o (λ fd. close fd ∷ []))
          (when o (λ fd. setns fd type ∷ close fd ∷ []))
  unfolding enter_client
  Straight-enter type none = Straight-skip
  Straight-enter type (some fd) =
      Straight-bind (Straight-attempt (setns fd type)) (Straight-perform (close fd))

  pub Straight-join :
      (o : Option ℕ)
      → Straight
          (join_cgroup succeeds o)
          (when o (λ fd. close fd ∷ []))
          (when o (λ fd. join fd ∷ close fd ∷ []))
  unfolding join_cgroup
  Straight-join none = Straight-skip
  Straight-join (some fd) = Straight-bind (Straight-attempt (join fd)) (Straight-perform (close fd))

  pub Straight-raise :
      (caps : List ℕ)
      → Straight (raise_all succeeds caps) (map raise_ambient caps) (map raise_ambient caps)
  unfolding raise_all
  Straight-raise [] = Straight-skip
  Straight-raise (cap ∷ caps) =
      Straight-bind (Straight-perform (raise_ambient cap)) (Straight-raise caps)

  pub Straight-chdir :
      (o : Option String)
      → Straight
          (change_directory succeeds o)
          (when o (λ cwd. chdir cwd ∷ []))
          (when o (λ cwd. chdir cwd ∷ []))
  unfolding change_directory
  Straight-chdir none = Straight-skip
  Straight-chdir (some cwd) = Straight-perform (chdir cwd)

  pub Straight-caps :
      (mask : ℕ × ℕ)
      → Straight
          (set_caps succeeds (some mask))
          (capset (all_sets mask.0) (all_sets mask.1) ∷ [])
          (capset (all_sets mask.0) (all_sets mask.1) ∷ [])
  unfolding set_caps
  Straight-caps (low, high) = Straight-perform (capset (all_sets low) (all_sets high))
