-- ===== src/Service/Setup/Ensures.antt =====
-- What a setup step has made true when it returns.
use mathlib.Core.List.{reverse}
use vpn_passthrough.Prelude.{
  String, string_eq, ◌≡◌, refl, sym, ap, ◌∙◌, Bool, true, false, Option, none, some, List, [], ◌∷◌,
  ◌++◌, append_assoc, beq_refl,
}
use vpn_passthrough.Prelude.Dict.{Dict, contains, insert, lookup-insert}
use vpn_passthrough.Service.State.{Resource, TunnelContext, Host, Result, ok, err}
use vpn_passthrough.Service.Setup.{
  Request, Building, Setup, continue, ◌>>=◌, lift, modify, entered, connect_with, connect, isolate,
  vpn_or_not, build_with, build,
}
use vpn_passthrough.Service.Setup.Growth.{Grows, Builds}

pub record Ensures {A : Type 0} (P : Building → Type 0) (m : Setup A) : Type 0 where
  pub at : (b : Building) (a : A) → (m b).0 ≡ ok a → P (m b).1

module _ {A B : Type 0} {P : Building → Type 0} where
  continue-last :
      (r : Result A) (f : A → Setup B) (b : Building) (c : B)
      → ((a : A) → Ensures P (f a))
      → (continue r f b).0 ≡ ok c
      → P (continue r f b).1
  continue-last (ok a) f b c hf e = (hf a).at b c e
  continue-last (err x) f b c hf e = cc

  -- The last step makes it true.
  pub Ensures-last :
      (m : Setup A) (f : A → Setup B) → ((a : A) → Ensures P (f a)) → Ensures P (m >>= f)
  Ensures-last m f hf = record { at = λ b c e. continue-last (m b).0 f (m b).1 c hf e }

-- A context manager on the stack.
abbrev pub Has : Resource → Building → Type 0
Has r b = (before : List Resource) × (after : List Resource) × (b.stack ≡ before ++ r ∷ after)

Grows-Has : {name : String} {b c : Building} (r : Resource) → Grows name b c → Has r b → Has r c
Grows-Has r g (before, after, e) = (
  reverse g.rs ++ before,
  after,
  g.stack ∙ ap (λ xs. reverse g.rs ++ xs) e ∙ sym (append_assoc (reverse g.rs) before (r ∷ after)),
)

module _ {A B : Type 0} {name : String} (r : Resource) where
  continue-first :
      (x : Result A) (f : A → Setup B) (b : Building) (c : B)
      → ((a : A) → x ≡ ok a → Has r b)
      → ((a : A) → Builds name (f a))
      → (continue x f b).0 ≡ ok c
      → Has r (continue x f b).1
  continue-first (ok a) f b c h hf e = Grows-Has r ((hf a).at b) (h a refl)
  continue-first (err x) f b c h hf e = cc

  -- The first step puts it on the stack, and the others leave it there.
  Ensures-first :
      (m : Setup A) (f : A → Setup B)
      → Ensures (Has r) m
      → ((a : A) → Builds name (f a))
      → Ensures (Has r) (m >>= f)
  Ensures-first m f hm hf = record {
    at = λ b c e. continue-first (m b).0 f (m b).1 c (hm.at b) hf e;
  }

entered-Has : (r : Resource) (e : Bool) → Ensures (Has r) (entered e r)
unfolding entered
entered-Has r true = record { at = λ b a h. ([], b.stack, refl) }
entered-Has r false = record { at = λ b a h. cc }

module _ (host : Host) (q : Request) where
  abbrev HasContext : Building → Type 0
  HasContext b = contains q.name b.service.tunnel_contexts ≡ true

  context-HasContext :
      (ctx : TunnelContext)
      → Ensures HasContext
          (modify (λ s. record s { tunnel_contexts = insert q.name ctx s.tunnel_contexts }))
  context-HasContext ctx = record { at = λ b a e. simp (lookup-insert, beq_refl) }

  ruleset context_rules = (Ensures-last, context-HasContext)

  isolate-HasContext : Ensures HasContext (isolate host q)
  unfolding isolate
  isolate-HasContext = search context_rules depth 10

  connect_with-HasContext :
      (region : String) (backend : String × Dict String String)
      → Ensures HasContext (connect_with host q region backend)
  unfolding connect_with
  connect_with-HasContext region (type, credentials) = search context_rules depth 20

  vpn_or_not-HasContext :
      (region : Option String) (has_backend : Bool)
      → Ensures HasContext (vpn_or_not host q region has_backend)
  unfolding vpn_or_not connect
  vpn_or_not-HasContext (some region) true = record {
    at = λ b a e.
        (Ensures-last (lift _) (connect_with host q region) (connect_with-HasContext region)).at b a
          e;
  }
  vpn_or_not-HasContext (some region) false = isolate-HasContext
  vpn_or_not-HasContext none has_backend = isolate-HasContext

  build_with-HasContext : (has_backend : Bool) → Ensures HasContext (build_with host q has_backend)
  unfolding build_with
  build_with-HasContext has_backend = search (context_rules, vpn_or_not-HasContext) depth 10

  pub build-HasContext : Ensures HasContext (build host q)
  unfolding build
  build-HasContext = record { at = λ b a e. (build_with-HasContext _).at b a e }
