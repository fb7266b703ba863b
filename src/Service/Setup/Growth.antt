-- ===== src/Service/Setup/Growth.antt =====
-- What the steps of `_setup_tunnel` do to the service, whether they return or raise: they enter
-- context managers, emit events, and write the context of the tunnel itself.
use mathlib.Core.List.{reverse, reverse-append, map-append}
use vpn_passthrough.Prelude.{
  ℕ, String, string_eq, ◌==◌, ◌≡◌, refl, sym, ap, ◌∙◌, Bool, true, false, Option, none, some, List,
  [], ◌∷◌, ◌++◌, append_assoc, append-nil, map,
}
use vpn_passthrough.Prelude.Dict.{Dict, lookup, insert, lookup-insert}
use vpn_passthrough.Messages.{Message}
use vpn_passthrough.Service.State.{
  Resource, forwarded_port, acquire, TunnelContext, Host, Result, ok, err, Service, emit,
}
use vpn_passthrough.Service.Setup.{
  Request, Building, Setup, continue, ◌>>=◌, pure, lift, modify, enter, entered, forward_port,
  forward_ports, activate_kill_switch, connect_with, connect, isolate, vpn_or_not, build_with,
  build,
}

-- All that the steps of one setup may change in the service.
abbrev pub touched : Service → Service → Service
touched s s' = record s {
  trace = s'.trace;
  next_port = s'.next_port;
  events = s'.events;
  tunnel_contexts = s'.tunnel_contexts;
}

-- `rs` are the context managers entered from `b` to `b'`, in order.
pub record Grows (name : String) (b b' : Building) : Type 0 where
  pub rs : List Resource
  pub stack : b'.stack ≡ reverse rs ++ b.stack
  pub trace : b'.service.trace ≡ b.service.trace ++ map acquire rs
  pub frame : b'.service ≡ touched b.service b'.service
  pub others :
      (j : String)
      → (name == j) ≡ false
      → lookup j b'.service.tunnel_contexts ≡ lookup j b.service.tunnel_contexts

pub Grows-refl : (name : String) (b : Building) → Grows name b b
Grows-refl name b = record {
  rs = [];
  stack = refl;
  trace = sym (append-nil b.service.trace);
  frame = refl;
  others = λ j h. refl;
}

pub Grows-trans :
    {name : String} {b c d : Building} → Grows name b c → Grows name c d → Grows name b d
Grows-trans {name} {b} {c} {d} g h = record {
  rs = g.rs ++ h.rs;
  stack = rw reverse-append (
      h.stack
      ∙ ap (λ xs. reverse h.rs ++ xs) g.stack
      ∙ sym (append_assoc (reverse h.rs) (reverse g.rs) b.stack));
  trace = rw map-append (
      h.trace
      ∙ ap (λ xs. xs ++ map acquire h.rs) g.trace
      ∙ append_assoc b.service.trace (map acquire g.rs) (map acquire h.rs));
  frame = h.frame ∙ ap (λ s. touched s d.service) g.frame;
  others = λ j ne. h.others j ne ∙ g.others j ne;
}

-- A setup step that grows the tunnel, however it ends.
pub record Builds {A : Type 0} (name : String) (m : Setup A) : Type 0 where
  pub at : (b : Building) → Grows name b (m b).1

module _ {A B : Type 0} {name : String} where
  Builds-continue :
      {b : Building} (r : Result A) (f : A → Setup B) (b' : Building)
      → Grows name b b'
      → ((a : A) → Builds name (f a))
      → Grows name b (continue r f b').1
  Builds-continue (ok a) f b' g hf = Grows-trans g ((hf a).at b')
  Builds-continue (err e) f b' g hf = g

  pub Builds-bind :
      (m : Setup A) (f : A → Setup B)
      → Builds name m
      → ((a : A) → Builds name (f a))
      → Builds name (m >>= f)
  Builds-bind m f hm hf = record { at = λ b. Builds-continue (m b).0 f (m b).1 (hm.at b) hf }

module _ {A : Type 0} {name : String} where
  pub Builds-pure : (a : A) → Builds name (pure a)
  Builds-pure a = record { at = λ b. Grows-refl name b }

  pub Builds-lift : (r : Result A) → Builds name (lift r)
  Builds-lift r = record { at = λ b. Grows-refl name b }

pub Builds-emit :
    {name : String} (target : Option String) (event : Message)
    → Builds name (modify (emit target event))
unfolding emit
Builds-emit {name} none event = record { at = λ b. Grows-refl name b }
Builds-emit (some id) event = record {
  at = λ b. record {
    rs = [];
    stack = refl;
    trace = sym (append-nil b.service.trace);
    frame = refl;
    others = λ j h. refl;
  };
}

pub Builds-context :
    {name : String} (ctx : TunnelContext)
    → Builds name (modify (λ s. record s { tunnel_contexts = insert name ctx s.tunnel_contexts }))
Builds-context {name} ctx = record {
  at = λ b. record {
    rs = [];
    stack = refl;
    trace = sym (append-nil b.service.trace);
    frame = refl;
    others = λ j h. lookup-insert name j ctx b.service.tunnel_contexts ∙ rw h;
  };
}

pub Builds-entered : {name : String} (e : Bool) (r : Resource) → Builds name (entered e r)
unfolding entered
Builds-entered true r = record {
  at = λ b. record { rs = r ∷ []; stack = refl; trace = refl; frame = refl; others = λ j h. refl };
}
Builds-entered {name} false r = record { at = λ b. Grows-refl name b }

pub Builds-next_port :
    {name : String} (n : ℕ) → Builds name (modify (λ s. record s { next_port = n }))
Builds-next_port n = record {
  at = λ b. record {
    rs = [];
    stack = refl;
    trace = sym (append-nil b.service.trace);
    frame = refl;
    others = λ j h. refl;
  };
}

pub ruleset growth_rules = (
  Builds-bind, Builds-pure, Builds-lift, Builds-emit, Builds-context, Builds-entered,
  Builds-next_port,
)

module _ (host : Host) {name : String} where
  pub Builds-enter : (r : Resource) → Builds name (enter host r)
  unfolding enter
  Builds-enter r = Builds-entered (host.enters r) r

  Builds-forward_port : Builds name (forward_port host name)
  unfolding forward_port
  Builds-forward_port = record {
    at = λ b.
        (Builds-bind (enter host (forwarded_port name b.service.next_port)) _
            (Builds-enter (forwarded_port name b.service.next_port)) (λ _. search growth_rules)).at
          b;
  }

  pub Builds-forward_ports :
      (ps : List String) (ports : Dict String ℕ) → Builds name (forward_ports host name ps ports)
  unfolding forward_ports
  Builds-forward_ports [] ports = Builds-pure ports
  Builds-forward_ports (p ∷ ps) ports =
      Builds-bind (forward_port host name) _ Builds-forward_port
        (λ port. Builds-forward_ports ps (insert p port ports))

module _ (host : Host) (q : Request) where
  pub Builds-kill_switch :
      (wanted : Bool) (ip : Option String) → Builds q.name (activate_kill_switch host q wanted ip)
  unfolding activate_kill_switch
  Builds-kill_switch true (some ip) = Builds-enter host _
  Builds-kill_switch true none = Builds-pure tt
  Builds-kill_switch false ip = Builds-pure tt

  pub ruleset step_rules = (growth_rules, Builds-enter, Builds-forward_ports, Builds-kill_switch)

  Builds-isolate : Builds q.name (isolate host q)
  unfolding isolate
  Builds-isolate = search step_rules

  Builds-connect_with :
      (region : String) (backend : String × Dict String String)
      → Builds q.name (connect_with host q region backend)
  unfolding connect_with
  Builds-connect_with region (type, credentials) = search step_rules depth 16

  Builds-connect : (region : String) → Builds q.name (connect host q region)
  unfolding connect
  Builds-connect region = record {
    at = λ b.
        (Builds-bind (lift _) (connect_with host q region) (Builds-lift _)
            (Builds-connect_with region)).at
          b;
  }

  pub Builds-vpn_or_not :
      (region : Option String) (has_backend : Bool)
      → Builds q.name (vpn_or_not host q region has_backend)
  unfolding vpn_or_not
  Builds-vpn_or_not (some region) true = Builds-connect region
  Builds-vpn_or_not (some region) false = Builds-isolate
  Builds-vpn_or_not none has_backend = Builds-isolate

  Builds-build_with : (has_backend : Bool) → Builds q.name (build_with host q has_backend)
  unfolding build_with
  Builds-build_with has_backend = search (step_rules, Builds-vpn_or_not) depth 16

  pub Builds-build : Builds q.name (build host q)
  unfolding build
  Builds-build = record { at = λ b. (Builds-build_with _).at b }
