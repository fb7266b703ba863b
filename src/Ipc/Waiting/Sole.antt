-- ===== src/Ipc/Waiting/Sole.antt =====
-- A direction of a connection in which at most one task waits, through what may happen to it.
use vpn_passthrough.Prelude.{
  ℕ, nat_eq, ◌==◌, ◌≡◌, ◌≢◌, ◌⊎◌, refl, sym, ◌∙◌, Bool, true, false, Option, none, some,
  if◌then◌else◌, arith, Bool-cases, inl, inr, ap, beq_refl,
}
use vpn_passthrough.Prelude.Dict.{Dict, lookup, erase, lookup-insert, lookup-erase}
use vpn_passthrough.Ipc.Waiting.{
  Wait, is_pending, pending, done, cancelled, Side, begin_wait, settle, on_ready, go_on_from,
  release,
}

-- Every future is the one that the connection knows, and where it is pending, the loop watches the
-- descriptor and the connection is open.
abbrev pub Sole : Bool → Side → Type 0
Sole open_fd s =
    (k : ℕ) (w : Wait)
    → lookup k s.futures ≡ some w
    → (s.waiter ≡ some k) × (w ≡ pending → (s.watched ≡ true) × (open_fd ≡ true))

pending_of : (o : Option Wait) → is_pending o ≡ true → o ≡ some pending
pending_of none h = cc
pending_of (some pending) h = refl
pending_of (some done) h = cc
pending_of (some cancelled) h = cc

-- A future with an outcome had one before or is the one that is settled.
settle_from :
    (outcome : Wait) (waiter : Option ℕ) (futures : Dict ℕ Wait) (k : ℕ) (w : Wait)
    → lookup k (settle outcome waiter futures) ≡ some w
    → (lookup k futures ≡ some w) ⊎ ((w ≡ outcome) × (lookup k futures ≡ some pending))
unfolding settle
settle_from outcome none futures k w h = inl h
settle_from outcome (some j) futures k w h = elim (Bool-cases (is_pending (lookup j futures))) [
  | inl e ↦
      let p = pending_of (lookup j futures) e in
      elim (Bool-cases (j == k)) [
        | inl same ↦ inr (grind (arith, lookup-insert j k outcome futures))
        | inr other ↦ inl (grind (arith, lookup-insert j k outcome futures))
      ]
  | inr e ↦ inl (grind arith)
]

settle_pending :
    (outcome : Wait) (futures : Dict ℕ Wait) (k : ℕ)
    → lookup k futures ≡ some pending
    → lookup k (settle outcome (some k) futures) ≡ some outcome
unfolding settle
settle_pending outcome futures k h = rw (h, lookup-insert k k outcome futures, beq_refl k) refl

-- Where the future that is known is settled, none is pending.
settle_known :
    (outcome : Wait) (open_fd : Bool) (s : Side)
    → outcome ≢ pending
    → Sole open_fd s
    → (k : ℕ) → lookup k (settle outcome s.waiter s.futures) ≢ some pending
unfolding settle
settle_known outcome open_fd s n sole k h =
    elim (settle_from outcome s.waiter s.futures k pending h) [
      | inl p ↦
          let known = (sole k pending p).0 in
          let settled = settle_pending outcome s.futures k p in n (cc)
      | inr p ↦ n (sym p.0)
    ]

-- A future that is settled is still the one that is known.
pub settle-Sole :
    (outcome : Wait) (open_fd : Bool) (waiter : Option ℕ) (s : Side)
    → outcome ≢ pending
    → Sole open_fd s
    → Sole open_fd (record s { futures = settle outcome waiter s.futures })
settle-Sole outcome open_fd waiter s n sole k w h =
    elim (settle_from outcome waiter s.futures k w h) [
      | inl p ↦ sole k w p
      | inr p ↦ ((sole k pending p.1).0, λ e. elim (n (sym p.0 ∙ e)) [ ])
    ]

-- Where none is pending, it does not matter whether the descriptor is watched.
none_pending-Sole :
    (outcome : Wait) (open_fd open_after watched : Bool) (s : Side)
    → outcome ≢ pending
    → Sole open_fd s
    → Sole open_after (record s { watched = watched; futures = settle outcome s.waiter s.futures })
none_pending-Sole outcome open_fd open_after watched s n sole k w h = (
  (settle-Sole outcome open_fd s.waiter s n sole k w h).0,
  λ e. elim (settle_known outcome open_fd s n sole k (h ∙ ap some e)) [ ],
)

-- There is no other future.
only_one :
    (open_fd : Bool) (j k : ℕ) (v w : Wait) (s : Side)
    → Sole open_fd s
    → lookup j s.futures ≡ some v
    → lookup k (erase j s.futures) ≢ some w
only_one open_fd j k v w s sole e h = elim (Bool-cases (j == k)) [
  | inl same ↦ grind (arith, lookup-erase j k s.futures)
  | inr other ↦
      let p : lookup k s.futures ≡ some w = grind (arith, lookup-erase j k s.futures) in
      let known_j = (sole j v e).0 in let known_k = (sole k w p).0 in grind arith
]

pub go_on_from-Sole :
    (open_fd : Bool) (j : ℕ) (o : Option Wait) (s : Side)
    → lookup j s.futures ≡ o
    → Sole open_fd s
    → Sole open_fd (go_on_from open_fd j o s)
unfolding go_on_from
go_on_from-Sole open_fd j none s e sole = sole
go_on_from-Sole open_fd j (some pending) s e sole = sole
go_on_from-Sole open_fd j (some done) s e sole =
    λ k w h. elim (only_one open_fd j k done w s sole e h) [ ]
go_on_from-Sole open_fd j (some cancelled) s e sole =
    λ k w h. elim (only_one open_fd j k cancelled w s sole e h) [ ]

-- Where no future is known, a wait may begin.
pub begin_wait-Sole :
    (k : ℕ) (open_fd : Bool) (s : Side)
    → open_fd ≡ true
    → s.waiter ≡ none
    → Sole open_fd s
    → Sole open_fd (begin_wait k s)
unfolding begin_wait
begin_wait-Sole k open_fd s o n sole j w h = elim (Bool-cases (k == j)) [
  | inl same ↦ (grind arith, λ e. (refl, o))
  | inr other ↦
      let p : lookup j s.futures ≡ some w = grind (arith, lookup-insert k j pending s.futures) in
      let known = (sole j w p).0 in elim (let z : ⊥ = cc in z) [ ]
]

either-Sole :
    (open_fd b : Bool) (s t : Side)
    → Sole open_fd s
    → Sole open_fd t
    → Sole open_fd (if b then s else t)
either-Sole open_fd true s t h k = h
either-Sole open_fd false s t h k = k

pub on_ready-Sole : (open_fd : Bool) (s : Side) → Sole open_fd s → Sole open_fd (on_ready s)
unfolding on_ready
on_ready-Sole open_fd s sole =
    either-Sole open_fd s.watched
      (record s { watched = false; futures = settle done s.waiter s.futures }) s
      (none_pending-Sole done open_fd open_fd false s (cc) sole) sole

pub release-Sole : (open_fd : Bool) (s : Side) → Sole open_fd s → Sole false (release open_fd s)
unfolding release
release-Sole true s sole = none_pending-Sole cancelled true false false s (cc) sole
release-Sole false s sole = sole

pub not_pending : (o : Option Wait) → o ≢ some pending → is_pending o ≡ false
not_pending none h = refl
not_pending (some pending) h = elim (h refl) [ ]
not_pending (some done) h = refl
not_pending (some cancelled) h = refl

futures_of_either :
    (b : Bool) (s t : Side) → (if b then s else t).futures ≡ (if b then s.futures else t.futures)
futures_of_either true s t = refl
futures_of_either false s t = refl

pub on_ready_wakes :
    (open_fd : Bool) (s : Side) (k : ℕ)
    → Sole open_fd s
    → lookup k (on_ready s).futures ≢ some pending
unfolding on_ready
on_ready_wakes open_fd s k sole h =
    let f =
      futures_of_either s.watched
        (record s { watched = false; futures = settle done s.waiter s.futures }) s in
    elim (Bool-cases s.watched) [
      | inl e ↦ settle_known done open_fd s (cc) sole k (cc)
      | inr e ↦
          let p : lookup k s.futures ≡ some pending = cc in
          let watched = ((sole k pending p).1 refl).0 in cc
    ]

pub release_wakes :
    (open_fd : Bool) (s : Side) (k : ℕ)
    → Sole open_fd s
    → lookup k (release open_fd s).futures ≢ some pending
unfolding release
release_wakes true s k sole h = settle_known cancelled true s (cc) sole k h
release_wakes false s k sole h = let was_open = ((sole k pending h).1 refl).1 in cc
