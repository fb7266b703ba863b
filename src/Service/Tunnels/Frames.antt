-- ===== src/Service/Tunnels/Frames.antt =====
-- What the notifications and the loop of the ports leave as it was.
use vpn_passthrough.Prelude.{String, string_eq, ◌≡◌, refl, Option, none, some, Bool-cases, inl, inr}
use vpn_passthrough.Messages.{Message}
use vpn_passthrough.Service.State.{Service, emit, notify_changed}

-- The service, but for what it has emitted and told the observer.
abbrev pub told : Service → Service → Service
told s s' = record s { events = s'.events; updates = s'.updates }

pub emit-told :
    (target : Option String) (e : Message) (s : Service)
    → emit target e s ≡ told s (emit target e s)
unfolding emit
emit-told none e s = refl
emit-told (some id) e s = refl

pub notify_changed-told : (s : Service) → notify_changed s ≡ told s (notify_changed s)
unfolding notify_changed
notify_changed-told s = elim (Bool-cases s.observed) [ inl e ↦ rw e refl | inr e ↦ rw e refl ]
