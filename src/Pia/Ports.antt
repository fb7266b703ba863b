-- ===== src/Pia/Ports.antt =====
-- The forwarded port of a session: `_allocate_forwarded_port`, `_rebind_loop` and `_forward_port` of
-- app/packages/pia/src/radium226/vpn_passthrough/pia/__init__.py.
use vpn_passthrough.Prelude.{
  ℕ, String, ◌≡◌, ap, ◌∙◌, Bool, true, false, Option, none, some, List, [], ◌∷◌, ◌++◌, map,
  append_assoc, append-nil, sym,
}

-- `PayloadAndSignature`
pub record Signed : Type 0 where
  pub payload : String
  pub signature : String

-- `ForwardedPort`
pub record ForwardedPort : Type 0 where
  pub number : ℕ
  pub signed : Signed

-- What is asked of the provider.
pub data Ask : Type 0 where
  get_token : String → String → Ask
  get_signature : String → String → Ask
  bind : String → Signed → Ask

-- What the provider answers; none where the call raises, as a status of HTTP or of curl that is no
-- success does. The number is read from the payload.
pub record Provider : Type 0 where
  pub token : String → String → Option String
  pub signed : String → String → Option Signed
  pub number : String → Option ℕ
  pub binds : String → Signed → Bool

abbrev pub Asking : Type 0 → Type 0
Asking A = List Ask → Option A × List Ask

abbrev pub continue : {A B : Type 0} → Option A → (A → Asking B) → Asking B
continue none f asked = (none, asked)
continue (some a) f asked = f a asked

infixl 5 ◌>>=◌
abbrev pub ◌>>=◌ : {A B : Type 0} → Asking A → (A → Asking B) → Asking B
m >>= f = λ asked. let (r, asked') = m asked in continue r f asked'

abbrev pub pure : {A : Type 0} → A → Asking A
pure a asked = (some a, asked)

abbrev pub ask : {A : Type 0} → Ask → Option A → Asking A
ask question answer asked = (answer, asked ++ question ∷ [])

-- A reading that raises.
abbrev pub read : {A : Type 0} → Option A → Asking A
read answer asked = (answer, asked)

abbrev pub raised_unless : Bool → Option (Unit {0})
raised_unless true = some tt
raised_unless false = none

module _ (provider : Provider) (gateway_ip user password : String) where
  -- `_bind_port`; an answer other than "OK" is logged.
  unfoldable pub bind_port : Signed → Asking (Unit {0})
  bind_port signed = ask (bind gateway_ip signed) (raised_unless (provider.binds gateway_ip signed))

  -- `_allocate_forwarded_port`
  unfoldable pub allocate_forwarded_port : Asking ForwardedPort
  unfolding bind_port
  allocate_forwarded_port = do
    token ← ask (get_token user password) (provider.token user password)
    signed ← ask (get_signature gateway_ip token) (provider.signed gateway_ip token)
    number ← read (provider.number signed.payload)
    _ ← bind_port signed
    pure (record { number = number; signed = signed })

  -- The rounds of `_rebind_loop`, each with whether the call of that round succeeds; a failure is
  -- logged, and the loop goes on.
  unfoldable pub rebind_rounds : ForwardedPort → List Bool → List Ask → List Ask
  rebind_rounds port [] asked = asked
  rebind_rounds port (succeeds ∷ rounds) asked =
      rebind_rounds port rounds (asked ++ bind gateway_ip port.signed ∷ [])

  abbrev pub number_of : List Bool → Option ForwardedPort × List Ask → Option ℕ × List Ask
  number_of rounds (none, asked) = (none, asked)
  number_of rounds (some port, asked) = (some port.number, rebind_rounds port rounds asked)

  -- `_forward_port`, for as many rounds as pass until it is left and its task is cancelled.
  unfoldable pub forward_port : List Bool → Option ℕ × List Ask
  unfolding allocate_forwarded_port rebind_rounds
  forward_port rounds = number_of rounds (allocate_forwarded_port [])

  rebind_rounds-asked :
      (port : ForwardedPort) (rounds : List Bool) (asked : List Ask)
      → rebind_rounds port rounds asked ≡ asked ++ map (λ _. bind gateway_ip port.signed) rounds
  unfolding rebind_rounds
  rebind_rounds-asked port [] asked = sym (append-nil asked)
  rebind_rounds-asked port (b ∷ rounds) asked =
      rebind_rounds-asked port rounds (asked ++ bind gateway_ip port.signed ∷ [])
      ∙ append_assoc asked (bind gateway_ip port.signed ∷ [])
          (map (λ _. bind gateway_ip port.signed) rounds)

  -- Where the provider gives a token, a signed payload and a number in it, and the payload is bound
  -- once, that number is the forwarded port, and the payload that it was read from is bound again in
  -- every round until the session's port is left, whichever of the rounds fail.
  pub forward_port_keeps_bound :
      (token : String) (signed : Signed) (number : ℕ) (rounds : List Bool)
      → provider.token user password ≡ some token
      → provider.signed gateway_ip token ≡ some signed
      → provider.number signed.payload ≡ some number
      → provider.binds gateway_ip signed ≡ true
      → forward_port rounds ≡ (
        some number,
        get_token user password
            ∷ get_signature gateway_ip token
            ∷ bind gateway_ip signed
            ∷ map (λ _. bind gateway_ip signed) rounds,
      )
  unfolding forward_port allocate_forwarded_port bind_port
  forward_port_keeps_bound token signed number rounds t s n b =
      rw (t, s, n, b)
        (ap (λ l. (some number, l))
          (rebind_rounds-asked (record { number = number; signed = signed }) rounds _))
