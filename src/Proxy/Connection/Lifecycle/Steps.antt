-- ===== src/Proxy/Connection/Lifecycle/Steps.antt =====
-- What it is for an operation to be a walk of the life cycle.
use elastos_carrier_native.Prelude.{
  ℕ, ◌≡◌, refl, sym, ap, subst, ◌∙◌, Bool, true, false, leb, ◌==◌, if◌then◌else◌, arith,
}
use elastos_carrier_native.Proxy.Connection.{
  ConnectionState, initializing, authenticating, attaching, idling, relaying, disconnecting, closed,
  state_value, is_state, Connection,
}
use elastos_carrier_native.Proxy.Connection.Lifecycle.{Moves, stays, then_moves}

state_of : ℕ → ConnectionState
state_of n =
    if n == 0
    then initializing
    else if n == 1
    then authenticating
    else if n == 2
    then attaching
    else if n == 3
    then idling
    else if n == 4
    then relaying
    else if n == 5
    then disconnecting
    else closed

state_of-state_value : (s : ConnectionState) → state_of (state_value s) ≡ s
unfolding state_of
state_of-state_value initializing = refl
state_of-state_value authenticating = refl
state_of-state_value attaching = refl
state_of-state_value idling = refl
state_of-state_value relaying = refl
state_of-state_value disconnecting = refl
state_of-state_value closed = refl

pub is_state-eq : (a b : ConnectionState) → is_state a b ≡ true → a ≡ b
is_state-eq a b e =
    let same : state_value a ≡ state_value b = ground arith in
    sym (state_of-state_value a) ∙ ap state_of same ∙ state_of-state_value b

-- The upstream is in use behind the opening only.
abbrev pub IsConnection : Connection → Type 0
IsConnection c = c.upstream_closed ≡ false → leb 3 (state_value c.state) ≡ true

pub record Follows (c d : Connection) : Type 0 where
  pub moves : Moves c.state c.statuses d.state d.statuses
  pub keeps : IsConnection d

-- The state and the handlers' calls stay, and a mark on the upstream.
pub record IsQuiet (c d : Connection) : Type 0 where
  pub same_state : d.state ≡ c.state
  pub same_statuses : d.statuses ≡ c.statuses
  pub keeps_mark : d.upstream_closed ≡ false → c.upstream_closed ≡ false

pub quiet : (c : Connection) → IsQuiet c c
quiet c = record { same_state = refl; same_statuses = refl; keeps_mark = λ e. e }

pub IsQuiet-Follows : (c d : Connection) → IsConnection c → IsQuiet c d → Follows c d
IsQuiet-Follows c d ok q = record {
  moves =
      subst (λ s. Moves c.state c.statuses s d.statuses) (sym q.same_state)
        (subst (λ h. Moves c.state c.statuses c.state h) (sym q.same_statuses) stays);
  keeps = λ open_mark. ap (λ s. leb 3 (state_value s)) q.same_state ∙ ok (q.keeps_mark open_mark);
}

pub Follows-trans : (c d e : Connection) → Follows c d → Follows d e → Follows c e
Follows-trans c d e f g = record { moves = then_moves f.moves g.moves; keeps = g.keeps }

pub if-IsQuiet :
    (c : Connection) (b : Bool) (x y : Connection)
    → IsQuiet c x
    → IsQuiet c y
    → IsQuiet c (if b then x else y)
if-IsQuiet c true x y p q = p
if-IsQuiet c false x y p q = q

pub if-Follows :
    (c : Connection) (b : Bool) (x y : Connection)
    → (b ≡ true → Follows c x)
    → (b ≡ false → Follows c y)
    → Follows c (if b then x else y)
if-Follows c true x y p q = p refl
if-Follows c false x y p q = q refl
