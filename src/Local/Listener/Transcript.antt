-- ===== src/Local/Listener/Transcript.antt =====
-- What the accept loop of the forwarder has done when it stands, for every sequence of connections
-- and errors.
use ech_tunnel.Base.{
  List, [], ◌∷◌, ◌++◌, none, some, ◌≡◌, Bytes, lookup, bytes_key, map, if◌then◌else◌,
}
use ech_tunnel.Pool.{Effect, conn_close}
use ech_tunnel.Pool.Race.Claims.{claims}
use ech_tunnel.Local.Listener.{
  Arrival, Accepted, accepted, accept_failed, Listening, listening, stopped, panicked, waits_for,
  Progress, behind,
}

-- How the wait of a connection ends: with the server's report, without it, or not yet.
pub data Fate : Type 0 where
  opened closed unanswered : Fate

abbrev pub fate : Arrival → Fate
fate a = elim (lookup a.id a.later.connected) [
  | none ↦ closed
  | some full ↦ if a.by_timer then closed else if full then opened else unanswered
]

abbrev all_claims : Arrival → List Effect
all_claims a = claims a.id 0 a.pool.ws_conns

-- What is done for a connection whose wait is over, and for which of them a goroutine relays.
abbrev end_of : Fate → Arrival → List Effect
end_of closed a = conn_close a.conn ∷ []
end_of opened a = []
end_of unanswered a = []

abbrev pub transcript : List Arrival → List Effect
transcript [] = []
transcript (a ∷ taken) = (all_claims a ++ end_of (fate a) a) ++ transcript taken

abbrev relay_of : Fate → Bytes → List Bytes
relay_of opened id = id ∷ []
relay_of closed id = []
relay_of unanswered id = []

abbrev pub relayed : List Arrival → List Bytes
relayed [] = []
relayed (a ∷ taken) = relay_of (fate a) a.id ++ relayed taken

abbrev IsOver : Fate → Type 0
IsOver unanswered = ⊥
IsOver opened = Unit
IsOver closed = Unit

abbrev pub AllOver : List Arrival → Type 0
AllOver [] = Unit
AllOver (a ∷ taken) = IsOver (fate a) × AllOver taken

-- Why the loop stands where it does, with these events in front of it: none, an error, or a
-- connection whose wait is not over. It has never panicked.
abbrev pub Stands : Listening → List Accepted → Type 0
Stands listening rest = rest ≡ []
Stands stopped rest = (text : Bytes) × (more : List Accepted) × (rest ≡ accept_failed text ∷ more)
Stands panicked rest = ⊥
Stands (waits_for id) rest =
    (a : Arrival) × (more : List Accepted) × (rest ≡ accepted a ∷ more)
    × (a.id ≡ id)
    × (fate a ≡ unanswered)

-- The claims of the connection that the loop waits for.
abbrev pub last_claims : List Accepted → List Effect
last_claims [] = []
last_claims (accept_failed text ∷ rest) = []
last_claims (accepted a ∷ rest) = all_claims a

-- `taken` are the connections that the loop has done with, and `rest` is what is left.
pub record Told (events : List Accepted) (p : Progress) : Type 0 where
  pub taken : List Arrival
  pub rest : List Accepted
  pub all : events ≡ map accepted taken ++ rest
  pub over : AllOver taken
  pub stands : Stands p.state rest
  pub effects : p.effects ≡ transcript taken ++ last_claims rest
  pub relays : p.relays ≡ relayed taken

-- One round of the loop.
after_fate : Fate → Arrival → Progress → Progress
after_fate opened a p = behind (all_claims a ++ []) (a.id ∷ []) p
after_fate closed a p = behind (all_claims a ++ conn_close a.conn ∷ []) [] p
after_fate unanswered a p = record { state = waits_for a.id; effects = all_claims a; relays = [] }
