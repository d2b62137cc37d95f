-- ===== src/Cluster/Connections.antt =====
-- crates/orlando-cluster/src/connection_pool.rs: the pool of connections of a silo or a client. A
-- connection is a value that the network library gives for an address; what it makes of the world is a
-- parameter.
pub mod Caches
use orlando.Base.{
  Bool, true, false, List, [], ◌∷◌, ◌++◌, Option, none, some, if◌then◌else◌, lookup, insert, remove,
  Result, ok, err,
}
use orlando.Core.Ids.{Text, text_key}

pub record ConnectionPool (C : Type 0) : Type 0 where
  pub transports : List (Text × C)
  pub memberships : List (Text × C)
  pub gateways : List (Text × C)
  pub has_tls : Bool
  pub auth_token : Option Text

-- The address and the time-out of `connect_channel` go to this function of the network library.
abbrev pub Dial : Type 0 → Type 0 → Type 0
Dial C W = Text → W → W × Result Text C

-- `new`, `with_tls`, `with_auth` and `with_tls_and_auth`
unfoldable pub new : {C : Type 0} → Bool → Option Text → ConnectionPool C
new has_tls auth_token = record {
  transports = [];
  memberships = [];
  gateways = [];
  has_tls = has_tls;
  auth_token = auth_token;
}

-- "https://" and "http://"
scheme : Bool → Text
scheme true = 0x68 ∷ 0x74 ∷ 0x74 ∷ 0x70 ∷ 0x73 ∷ 0x3a ∷ 0x2f ∷ 0x2f ∷ []
scheme false = 0x68 ∷ 0x74 ∷ 0x74 ∷ 0x70 ∷ 0x3a ∷ 0x2f ∷ 0x2f ∷ []

module _ {C W : Type 0} (dial : Dial C W) where
  unfoldable pub connect_channel : Text → ConnectionPool C → W → W × Result Text C
  unfolding scheme
  connect_channel endpoint p w = dial (scheme p.has_tls ++ endpoint) w

  -- The pool with the new connection, put where the call keeps its own.
  dialled :
      (C → ConnectionPool C)
      → ConnectionPool C
      → W × Result Text C
      → ConnectionPool C × W × Result Text C
  dialled keep p (w, ok c) = (keep c, w, ok c)
  dialled keep p (w, err e) = (p, w, err e)

  cached :
      Option C
      → (C → ConnectionPool C)
      → Text
      → ConnectionPool C
      → W
      → ConnectionPool C × W × Result Text C
  unfolding dialled
  cached (some c) keep endpoint p w = (p, w, ok c)
  cached none keep endpoint p w = dialled keep p (connect_channel endpoint p w)

  unfoldable pub get_transport : Text → ConnectionPool C → W → ConnectionPool C × W × Result Text C
  unfolding cached
  get_transport endpoint p =
      cached (lookup endpoint p.transports)
        (λ c. record p { transports = insert endpoint c p.transports }) endpoint p

  unfoldable pub get_membership : Text → ConnectionPool C → W → ConnectionPool C × W × Result Text C
  unfolding cached
  get_membership endpoint p =
      cached (lookup endpoint p.memberships)
        (λ c. record p { memberships = insert endpoint c p.memberships }) endpoint p

  unfoldable pub get_gateway : Text → ConnectionPool C → W → ConnectionPool C × W × Result Text C
  unfolding cached
  get_gateway endpoint p =
      cached (lookup endpoint p.gateways)
        (λ c. record p { gateways = insert endpoint c p.gateways }) endpoint p

-- `ConnectionPool::remove`
unfoldable pub forget : {C : Type 0} → Text → ConnectionPool C → ConnectionPool C
forget endpoint p = record p {
  transports = remove endpoint p.transports;
  memberships = remove endpoint p.memberships;
  gateways = remove endpoint p.gateways;
}
