-- ===== src/Cluster/Joining/Seeds.antt =====
-- The fixed list of seeds: what `endpoint` writes is read back.
use orlando.Base.{
  ℕ, ◌<◌, ◌==◌, false, ◌≡◌, refl, List, [], ◌∷◌, ◌++◌, map, Option, none, some, All, show,
  show_plain,
}
use orlando.Core.Ids.{Text}
use orlando.Cluster.Ring.{SiloAddress, endpoint, colon}
use orlando.Cluster.Swim.Addresses.{HasPort}
use orlando.Cluster.Joining.{rsplit_colon, seed_of, kept, static_seeds}

rsplit_colon_plain : (t : Text) → All (λ d. (d == colon) ≡ false) t → rsplit_colon t ≡ none
unfolding rsplit_colon
rsplit_colon_plain [] h = refl
rsplit_colon_plain (x ∷ t) (p, h) = rw (rsplit_colon_plain t h, p) refl

rsplit_colon_last :
    (host t : Text)
    → All (λ d. (d == colon) ≡ false) t
    → rsplit_colon (host ++ colon ∷ t) ≡ some (host, t)
unfolding rsplit_colon
rsplit_colon_last [] t h = rw (rsplit_colon_plain t h) refl
rsplit_colon_last (x ∷ host) t h = rw (rsplit_colon_last host t h) refl

-- The seed that an address makes: its id is the whole address.
abbrev pub as_seed : SiloAddress → SiloAddress
as_seed s = record { host = s.host; port = s.port; silo_id = endpoint s }

-- The list of the written addresses of silos gives back their hosts and ports, in order and with none
-- left out, also where a host has colons in it, as an IPv6 address does. The parse reads what is
-- printed of a 16-bit number.
pub static_seeds-endpoint :
    (parse : Text → Option ℕ) (silos : List SiloAddress)
    → ((n : ℕ) → n < 65536 → parse (show n) ≡ some n)
    → All HasPort silos
    → static_seeds parse (map endpoint silos) ≡ map as_seed silos
unfolding static_seeds endpoint seed_of kept
static_seeds-endpoint parse [] reads ports = refl
static_seeds-endpoint parse (s ∷ r) reads (p, ports) =
    rw
      (
        rsplit_colon_last s.host (show s.port) (show_plain s.port),
        reads s.port p,
        static_seeds-endpoint parse r reads ports,
      )
      refl
