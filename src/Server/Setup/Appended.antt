-- ===== src/Server/Setup/Appended.antt =====
-- What the loops of `New` append to the servers, and when they panic.
use locaccel.Prelude.{
  String, List, [], ◌∷◌, ◌++◌, map, append_assoc, append-nil, Bool, true, false, ◌&&◌, ◌||◌, any,
  ◌==◌, ◌≡◌, refl, sym, ap, arith, Bool-cases, inl, inr,
}
use mathlib.Core.List.{map-append}
use locaccel.Prelude.Panic.{Run, returns, panics, ◌>>=◌}
use locaccel.Server.Setup.{ServerInfo, new_metrics, append_servers}

-- A server that is to be: its service's name, its address, and whether a text that its handler reads
-- the last byte of is empty.
abbrev pub Planned : Type 0
Planned = String × String × Bool

-- Whether some server cannot be set up, of a plan that comes after servers with these names.
abbrev pub refuses : Bool → List Planned → List String → Bool
refuses enabled [] names = false
refuses enabled ((name, address, bad) ∷ plan) names =
    bad
    || (enabled && any (λ other. other == name) names)
    || refuses enabled plan (names ++ name ∷ [])

abbrev pub plan_names : List Planned → List String
plan_names = map (λ p. p.0)

abbrev pub plan_addresses : List Planned → List String
plan_addresses = map (λ p. p.1)

refuses-append :
    (enabled : Bool) (plan rest : List Planned) (names : List String)
    → refuses enabled (plan ++ rest) names
      ≡ (refuses enabled plan names || refuses enabled rest (names ++ plan_names plan))
refuses-append enabled [] rest names = rw (append-nil names) refl
refuses-append enabled ((name, address, bad) ∷ plan) rest names = ground (
  arith,
  refuses-append enabled plan rest (names ++ name ∷ []),
  append_assoc names (name ∷ []) (plan_names plan),
)

any-names :
    {B : Type 0} (name : String) (servers : List (ServerInfo B))
    → any (λ other. other.service_name == name) servers
      ≡ any (λ other. other == name) (map (λ (s : ServerInfo B). s.service_name) servers)
any-names name [] = refl
any-names name (s ∷ servers) = ap (λ b. s.service_name == name || b) (any-names name servers)

map-snoc :
    {A : Type 0} (f : A → String) (xs : List A) (x : A)
    → map f (xs ++ x ∷ []) ≡ map f xs ++ f x ∷ []
map-snoc f [] x = refl
map-snoc f (y ∷ xs) x = ap (λ l. f y ∷ l) (map-snoc f xs x)

module _ {B : Type 0} where
  abbrev pub names_of : List (ServerInfo B) → List String
  names_of = map (λ s. s.service_name)

  abbrev pub addresses_of : List (ServerInfo B) → List String
  addresses_of = map (λ s. s.address)

  abbrev pub IsSetUp : Planned → Run (ServerInfo B) → Type 0
  IsSetUp (name, address, bad) panics = bad ≡ true
  IsSetUp (name, address, bad) (returns s) =
      (bad ≡ false) × (s.service_name ≡ name) × (s.address ≡ address)

  module _ (enabled : Bool) where
    -- The servers of the plan come after those that there are; or one of the plan is refused.
    abbrev pub IsComplete : List Planned → List (ServerInfo B) → Run (List (ServerInfo B)) → Type 0
    IsComplete plan servers panics = refuses enabled plan (names_of servers) ≡ true
    IsComplete plan servers (returns all) =
        (refuses enabled plan (names_of servers) ≡ false)
        × (names_of all ≡ names_of servers ++ plan_names plan)
        × (addresses_of all ≡ addresses_of servers ++ plan_addresses plan)

    IsComplete-cons :
        (name address : String) (bad : Bool) (plan : List Planned) (servers : List (ServerInfo B))
        (s : ServerInfo B) (m : Run (List (ServerInfo B)))
        → bad ≡ false
        → s.service_name ≡ name
        → s.address ≡ address
        → (enabled && any (λ other. other.service_name == s.service_name) servers) ≡ false
        → IsComplete plan (servers ++ s ∷ []) m
        → IsComplete ((name, address, bad) ∷ plan) servers m
    IsComplete-cons name address bad plan servers s panics e n a fresh h = ground (
      arith,
      map-snoc (λ (t : ServerInfo B). t.service_name) servers s,
      any-names s.service_name servers,
    )
    IsComplete-cons name address bad plan servers s (returns all) e n a fresh h = (
      ground (
        arith,
        map-snoc (λ (t : ServerInfo B). t.service_name) servers s,
        any-names s.service_name servers,
      ),
      ground (
        arith,
        n,
        h.1,
        map-snoc (λ (t : ServerInfo B). t.service_name) servers s,
        append_assoc (names_of servers) (name ∷ []) (plan_names plan),
      ),
      ground (
        arith,
        a,
        h.2,
        map-snoc (λ (t : ServerInfo B). t.address) servers s,
        append_assoc (addresses_of servers) (address ∷ []) (plan_addresses plan),
      ),
    )

    module _ {E : Type 0} (setup : E → Run (ServerInfo B)) where
      append_one :
          (p : Planned) (plan : List Planned) (es : List E) (servers : List (ServerInfo B))
          (m : Run (ServerInfo B))
          → IsSetUp p m
          → ((s : ServerInfo B)
              → IsComplete plan
                  (servers ++ s ∷ [])
                  (append_servers enabled setup es (servers ++ s ∷ [])))
          → IsComplete (p ∷ plan) servers (
              m >>= (λ s.
                new_metrics enabled servers s
                >>= (λ s. append_servers enabled setup es (servers ++ s ∷ []))))
      unfolding new_metrics
      append_one (name, address, bad) plan es servers panics h k = ground arith
      append_one (name, address, bad) plan es servers (returns s) (ok, n, a) k =
          elim (Bool-cases
            (enabled && any (λ other. other.service_name == s.service_name) servers)) [
              | inl dup ↦ rw dup (ground (arith, any-names s.service_name servers))
              | inr fresh ↦
                  rw fresh (IsComplete-cons name address bad plan servers s _ ok n a fresh (k s))
            ]

      pub append_servers-IsComplete :
          (plan_of : E → Planned)
          → ((e : E) → IsSetUp (plan_of e) (setup e))
          → (es : List E) (servers : List (ServerInfo B))
          → IsComplete (map plan_of es) servers (append_servers enabled setup es servers)
      unfolding append_servers
      append_servers-IsComplete plan_of h [] servers =
          (refl, sym (append-nil (names_of servers)), sym (append-nil (addresses_of servers)))
      append_servers-IsComplete plan_of h (e ∷ es) servers =
          append_one (plan_of e) (map plan_of es) es servers (setup e) (h e)
            (λ s. append_servers-IsComplete plan_of h es (servers ++ s ∷ []))

    bind_returned :
        (plan rest : List Planned) (servers s : List (ServerInfo B)) (n : Run (List (ServerInfo B)))
        → IsComplete plan servers (returns s)
        → IsComplete rest s n
        → IsComplete (plan ++ rest) servers n
    bind_returned plan rest servers s panics h k =
        ground (arith, refuses-append enabled plan rest (names_of servers))
    bind_returned plan rest servers s (returns all) h k = (
      ground (arith, refuses-append enabled plan rest (names_of servers)),
      ground (
        arith,
        h.1,
        k.1,
        map-append (λ (p : Planned). p.0) plan rest,
        append_assoc (names_of servers) (plan_names plan) (plan_names rest),
      ),
      ground (
        arith,
        h.2,
        k.2,
        map-append (λ (p : Planned). p.1) plan rest,
        append_assoc (addresses_of servers) (plan_addresses plan) (plan_addresses rest),
      ),
    )

    pub bind-IsComplete :
        (plan rest : List Planned) (servers : List (ServerInfo B)) (m : Run (List (ServerInfo B)))
        (k : List (ServerInfo B) → Run (List (ServerInfo B)))
        → IsComplete plan servers m
        → ((s : List (ServerInfo B)) → IsComplete rest s (k s))
        → IsComplete (plan ++ rest) servers (m >>= k)
    bind-IsComplete plan rest servers panics k h g =
        ground (arith, refuses-append enabled plan rest (names_of servers))
    bind-IsComplete plan rest servers (returns s) k h g =
        bind_returned plan rest servers s (k s) h (g s)
