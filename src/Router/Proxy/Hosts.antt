-- ===== src/Router/Proxy/Hosts.antt =====
-- internal/router/resolver.go: different Services get different hosts.
use tor_gateway.Base.{
  ℕ, String, ◌≡◌, ◌≢◌, sym, ◌∙◌, inl, inr, true, some, All, codes, codes_injective, cut_unique,
  append_cancel, decimal_injective, eqb, if◌then◌else◌, ◌==◌, ◌||◌, Bool-cases,
}
use tor_gateway.Router.Match.{Backend}
use tor_gateway.Router.Proxy.{Url, service_host, cluster_resolver}

-- No dot in the name, as in every name of a Service or a namespace.
abbrev pub HasNoDot : String → Type 0
HasNoDot s = All (λ (c : ℕ). c ≢ b'.') (codes s)

host_of_resolver :
    (b : Backend) (u : Url) → cluster_resolver b ≡ (some u, true) → u.host ≡ service_host b
unfolding cluster_resolver
host_of_resolver b u e = elim (Bool-cases ((b.name == "") || (b.namespace == "") || eqb b.port 0)) [
  | inl h ↦ absurd (cc (rw (h, if◌then◌else◌) at e))
  | inr h ↦ let p = rw (h, if◌then◌else◌) at e in cc
]

-- Two backends that the resolver sends to the same URL are the same, if their names and namespaces
-- have no dot.
pub cluster_resolver_injective :
    (b c : Backend) (u : Url)
    → HasNoDot b.name
    → HasNoDot c.name
    → HasNoDot b.namespace
    → HasNoDot c.namespace
    → cluster_resolver b ≡ (some u, true)
    → cluster_resolver c ≡ (some u, true)
    → b ≡ c
cluster_resolver_injective b c u bn cn bs cs p q =
    let hosts : service_host b ≡ service_host c =
      sym (host_of_resolver b u p) ∙ host_of_resolver c u q in
    let (name, rest) = cut_unique b'.' (codes b.name) (codes c.name) _ _ bn cn hosts in
    let (namespace, port) =
      cut_unique b'.' (codes b.namespace) (codes c.namespace) _ _ bs cs rest in
    let same_port : b.port ≡ c.port =
      decimal_injective b.port c.port (append_cancel (codes "svc:") _ _ port) in
    cc (
      codes_injective b.name c.name name,
      codes_injective b.namespace c.namespace namespace,
      same_port,
    )
