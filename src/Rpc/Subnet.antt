-- ===== src/Rpc/Subnet.antt =====
-- internal/rpc/interceptor.go: NewTrustedSubnetInterceptor. The networks of package net are
-- parameters, and so is the handler that the interceptor forwards to.
use metrify.Base.{
  String, Bytes, Bool, true, Option, none, some, List, [], ◌∷◌, ◌⊎◌, inl, inr, ◌≡◌, ◌≢◌, ap, refl,
  codes, Prog, pure, returned, if◌then◌else◌, is_empty, is_empty-cases, is_empty_of_ne,
  Option-cases, Bool-cases,
}
use metrify.Base.GoMap.{lookup}
use metrify.Failure.{Failure, message}
use metrify.Rpc.{Status, status, permission_denied}

-- net.ParseCIDR, with the network that it returns, net.ParseIP, and IPNet.Contains; `wrap_cidr`
-- is the text of fmt.Errorf over an error of ParseCIDR.
pub record Networks (Net Ip : Type 0) : Type 0 where
  pub parse_cidr : Bytes → Failure ⊎ Net
  pub parse_ip : Bytes → Option Ip
  pub contains : Net → Ip → Bool
  pub wrap_cidr : Bytes → Failure → Failure

-- metadata.MD, by its keys in lower case.
abbrev pub Metadata : Type 0
Metadata = List (String × List Bytes)

abbrev or_no_values : Option (List Bytes) → List Bytes
or_no_values none = []
or_no_values (some vs) = vs

-- A call's reply or its status, and what it does to a state.
abbrev pub UnaryHandler : Type 0 → Type 0 → Type 0
UnaryHandler S A = Prog S (Status ⊎ A)

-- The interceptor, for a call with the metadata of its context.
abbrev pub Interceptor : Type 0 → Type 0 → Type 0
Interceptor S A = Option Metadata → UnaryHandler S A → UnaryHandler S A

-- The first value of x-real-ip is an address of the network.
module _ {Net Ip : Type 0} (n : Networks Net Ip) where
  abbrev pub IsTrusted : Net → Option Metadata → Type 0
  IsTrusted net md =
      (m : Metadata) × (v : Bytes) × (vs : List Bytes) × (ip : Ip) × (md ≡ some m)
      × (lookup "x-real-ip" m ≡ some (v ∷ vs))
      × (v ≢ [])
      × (n.parse_ip v ≡ some ip)
      × (n.contains net ip ≡ true)

module _ {Net Ip S A : Type 0} (n : Networks Net Ip) where
  abbrev denied : Bytes → UnaryHandler S A
  denied text = pure (inl (status permission_denied (message text)))

  abbrev check_ip : Net → Option Ip → UnaryHandler S A → UnaryHandler S A
  check_ip net none handler = denied (codes "invalid x-real-ip")
  check_ip net (some ip) handler =
      if n.contains net ip then handler else denied (codes "agent ip is not in trusted subnet")

  abbrev check_values : Net → List Bytes → UnaryHandler S A → UnaryHandler S A
  check_values net [] handler = denied (codes "x-real-ip metadata is missing")
  check_values net (v ∷ vs) handler =
      if is_empty v
      then denied (codes "x-real-ip metadata is missing")
      else check_ip net (n.parse_ip v) handler

  unfoldable intercept : Option Net → Interceptor S A
  unfolding lookup
  intercept none md handler = handler
  intercept (some net) none handler = denied (codes "metadata is missing")
  intercept (some net) (some md) handler =
      check_values net (or_no_values (lookup "x-real-ip" md)) handler

  abbrev with_net : Bytes → Failure ⊎ Net → Failure ⊎ Interceptor S A
  with_net text (inl e) = inl (n.wrap_cidr text e)
  with_net text (inr net) = inr (intercept (some net))

  unfoldable pub new_trusted_subnet_interceptor : Bytes → Failure ⊎ Interceptor S A
  unfolding intercept
  new_trusted_subnet_interceptor trusted_subnet =
      if is_empty trusted_subnet
      then inr (intercept none)
      else with_net trusted_subnet (n.parse_cidr trusted_subnet)

  abbrev Denied : Option Net → Option Metadata → UnaryHandler S A → S → Type 0
  Denied net md handler s =
      (e : Failure) × (intercept net md handler s
        ≡ (returned (inl (status permission_denied e)), s))

  intercept-trusted :
      (net : Net) (md : Option Metadata) (handler : UnaryHandler S A)
      → IsTrusted n net md
      → intercept (some net) md handler ≡ handler
  unfolding intercept
  intercept-trusted net md handler (m, v, vs, ip, given, found, some_text, parsed, inside) =
      rw (given, intercept) (rw (found, is_empty_of_ne v some_text) (rw (parsed, inside)))

  intercept-Denied :
      (net : Net) (md : Option Metadata) (handler : UnaryHandler S A) (s : S)
      → ¬ IsTrusted n net md
      → Denied (some net) md handler s
  unfolding intercept
  intercept-Denied net none handler s refused = (_, refl)
  intercept-Denied net (some m) handler s refused = by_values (lookup "x-real-ip" m) refl
    where
      by_ip :
          (v : Bytes) (vs : List Bytes)
          → lookup "x-real-ip" m ≡ some (v ∷ vs)
          → v ≢ []
          → (e : Failure) × (check_ip net (n.parse_ip v) handler s
              ≡ (returned (inl (status permission_denied e)), s))
      by_ip v vs found some_text = elim (Option-cases (n.parse_ip v)) [
        | inl bad ↦ rw bad (_, refl)
        | inr (ip, parsed) ↦ elim (Bool-cases (n.contains net ip)) [
          | inl inside ↦ absurd (refused (m, v, vs, ip, refl, found, some_text, parsed, inside))
          | inr outside ↦ rw (parsed, outside) (_, refl)
        ]
      ]

      by_values :
          (found : Option (List Bytes))
          → lookup "x-real-ip" m ≡ found
          → Denied (some net) (some m) handler s
      by_values none e = rw (e, intercept) (_, refl)
      by_values (some []) e = rw (e, intercept) (_, refl)
      by_values (some (v ∷ vs)) e = elim (is_empty-cases v) [
        | inl empty ↦ rw (e, intercept) (rw empty (_, refl))
        | inr (some_text, test) ↦ rw (e, intercept) (rw test (by_ip v vs e some_text))
      ]

  -- A configured network that parses gives an interceptor, which forwards a call, unchanged,
  -- exactly if the first value of x-real-ip in its metadata is an address of that network, and
  -- else replies PermissionDenied and leaves the state as it was. With no network configured it
  -- forwards every call, and one that does not parse is refused.
  pub new_trusted_subnet_interceptor-serves :
      (text : Bytes) (md : Option Metadata) (handler : UnaryHandler S A) (s : S)
      → (text ≡ []
          → (i : Interceptor S A) × (new_trusted_subnet_interceptor text ≡ inr i)
            × (i md handler s ≡ handler s))
        × ((e : Failure)
            → text ≢ []
            → n.parse_cidr text ≡ inl e
            → new_trusted_subnet_interceptor text ≡ inl (n.wrap_cidr text e))
        × ((net : Net)
            → text ≢ []
            → n.parse_cidr text ≡ inr net
            → (i : Interceptor S A) × (new_trusted_subnet_interceptor text ≡ inr i)
              × (IsTrusted n net md → i md handler s ≡ handler s)
              × (¬ IsTrusted n net md
                  → (e : Failure) × (i md handler s
                      ≡ (returned (inl (status permission_denied e)), s))))
  unfolding new_trusted_subnet_interceptor
  new_trusted_subnet_interceptor-serves text md handler s = (
    (λ none_set. rw (none_set, new_trusted_subnet_interceptor) (intercept none, refl, refl)),
    (λ e some_set bad. rw (is_empty_of_ne text some_set, bad)),
    λ net some_set parsed.
        rw (is_empty_of_ne text some_set, parsed)
          (
            intercept (some net),
            refl,
            (λ t. ap (λ (h : UnaryHandler S A). h s) (intercept-trusted net md handler t)),
            intercept-Denied net md handler s,
          ),
  )
