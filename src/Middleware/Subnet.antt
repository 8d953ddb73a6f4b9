-- ===== src/Middleware/Subnet.antt =====
-- internal/subnet/subnet.go: requests from outside a trusted subnet are refused. Both functions of
-- the file: the middleware and the interceptor of the gRPC server.
use go_metrics_harvester.Base.{
  String, ◌≡◌, ◌≢◌, ◌↔◌, sym, ◌⊎◌, inl, eq-eq_false, inr, refl, true, false, Bool, Bool-cases,
  Option, none, some, List, [], ◌∷◌, ◌==◌, eq_iff, arith, if◌then◌else◌, not, Option-cases,
}
use mathlib.Core.Path.{subst}
use mathlib.Core.Bool.{false≢true}
use go_metrics_harvester.Http.{Request, Handler, Middleware, Net, refuse}

-- What the program takes from the package net.
pub record Addresses : Type 1 where
  pub Ip : Type 0
  pub Subnet : Type 0
  pub parse_ip : String → Option Ip
  pub parse_cidr : String → Option Subnet
  pub contains : Subnet → Ip → Bool

head_eq : {x y : String} {xs ys : List String} → x ∷ xs ≡ y ∷ ys → x ≡ y
head_eq e = cc e

module _ (a : Addresses) where
  -- The three tests that both functions make on an address, in their order.
  unfoldable pub is_trusted : String → String → Bool
  is_trusted subnet address = elim (a.parse_ip address) [
    | none ↦ false
    | some ip ↦ elim (a.parse_cidr subnet) [ none ↦ false | some net ↦ a.contains net ip ]
  ]

  -- An address that the text `subnet` covers.
  pub record InSubnet (subnet address : String) : Type 0 where
    pub ip : a.Ip
    pub net : a.Subnet
    pub is_address : a.parse_ip address ≡ some ip
    pub is_subnet : a.parse_cidr subnet ≡ some net
    pub inside : a.contains net ip ≡ true

  unfoldable pub with_trusted_subnets : {S : Type 0} → Net → String → Middleware S
  with_trusted_subnets net subnet h req s =
      if not (subnet == "")
      then if is_trusted subnet (req.header "X-Real-IP")
        then h req s
        else refuse net "forbidden" 403 s
      else h req s

  -- UnaryServerInterceptor: `values` is what the metadata holds under X-Real-IP, `handler` the rest
  -- of the call, `denied` the error of the status PermissionDenied.
  unfoldable pub unary_server_interceptor : {R : Type 0} → String → List String → R → R → R
  unary_server_interceptor subnet [] denied handler = handler
  unary_server_interceptor subnet (value ∷ _) denied handler =
      if not (subnet == "") then if is_trusted subnet value then handler else denied else handler

  is_trusted-InSubnet :
      (subnet address : String) → is_trusted subnet address ≡ true → InSubnet subnet address
  unfolding is_trusted
  is_trusted-InSubnet subnet address e = elim (Option-cases (a.parse_ip address)) [
    | inl bad ↦ absurd (false≢true (rw (bad, is_trusted) at e))
    | inr (ip, p) ↦ elim (Option-cases (a.parse_cidr subnet)) [
      | inl bad ↦ absurd (false≢true (rw (p, bad, is_trusted) at e))
      | inr (net, q) ↦ record {
        ip = ip;
        net = net;
        is_address = p;
        is_subnet = q;
        inside = rw (p, q, is_trusted) at e;
      }
    ]
  ]

  pub InSubnet-is_trusted :
      (subnet address : String) → InSubnet subnet address → is_trusted subnet address ≡ true
  unfolding is_trusted
  InSubnet-is_trusted subnet address h = rw (h.is_address, h.is_subnet, is_trusted) h.inside

  not-InSubnet :
      (subnet address : String) → ¬ InSubnet subnet address → is_trusted subnet address ≡ false
  not-InSubnet subnet address out = elim (Bool-cases (is_trusted subnet address)) [
    | inl fine ↦ absurd (out (is_trusted-InSubnet subnet address fine))
    | inr refused ↦ refused
  ]

  -- With a subnet in the configuration the handler runs for an address inside the subnet, and every
  -- other request, also one that names no address, is answered with 403 and leaves the state alone.
  pub with_trusted_subnets_guards :
      {S : Type 0} (net : Net) (subnet : String) (h : Handler S) (req : Request) (s : S)
      → subnet ≢ ""
      → (InSubnet subnet (req.header "X-Real-IP")
          × (with_trusted_subnets net subnet h req s ≡ h req s))
        ⊎ ((¬ InSubnet subnet (req.header "X-Real-IP"))
            × (with_trusted_subnets net subnet h req s ≡ refuse net "forbidden" 403 s))
  unfolding with_trusted_subnets
  with_trusted_subnets_guards net subnet h req s ne =
      let address = req.header "X-Real-IP" in
      let on = eq-eq_false subnet "" ne in
      elim (Bool-cases (is_trusted subnet address)) [
        | inl yes' ↦
            inl (is_trusted-InSubnet subnet address yes', rw (on, yes', with_trusted_subnets) refl)
        | inr no' ↦ inr (
          λ i. cc (no', InSubnet-is_trusted subnet address i),
          rw (on, no', with_trusted_subnets) refl,
        )
      ]

  -- The interceptor of the gRPC server denies a call exactly if a subnet is configured, the metadata
  -- names an address, and the first address named is not inside it: a call that names none passes.
  pub unary_server_interceptor_iff :
      {R : Type 0} (subnet : String) (values : List String) (denied handler : R)
      → denied ≢ handler
      → (unary_server_interceptor subnet values denied handler ≡ denied) ↔ (
          (subnet ≢ "")
          × ((address : String) × (rest : List String) × (values ≡ address ∷ rest)
              × (¬ InSubnet subnet address)))
  unfolding unary_server_interceptor
  unary_server_interceptor_iff subnet [] denied handler ne =
      (λ e. absurd (ne (sym e)), λ p. cc (p.1.2))
  unary_server_interceptor_iff subnet (value ∷ rest) denied handler ne = (
    λ e.
        let off : (subnet == "") ≡ false = ground arith in
        let outside : is_trusted subnet value ≡ false = ground arith in
        (
          λ p. cc (off, (eq_iff subnet "").1 p),
          (value, rest, refl, λ i. cc (outside, InSubnet-is_trusted subnet value i)),
        ),
    λ (on, (address, rest', same, out)).
        let outside : is_trusted subnet value ≡ false =
          not-InSubnet subnet value (λ i. out (subst (InSubnet subnet) (head_eq same) i)) in
        rw (eq-eq_false subnet "" on, outside) refl,
  )
