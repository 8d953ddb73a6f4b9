-- ===== src/Agent/Address.antt =====
-- realIP, of internal/agent/agent.go and internal/httpclient/httpclient.go alike: the address that
-- a request names as its sender.
use go_metrics_harvester.Base.{
  inl-ne-inr, String, ◌≡◌, ap, ◌∙◌, ◌⊎◌, inl, inr, Bool, true, false, not, Bool-cases, Sum-cases,
  Option-cases, Option, none, some, List, [], ◌∷◌, if◌then◌else◌, Error,
}

-- One address of an interface: `ip` is missing where the type is neither IPNet nor IPAddr, `ipv4`
-- the text of To4 where that is not nil.
pub record Address : Type 0 where
  pub ip : Bool
  pub loopback : Bool
  pub ipv4 : Option String

-- One of net.Interfaces, with its flags and what Addrs returns.
pub record Interface : Type 0 where
  pub up : Bool
  pub loopback : Bool
  pub addrs : Error ⊎ List Address

-- The inner loop: the address that it returns, if it does.
unfoldable pub first_address : List Address → Option String
first_address [] = none
first_address (a ∷ addrs) =
    let rest = first_address addrs in
    if not a.ip
    then rest
    else if a.loopback
    then rest
    else elim a.ipv4 [ none ↦ rest | some text ↦ some text ]

abbrev found_or : Error ⊎ String → Error ⊎ List Address → Error ⊎ String
found_or rest (inl e) = inl e
found_or rest (inr addrs) = elim (first_address addrs) [ none ↦ rest | some text ↦ inr text ]

unfoldable pub scan : List Interface → Error ⊎ String
scan [] = inr "127.0.0.1"
scan (i ∷ ifaces) =
    let rest = scan ifaces in
    if not i.up then rest else if i.loopback then rest else found_or rest i.addrs

unfoldable pub real_ip : Error ⊎ List Interface → Error ⊎ String
real_ip (inl e) = inl e
real_ip (inr ifaces) = scan ifaces

-- An address is among some addresses as one that can be named.
pub data Usable (text : String) : List Address → Type 0 where
  first :
      {a : Address} {l : List Address}
      → a.ip ≡ true
      → a.loopback ≡ false
      → a.ipv4 ≡ some text
      → Usable text (a ∷ l)
  later : {a : Address} {l : List Address} → Usable text l → Usable text (a ∷ l)

-- An interface is up, is no loopback interface, and has the address.
pub data Offered (text : String) : List Interface → Type 0 where
  at :
      {i : Interface} {l : List Interface} {addrs : List Address}
      → i.up ≡ true
      → i.loopback ≡ false
      → i.addrs ≡ inr addrs
      → Usable text addrs
      → Offered text (i ∷ l)
  beyond : {i : Interface} {l : List Interface} → Offered text l → Offered text (i ∷ l)

first_address-some :
    (l : List Address) (text : String) → first_address l ≡ some text → Usable text l
unfolding first_address
first_address-some [] text e = cc e
first_address-some (a ∷ l) text e = elim (Bool-cases a.ip) [
  | inr none' ↦ later (first_address-some l text (rw (none', first_address) at e))
  | inl has ↦ elim (Bool-cases a.loopback) [
    | inl back ↦ later (first_address-some l text (rw (has, back, first_address) at e))
    | inr out ↦ elim (Option-cases a.ipv4) [
      | inl six ↦ later (first_address-some l text (rw (has, out, six, first_address) at e))
      | inr (t, four) ↦ first has out (cc (four, rw (has, out, four, first_address) at e))
    ]
  ]
]

Offered-later :
    {i : Interface} {ifaces : List Interface} {text : String} {D : Type 0}
    → Offered text ifaces ⊎ D
    → Offered text (i ∷ ifaces) ⊎ D
Offered-later (inl o) = inl (beyond o)
Offered-later (inr d) = inr d

-- The address that realIP returns, if it returns one, is one that an interface offers which is up
-- and no loopback interface, no loopback address and of version 4, or else 127.0.0.1.
pub real_ip-eq-inr :
    (ifaces : List Interface) (text : String)
    → real_ip (inr ifaces) ≡ inr text
    → Offered text ifaces ⊎ (text ≡ "127.0.0.1")
unfolding real_ip scan
real_ip-eq-inr [] text e = inr (cc e)
real_ip-eq-inr (i ∷ ifaces) text e =
    let skipped : scan ifaces ≡ inr text → Offered text (i ∷ ifaces) ⊎ (text ≡ "127.0.0.1") =
      λ p. Offered-later (real_ip-eq-inr ifaces text p) in
    elim (Bool-cases i.up) [
      | inr down ↦ skipped (rw (down, scan) at e)
      | inl up ↦ elim (Bool-cases i.loopback) [
        | inl back ↦ skipped (rw (up, back, scan) at e)
        | inr out ↦ elim (Sum-cases i.addrs) [
          | inl (e', bad) ↦ absurd (inl-ne-inr (rw (up, out, bad, scan) at e))
          | inr (addrs, good) ↦ elim (Option-cases (first_address addrs)) [
            | inl nothing ↦ skipped (rw (up, out, good, nothing, scan, found_or) at e)
            | inr (t, found) ↦
                let same : t ≡ text = cc (rw (up, out, good, found, scan, found_or) at e) in
                inl (at up out good (first_address-some addrs text (found ∙ ap some same)))
          ]
        ]
      ]
    ]
