-- ===== src/Client/Options/Checked.antt =====
-- What the constructor of client.ts lets through.
use Prim.Native.Char.{Char}
use copilot_sdk_swift.Prelude.{
  ℕ, ◌≤◌, String, ◌≡◌, ◌⊎◌, inl, inr, refl, true, false, Option, none, some, List, [], ◌∷◌, arith,
  ◌∙◌, ap, Bool-cases, Option-cases, is_some, if-true,
}
use copilot_sdk_swift.Js.Outcome.{ok, Outcome-cases}
use copilot_sdk_swift.Client.State.{Client}
use copilot_sdk_swift.Client.Options.{
  ClientOptions, given, is_number, digits_value, parse_int, split_colons, host_and_port,
  address_text, parse_cli_url, construct, address, new_client, validated,
}

host_and_port-bounds :
    (url host : String) (port : ℕ) (parts : List (List Char))
    → host_and_port url parts ≡ ok (host, port)
    → (1 ≤ port) × (port ≤ 65535)
host_and_port-bounds url host port [] h = absurd (cc h)
host_and_port-bounds url host port (a ∷ []) h = absurd (cc h)
host_and_port-bounds url host port (a ∷ b ∷ c ∷ rest) h = absurd (cc h)
host_and_port-bounds url host port (a ∷ b ∷ []) h = elim (Option-cases (parse_int b)) [
  | inl e ↦ absurd (ground (arith, e, h))
  | inr (n, e) ↦ (ground (arith, e, h), ground (arith, e, h))
]

-- An address that `parseCliUrl` returns has a port from 1 to 65535, unless the URL is nothing but digits
-- behind the protocol: then the port is their value, whatever that is, and the host is "localhost".
pub parse_cli_url-bounds :
    (url host : String) (port : ℕ)
    → parse_cli_url url ≡ ok (host, port)
    → ((is_number (address_text url) ≡ true)
        × (host ≡ "localhost")
        × (port ≡ digits_value 0 (address_text url)))
      ⊎ ((1 ≤ port) × (port ≤ 65535))
unfolding parse_cli_url
parse_cli_url-bounds url host port h = elim (Bool-cases (is_number (address_text url))) [
  | inl b ↦ inl (b, ground (arith, b, h), ground (arith, b, h))
  | inr b ↦
      inr (
        host_and_port-bounds url host port (split_colons (address_text url)) (ground (arith, b, h)))
]

address-given :
    (u : Option String) (a : Option (String × ℕ))
    → given u ≡ true
    → address u ≡ ok a
    → is_some a ≡ true
address-given none a g h = absurd (cc g)
address-given (some t) a g h = ground (arith, g, h)

pub construct-new_client :
    (o : ClientOptions) (c : Client)
    → construct o ≡ ok c
    → (a : Option (String × ℕ)) × (address o.cli_url ≡ ok a) × (c ≡ new_client o a)
unfolding construct
construct-new_client o c h = elim (Outcome-cases (validated o.session_fs)) [
  | inr (x, e) ↦ absurd (ground (arith, e, h))
  | inl (x, e) ↦ elim (Outcome-cases (address o.cli_url)) [
    | inr (y, f) ↦ absurd (ground (arith, e, f, h))
    | inl (a, f) ↦ (a, f, ground (arith, e, f, h))
  ]
]

construct-child :
    (o : ClientOptions) (c : Client)
    → construct o ≡ ok c
    → given o.cli_url ≡ true
    → o.is_child_process ≡ false
unfolding construct
construct-child o c h g = elim (Bool-cases o.is_child_process) [
  | inr b ↦ b
  | inl b ↦ absurd (ground (arith, b, g, h))
]

-- A client that is constructed with a `cliUrl` has an external server, a port, and TCP as its transport,
-- and is not a child process.
pub construct-consistent :
    (o : ClientOptions) (c : Client)
    → construct o ≡ ok c
    → given o.cli_url ≡ true
    → (c.is_external_server ≡ true)
      × (is_some c.actual_port ≡ true)
      × (c.use_stdio ≡ false)
      × (c.is_child_process ≡ false)
construct-consistent o c h g =
    let (a, found, same) = construct-new_client o c h in
    let child = construct-child o c h g in
    let present = address-given o.cli_url a g found in
    (
      ap (λ (x : Client). x.is_external_server) same ∙ ground (arith, present),
      ap (λ (x : Client). is_some x.actual_port) same ∙ has_port a present,
      ap (λ (x : Client). x.use_stdio) same ∙ if-true (given o.cli_url) _ _ g,
      ap (λ (x : Client). x.is_child_process) same ∙ child,
    )
  where
    has_port :
        (a : Option (String × ℕ)) → is_some a ≡ true → is_some (new_client o a).actual_port ≡ true
    has_port none p = p
    has_port (some (host, port)) p = refl
