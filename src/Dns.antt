-- ===== src/Dns.antt =====
-- The DNS check, a checker pod of its own (cmd/dns-resolution-check/main.go). The lookups of the resolver
-- library are arguments. Logging is left out.
pub mod Resolved
use kuberhealthy.Prelude.{
  Bool, true, false, Option, none, some, List, [], ◌∷◌, ◌++◌, Text, codes, is_empty, if◌then◌else◌,
}
use kuberhealthy.Api.Results.{Err, new_error, Reply, reply, refuse}

-- The addresses of each subset of an endpoint.
abbrev pub Endpoint : Type 0
Endpoint = List (List Text)

abbrev pub addresses_of : Endpoint → List Text
addresses_of [] = []
addresses_of (subset ∷ subsets) = subset ++ addresses_of subsets

-- The loops of `getIpsFromEndpoint`
unfoldable pub ips_of : List Endpoint → List Text
ips_of [] = []
ips_of (ep ∷ endpoints) = addresses_of ep ++ ips_of endpoints

abbrev pub if_any : List Text → Reply (List Text)
if_any [] = refuse (new_error (codes "No Ip's found in endpoints list"))
if_any (ip ∷ ips) = reply (ip ∷ ips)

-- `getIpsFromEndpoint`
unfoldable pub get_ips_from_endpoint : List Endpoint → Reply (List Text)
get_ips_from_endpoint [] = refuse (new_error (codes "No endpoints found"))
get_ips_from_endpoint (ep ∷ endpoints) = if_any (ips_of (ep ∷ endpoints))

abbrev pub down : Err → Err
down e = new_error (codes "DNS Status check determined that host is DOWN: " ++ e.message)

-- `lookup_at` asks the server of an address for the host, and `lookup_service` the one of the pod.
module _ (lookup_at : (ip : Text) → Option Err) (lookup_service : Option Err) where
  -- `createResolver` with `dnsLookup`
  abbrev pub look_up : (ip : Text) → Option Err
  look_up [] = some (new_error (codes "Need a valid ip to create Resolver"))
  look_up (c ∷ ip) = elim (lookup_at (c ∷ ip)) [ none ↦ none | some e ↦ some (down e) ]

  -- The loop over the addresses: the first error ends it.
  unfoldable pub look_up_all : (ips : List Text) → Option Err
  look_up_all [] = none
  look_up_all (ip ∷ ips) =
      let rest = look_up_all ips in elim (look_up ip) [ none ↦ rest | some e ↦ some e ]

  abbrev pub look_up_listed : Reply (List Text) → Option Err
  look_up_listed (refuse e) = some e
  look_up_listed (reply ips) = look_up_all ips

  -- `checkEndpoints`, for what its listing answers
  unfoldable pub check_endpoints : Reply (List Endpoint) → Option Err
  check_endpoints (refuse e) =
      some (
        new_error
          (codes "DNS status check unable to get dns endpoints from cluster: " ++ e.message))
  check_endpoints (reply endpoints) = look_up_listed (get_ips_from_endpoint endpoints)

  -- `doChecks`
  unfoldable pub do_checks : (label_selector : Text) → Reply (List Endpoint) → Option Err
  do_checks [] listed = elim lookup_service [ none ↦ none | some e ↦ some (down e) ]
  do_checks (c ∷ label_selector) listed = check_endpoints listed

  -- What `Run` reports, with whether its timeout comes first: the messages of a failure, none for
  -- success.
  unfoldable pub run : (is_late : Bool) (label_selector : Text) → Reply (List Endpoint) → List Text
  run true label_selector listed =
      codes "Failed to complete DNS Status check in time! Timeout was reached." ∷ []
  run false label_selector listed = elim (do_checks label_selector listed) [
    | none ↦ []
    | some e ↦ e.message ∷ []
  ]
