-- ===== src/DirectPort/Publication.antt =====
-- `classify_unpublished_publication_shape` with the summaries that it builds.
pub mod Safety
use hosted_replay_harness.Options.{◌>>=◌, ◌>>◌, only_if}
use hosted_replay_harness.Prelude.{
  Bool, Bytes, List, Option, String, [], codes, cut, decimal_from, false, if◌then◌else◌, is_digits,
  leb, length, less, none, not, one_of, reverse_onto, some, str_eq, true, ℕ, ◌&&◌, ◌+◌, ◌==◌, ◌||◌,
  ◌∷◌,
}
use hosted_replay_harness.Value.{
  Fields, Value, as_dict, as_list, as_text, boolean, cons, dict, end, eq, field, get, get?, has,
  items, list, nil, null, num, size,
}
use hosted_replay_harness.DockerApi.Json.{has_exactly}
use hosted_replay_harness.TextOrder.{place}

abbrev pub db_container_port : String
db_container_port = "5432/tcp"

-- `value.rsplit("/", 1)`
abbrev cut_last : Bytes → Option (Bytes × Bytes)
cut_last s = elim (cut b'/' (reverse_onto s [])) [
  | none ↦ none
  | some (tail, head) ↦ some (reverse_onto head [], reverse_onto tail [])
]

-- `int(port)` of up to 4300 digits
pub is_valid_port_key : String → Bool
is_valid_port_key key = elim (cut_last (codes key)) [
  | none ↦ false
  | some (port, protocol) ↦
      is_digits port
      && ((leb 1 (decimal_from 0 port) && leb (decimal_from 0 port) 65535)
          && one_of protocol (codes "tcp" ∷ codes "udp" ∷ codes "sctp" ∷ []))
]

-- `value in (None, {})`
abbrev is_marker : Value → Bool
is_marker null = true
is_marker (dict end) = true
is_marker _ = false

abbrev pub Exposed : Type 0
Exposed = ℕ × Bool

are_exposed : Fields → Bool
unfolding is_valid_port_key
are_exposed end = true
are_exposed (field k v fs) = (is_valid_port_key k && is_marker v) && are_exposed fs

-- `value = {}` for `None`
abbrev dict_or_null : Value → Option Fields
dict_or_null null = some end
dict_or_null v = as_dict v

exposed_port_summary : Value → Option Exposed
unfolding are_exposed
exposed_port_summary value = do
  ports ← dict_or_null value
  only_if (are_exposed ports) (some (size ports, has db_container_port ports))

-- a host's address and port
abbrev pub Binding : Type 0
Binding = String × String

abbrev text_field : String → Fields → Option String
text_field k fs = as_text (get k fs)

binding_of : Value → Option Binding
binding_of v = do
  b ← as_dict v
  only_if (has_exactly ("HostIp" ∷ "HostPort" ∷ []) b) (some tt)
  ip ← text_field "HostIp" b
  port ← text_field "HostPort" b
  some (ip, port)

bindings_of : List Value → Option (List Binding)
unfolding binding_of
bindings_of [] = some []
bindings_of (v ∷ vs) =
    let rest = bindings_of vs in do b ← binding_of v; more ← rest; some (b ∷ more)

-- `None` has no bindings, and what is no list is refused.
abbrev entry_of : Value → Option (List Value)
entry_of null = some []
entry_of v = elim (as_list v) [ none ↦ none | some xs ↦ some (items xs) ]

-- the bindings of each port
abbrev pub Signatures : Type 0
Signatures = List (String × List Binding)

signatures_of : Fields → Option Signatures
unfolding bindings_of is_valid_port_key
signatures_of end = some []
signatures_of (field k v fs) =
    let rest = signatures_of fs in
    do
      only_if (is_valid_port_key k) (some tt)
      vs ← entry_of v
      bs ← bindings_of vs
      more ← rest
      some ((k, bs) ∷ more)

abbrev bindings_at : String → Signatures → List Binding
bindings_at k [] = []
bindings_at k ((j, bs) ∷ rest) = if str_eq j k then bs else bindings_at k rest

abbrev total_bindings : Signatures → ℕ
total_bindings [] = 0
total_bindings ((k, bs) ∷ rest) = length bs + total_bindings rest

pub record Bindings : Type 0 where
  pub key_count : ℕ
  pub port_5432_present : Bool
  pub port_5432_binding_count : ℕ
  pub total_binding_count : ℕ
  pub signatures : Signatures

binding_map_summary : Value → Option Bindings
unfolding signatures_of
binding_map_summary value = do
  ports ← dict_or_null value
  signatures ← signatures_of ports
  some (record {
    key_count = size ports;
    port_5432_present = has db_container_port ports;
    port_5432_binding_count = length (bindings_at db_container_port signatures);
    total_binding_count = total_bindings signatures;
    signatures = signatures;
  })

pub data ValueClass : Type 0 where
  absent_class null_class empty_list_class nonempty_list_class wrong_type_class : ValueClass

abbrev class_of : Value → ValueClass
class_of null = null_class
class_of (list nil) = empty_list_class
class_of (list (cons _ _)) = nonempty_list_class
class_of _ = wrong_type_class

pub network_5432_value_class : Value → ValueClass
network_5432_value_class (dict fs) = elim (get? db_container_port fs) [
  | none ↦ absent_class
  | some v ↦ class_of v
]
network_5432_value_class _ = wrong_type_class

abbrev is_wrong : ValueClass → Bool
is_wrong wrong_type_class = true
is_wrong _ = false

-- `{key: sorted ports for key, bindings in … if bindings}`
abbrev ports_of : List Binding → List String
ports_of [] = []
ports_of ((ip, port) ∷ bs) = place port (ports_of bs)

abbrev same_ports : List String → List String → Bool
same_ports [] [] = true
same_ports (s ∷ ss) (t ∷ ts) = str_eq s t && same_ports ss ts
same_ports _ _ = false

pub nonempty : Signatures → Signatures
nonempty [] = []
nonempty ((k, []) ∷ rest) = nonempty rest
nonempty ((k, b ∷ bs) ∷ rest) = (k, b ∷ bs) ∷ nonempty rest

abbrev all_at : Signatures → Signatures → Bool
all_at [] those = true
all_at ((k, bs) ∷ rest) those =
    same_ports (ports_of bs) (ports_of (bindings_at k those)) && all_at rest those

-- Equality of the two dicts; a port without bindings is in neither.
same_requests : Signatures → Signatures → Bool
same_requests a b = (length a == length b) && all_at a b

abbrev pub is_nil {ℓ} : {A : Type ℓ} → List A → Bool
is_nil [] = true
is_nil (x ∷ xs) = false

pub data PublicationClass : Type 0 where
  schema_rejected request_rejected runtime_rejected shape_safe : PublicationClass

-- The summary without its digest, which is a hash of the rest.
pub record Summary : Type 0 where
  pub config_exposed_ports_key_count : ℕ
  pub config_exposed_ports_5432_present : Bool
  pub requested : Bindings
  pub host_publish_all_ports : Bool
  pub value_class : ValueClass
  pub published : Bindings

-- What the code returns: the class, and the other keys where they are there.
pub record Publication : Type 0 where
  pub class : PublicationClass
  pub value_class : Option ValueClass
  pub summary : Option Summary

-- the last tests, on the ports that have bindings
publication_class : Bool → Signatures → Signatures → PublicationClass
unfolding same_requests
publication_class publish_all requested published =
    if not (is_nil requested) && (not (is_nil published) && not (same_requests requested published))
    then schema_rejected
    else if publish_all || not (is_nil requested)
    then request_rejected
    else if not (is_nil published)
    then runtime_rejected
    else shape_safe

abbrev as_boolean : Value → Option Bool
as_boolean (boolean b) = some b
as_boolean _ = none

-- what the classification needs of the three sections
surfaces : Fields → Option (Value × Value × Value × Value)
unfolding eq
surfaces inspected = do
  only_if
      (has_exactly ("schema_version" ∷ "config" ∷ "host_config" ∷ "network_settings" ∷ []) inspected
        && eq (get "schema_version" inspected) (num 1))
      (some tt)
  config ← as_dict (get "config" inspected)
  only_if (has_exactly ("exposed_ports" ∷ []) config) (some tt)
  host ← as_dict (get "host_config" inspected)
  only_if (has_exactly ("port_bindings" ∷ "publish_all_ports" ∷ []) host) (some tt)
  network ← as_dict (get "network_settings" inspected)
  only_if (has_exactly ("ports" ∷ []) network) (some tt)
  some (
    get "exposed_ports" config,
    get "port_bindings" host,
    get "publish_all_ports" host,
    get "ports" network,
  )

summary_of : Value → Value → Value → Value → Option Summary
unfolding exposed_port_summary binding_map_summary network_5432_value_class
summary_of exposed bindings publish_all ports = do
  (count, present) ← exposed_port_summary exposed
  requested ← binding_map_summary bindings
  published ← binding_map_summary ports
  all_ports ← as_boolean publish_all
  only_if (not (is_wrong (network_5432_value_class ports))) (some tt)
  some (record {
    config_exposed_ports_key_count = count;
    config_exposed_ports_5432_present = present;
    requested = requested;
    host_publish_all_ports = all_ports;
    value_class = network_5432_value_class ports;
    published = published;
  })

classify_summary : Summary → PublicationClass
unfolding publication_class nonempty
classify_summary s =
    publication_class s.host_publish_all_ports (nonempty s.requested.signatures)
      (nonempty s.published.signatures)

abbrev publication : PublicationClass → Option ValueClass → Option Summary → Publication
publication c v s = record { class = c; value_class = v; summary = s }

of_summary : ValueClass → Option Summary → Publication
unfolding classify_summary
of_summary v none = publication schema_rejected (some v) none
of_summary v (some s) = publication (classify_summary s) (some v) (some s)

of_surfaces : Option (Value × Value × Value × Value) → Publication
unfolding of_summary summary_of network_5432_value_class
of_surfaces none = publication schema_rejected none none
of_surfaces (some (exposed, bindings, publish_all, ports)) =
    of_summary (network_5432_value_class ports) (summary_of exposed bindings publish_all ports)

unfoldable pub classify_publication : Fields → Publication
unfolding surfaces of_surfaces
classify_publication inspected = of_surfaces (surfaces inspected)

-- opens the definitions to tests
unfoldable pub run_publication : Unit {0}
unfolding classify_publication place
run_publication = tt
